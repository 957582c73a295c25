-- ===== src/UsbUpdate/Authentic/Requests.antt =====
-- The updater of src/usb_update.rs is in the phase Activated only while the slot it activated
-- holds an image that passed every check.
use salpa.Base.{
  ℕ, ◌+◌, ◌-◌, ◌≡◌, refl, sym, subst, ◌∙◌, Bool, true, not, ◌&&◌, ◌||◌, Option, none, some,
  some-injective, List, [], ◌∷◌, if-cases, option-cases, ltb, length, ◌==◌, read_u32_le, byte, drop,
}
use salpa.SignedImage.Format.{Sha256}
use salpa.UsbUpdate.Protocol.{
  StatusCode, UpdateLayout, UpdateBackend, next_sequence, parse_session_id, parse_operation,
  Operation, info, begin, write, advance, status, abort,
}
use salpa.UsbUpdate.Session.{Session, UsbUpdater, Outcome, new, while_live, progress, poll}
use salpa.UsbUpdate.Updater.{
  conclude, first_session, is_activated, start_session, valid_size, begin_session, write_chunk,
  write_request, advance_session, advance_request, abort_session, run_operation, handle_inner,
  handle,
}
use salpa.UsbUpdate.Kept.{After, while_live-kept, progress-kept, expire-kept}
use salpa.UsbUpdate.Confined.Requests.{Event, tick, request, step, run}
use salpa.SignedImage.Streams.{Streaming}
use salpa.UsbUpdate.Authentic.{Flash, Approved}
use salpa.UsbUpdate.Authentic.Steps.{
  Settled, SettledHere, quiet_settled, Plain, quiet-Plain, Plain-After, write_chunk-Settled,
  advance_phase-Settled,
}

module _ {S H : Type 0} (sha : Sha256 H) (streaming : Streaming sha) (back : UpdateBackend S)
    (contents : S → ℕ → List ℕ) (Genuine : List ℕ → List ℕ → List ℕ → Type 0)
    (holds : Flash back contents Genuine) (key : List ℕ) (floor : ℕ) where
  abbrev SessionSettled : S → Option (Session H) → Type 0
  SessionSettled b none = Unit
  SessionSettled b (some s) = (SettledHere sha streaming back contents Genuine holds key floor) b s

  -- What holds of the updater between requests.
  abbrev Authentic : UsbUpdater S H → Type 0
  Authentic u =
      SessionSettled u.backend u.session
      × (u.trusted_key_digest ≡ key)
      × (u.current_secure_version ≡ floor)

  session_settled :
      (b : S) (o : Option (Session H)) (s : Session H)
      → o ≡ some s
      → SessionSettled b o
      → (SettledHere sha streaming back contents Genuine holds key floor) b s
  session_settled b none s e k = cc
  session_settled b (some t) s e k =
      subst ((SettledHere sha streaming back contents Genuine holds key floor) b)
        (some-injective t s e) k

  conclude-Authentic :
      (u : UsbUpdater S H) (s : Session H) (f : S → Session H → Outcome S H)
      → u.session ≡ some s
      → Authentic u
      → ((b : S) (t : Session H)
          → (SettledHere sha streaming back contents Genuine holds key floor) b t
          → After back (SettledHere sha streaming back contents Genuine holds key floor) (f b t))
      → Authentic (conclude u (while_live back u.backend s f)).1
  conclude-Authentic u s f e a next = (
    while_live-kept back (SettledHere sha streaming back contents Genuine holds key floor)
        (quiet_settled sha streaming back contents Genuine holds key floor) u.backend s f
        (session_settled u.backend u.session s e a.0) next,
    a.1,
    a.2,
  )

  write_request-Authentic :
      (u : UsbUpdater S H) (bytes : List ℕ)
      → Authentic u
      → Authentic (write_request sha back u bytes).1
  unfolding write_request
  write_request-Authentic u bytes a =
      let Post : StatusCode × UsbUpdater S H → Type 0 = λ r. Authentic r.1 in
      if-cases Post (ltb (length bytes) 9 || ltb (9 + 992) (length bytes)) (λ e. a)
        (λ e.
          option-cases Post u.session (λ e. a)
            (λ s found.
              if-cases Post (not (s.id == read_u32_le bytes 0)) (λ e. a)
                (λ e.
                  conclude-Authentic u s (write_chunk sha back (read_u32_le bytes 4) (drop 8 bytes))
                    found a
                    ((write_chunk-Settled sha streaming back contents Genuine holds key floor)
                      (read_u32_le bytes 4) (drop 8 bytes)))))

  advance_session-Settled :
      (k : List ℕ) (n : ℕ)
      → k ≡ key
      → n ≡ floor
      → (b : S) (t : Session H)
      → (SettledHere sha streaming back contents Genuine holds key floor) b t
      → After back
          (SettledHere sha streaming back contents Genuine holds key floor)
          (advance_session sha back k n b t)
  unfolding advance_session
  advance_session-Settled k n e e' b t z = rw e (
      rw e' (
        (advance_phase-Settled sha streaming back contents Genuine holds key floor) t.phase b t refl
          z))

  advance_request-Authentic :
      (u : UsbUpdater S H) (bytes : List ℕ)
      → Authentic u
      → Authentic (advance_request sha back u bytes).1
  unfolding advance_request
  advance_request-Authentic u bytes a =
      let Post : StatusCode × UsbUpdater S H → Type 0 = λ r. Authentic r.1 in
      option-cases Post (parse_session_id bytes) (λ e. a)
        (λ id e.
          option-cases Post u.session (λ e. a)
            (λ s found.
              if-cases Post (not (s.id == id)) (λ e. a)
                (λ e.
                  conclude-Authentic u s
                    (advance_session sha back u.trusted_key_digest u.current_secure_version) found a
                    (advance_session-Settled u.trusted_key_digest u.current_secure_version a.1
                      a.2))))

  session_still :
      (b b' : S) (o : Option (Session H))
      → ((slot : ℕ) → contents b' slot ≡ contents b slot)
      → SessionSettled b o
      → SessionSettled b' o
  session_still b b' none e k = tt
  session_still b b' (some s) e k =
      subst (λ i. (Settled sha streaming back contents Genuine holds key floor) i s)
        (sym (e s.target_slot)) k

  start_session-Authentic :
      (u : UsbUpdater S H) (b : S) (started_ms : ℕ) (l : UpdateLayout) (total : ℕ) (bytes : List ℕ)
      → Authentic (record u { backend = b })
      → Authentic (start_session sha back u b started_ms l total bytes).1
  unfolding start_session first_session
  start_session-Authentic u b started_ms l total bytes a =
      let Post : StatusCode × UsbUpdater S H → Type 0 = λ r. Authentic r.1 in
      if-cases Post (ltb 1 l.active_slot || ltb 1 l.activation_entry) (λ e. a)
        (λ e.
          option-cases Post (next_sequence l.active_sequence (1 - l.active_slot)) (λ e. a)
            (λ target_sequence e.
              let first = first_session sha back u started_ms l target_sequence total bytes in
              (
                (Plain-After sha streaming back contents Genuine holds key floor)
                    (progress back b first)
                    (progress-kept back (Plain sha streaming back contents Genuine holds key floor)
                      (quiet-Plain sha streaming back contents Genuine holds key floor) b first
                      (refl, refl)),
                a.1,
                a.2,
              )))

  begin_session-Authentic :
      (u : UsbUpdater S H) (bytes : List ℕ) (present : Bool)
      → Authentic u
      → Authentic (begin_session sha back u bytes present).1
  unfolding begin_session
  begin_session-Authentic u bytes present a =
      let Post : StatusCode × UsbUpdater S H → Type 0 = λ r. Authentic r.1 in
      let total = read_u32_le bytes 1 in
      let version_length = byte bytes 41 in
      let b = (back.now_ms u.backend).0 in
      let kept =
        session_still u.backend (back.layout b).0 u.session
          (λ slot. holds.layout b slot ∙ holds.clock u.backend slot) a.0 in
      if-cases Post (ltb (length bytes) 42 || not (byte bytes 0 == 1)) (λ e. a)
        (λ e.
          if-cases Post
            (not (length bytes == 42 + version_length)
              || version_length == 0
              || ltb 31 version_length)
            (λ e. a)
            (λ e.
              if-cases Post (not (valid_size total)) (λ e. a)
                (λ valid.
                  if-cases Post (ltb (read_u32_le bytes 37) u.current_secure_version) (λ e. a)
                    (λ e.
                      if-cases Post (not present) (λ e. a)
                        (λ e.
                          option-cases Post (back.layout b).1 (λ e. (kept, a.1, a.2))
                            (λ l e.
                              start_session-Authentic u (back.layout b).0 (back.now_ms u.backend).1
                                l total bytes (kept, a.1, a.2)))))))

  abort_session-Authentic :
      (u : UsbUpdater S H) (bytes : List ℕ) → Authentic u → Authentic (abort_session u bytes).1
  unfolding abort_session
  abort_session-Authentic u bytes a =
      let Post : StatusCode × UsbUpdater S H → Type 0 = λ r. Authentic r.1 in
      option-cases Post (parse_session_id bytes) (λ e. a)
        (λ id e.
          option-cases Post u.session (λ e. a)
            (λ s found.
              if-cases Post (s.id == id && not (is_activated s.phase)) (λ e. (tt, a.1, a.2))
                (λ e. if-cases Post (not (s.id == id)) (λ e. a) (λ e. a))))

  run_operation-Authentic :
      (u : UsbUpdater S H) (o : Operation) (bytes : List ℕ) (present : Bool)
      → Authentic u
      → Authentic (run_operation sha back u o bytes present).1
  unfolding run_operation
  run_operation-Authentic u info bytes present a = a
  run_operation-Authentic u begin bytes present a = begin_session-Authentic u bytes present a
  run_operation-Authentic u write bytes present a = write_request-Authentic u bytes a
  run_operation-Authentic u advance bytes present a = advance_request-Authentic u bytes a
  run_operation-Authentic u status bytes present a = a
  run_operation-Authentic u abort bytes present a = abort_session-Authentic u bytes a

  handle_inner-Authentic :
      (u : UsbUpdater S H) (bytes : List ℕ) (present : Bool)
      → Authentic u
      → Authentic (handle_inner sha back u bytes present).1
  unfolding handle_inner
  handle_inner-Authentic u [] present a = a
  handle_inner-Authentic u (first ∷ bytes) present a =
      option-cases (λ (r : StatusCode × UsbUpdater S H). Authentic r.1) (parse_operation first)
        (λ e. a) (λ o e. run_operation-Authentic u o bytes present a)

  poll-Authentic : (u : UsbUpdater S H) → Authentic u → Authentic (poll back u)
  unfolding poll
  poll-Authentic u a =
      option-cases Authentic u.session (λ e. a)
        (λ s found. (
          expire-kept back (SettledHere sha streaming back contents Genuine holds key floor)
              (quiet_settled sha streaming back contents Genuine holds key floor)
              (back.now_ms u.backend).0 s (back.now_ms u.backend).1
              ((quiet_settled sha streaming back contents Genuine holds key floor).clock u.backend s
                (session_settled u.backend u.session s found a.0)),
          a.1,
          a.2,
        ))

  step-Authentic : (u : UsbUpdater S H) (e : Event) → Authentic u → Authentic (step sha back u e)
  unfolding step handle
  step-Authentic u tick a = poll-Authentic u a
  step-Authentic u (request bytes present) a =
      handle_inner-Authentic (poll back u) bytes present (poll-Authentic u a)

  run-Authentic :
      (u : UsbUpdater S H) (es : List Event) → Authentic u → Authentic (run sha back u es)
  unfolding run
  run-Authentic u [] a = a
  run-Authentic u (e ∷ es) a = run-Authentic (step sha back u e) es (step-Authentic u e a)

  new-Authentic : (b : S) (version : List ℕ) → Authentic (new b key version floor)
  unfolding new
  new-Authentic b version = (tt, refl, refl)

  -- Whatever requests reach an updater that `new` made with a trusted key and a secure version: if
  -- it has a session in the phase Activated, then the target slot holds an image whose hash,
  -- secure version and version are those announced, whose secure version is not below the
  -- updater's, and whose last sector has a signature block of the trusted key, accepted by RSA, for
  -- the hash of everything before it. SHA-256 in pieces is taken to be SHA-256 of the whole, and
  -- flash to return what it holds.
  pub activation-Approved :
      (b : S) (version : List ℕ) (es : List Event) (s : Session H)
      → (run sha back (new b key version floor) es).session ≡ some s
      → is_activated s.phase ≡ true
      → Approved sha Genuine key floor
          (contents (run sha back (new b key version floor) es).backend s.target_slot)
          s.total
          s.expected_hash
          s.expected_secure_version
          s.expected_version
  activation-Approved b version es s found active =
      let u = run sha back (new b key version floor) es in
      (session_settled u.backend u.session s found
          (run-Authentic (new b key version floor) es (new-Authentic b version)).0).1
        active
