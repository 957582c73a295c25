-- ===== src/UsbUpdate/Confined/Requests.antt =====
-- Every request of src/usb_update.rs, whatever its bytes, leaves the running slot alone.
use salpa.Base.{
  ℕ, ◌+◌, ◌-◌, ◌≡◌, refl, Bool, true, not, ◌&&◌, ◌||◌, Option, none, some, List, [], ◌∷◌, if-cases,
  option-cases, subst, some-injective, arith, length, ltb, ◌==◌, drop, read_u32_le, byte,
}
use salpa.SignedImage.Format.{Sha256}
use salpa.UsbUpdate.Protocol.{
  StatusCode, UpdateLayout, UpdateBackend, next_sequence, parse_session_id, parse_operation,
  Operation, info, begin, write, advance, status, abort, Phase, receiving, verifying, erasing, idle,
  activated, failed,
}
use salpa.UsbUpdate.Session.{Session, UsbUpdater, Outcome, new, while_live, poll}
use salpa.UsbUpdate.Updater.{
  conclude, first_session, is_activated, start_session, valid_size, begin_session, write_chunk,
  write_request, advance_session, advance_phase, advance_request, abort_session, run_operation,
  handle_inner, handle,
}
use salpa.UsbUpdate.Kept.{After, while_live-kept, progress-kept, expire-kept}
use salpa.UsbUpdate.Confined.{Sized, Keeps, SessionSized, Confined}
use salpa.UsbUpdate.Confined.Steps.{
  Held, quiet, moved, verify_step-Held, erase_step-Held, write_chunk-Held,
}

-- What reaches the updater: a tick of the firmware's loop, or a request of the host.
pub data Event : Type 0 where
  tick : Event
  request : List ℕ → Bool → Event

module _ {S H : Type 0} (sha : Sha256 H) (back : UpdateBackend S) where
  unfoldable pub step : UsbUpdater S H → Event → UsbUpdater S H
  step u tick = poll back u
  step u (request bytes user_present) = (handle sha back u bytes user_present).1

  unfoldable pub run : UsbUpdater S H → List Event → UsbUpdater S H
  unfolding step
  run u [] = u
  run u (e ∷ es) = run (step u e) es

module _ {S H : Type 0} (sha : Sha256 H) (back : UpdateBackend S) (running : ℕ) (P : S → Type 0)
    (keeps : Keeps back running P) where
  -- A step on the session of an updater, that holds for the size of its image.
  concluded :
      (u : UsbUpdater S H) (T : ℕ) (o : Outcome S H)
      → After back (Held sha back running P keeps T) o
      → Confined running P (conclude u o).1
  concluded u T o k = (k.0, k.1)

  advance_phase-Held :
      (T : ℕ) (phase : Phase) (trusted : List ℕ) (floor : ℕ) (b : S) (s : Session H)
      → Held sha back running P keeps T b s
      → After back
          (Held sha back running P keeps T)
          (advance_phase sha back phase trusted floor b s)
  unfolding advance_phase
  advance_phase-Held T erasing trusted floor b s k =
      erase_step-Held sha back running P keeps T b s k
  advance_phase-Held T receiving trusted floor b s k =
      if-cases (After back (Held sha back running P keeps T)) (not (s.completed == s.total))
        (λ e. k)
        (λ e.
          verify_step-Held sha back running P keeps T trusted floor b _
            (k.0, moved sha back running P keeps 0 k.1 (omega arith), k.2))
  advance_phase-Held T verifying trusted floor b s k =
      verify_step-Held sha back running P keeps T trusted floor b s k
  advance_phase-Held T activated trusted floor b s k = k
  advance_phase-Held T failed trusted floor b s k = k
  advance_phase-Held T idle trusted floor b s k = k

  session_sized :
      (o : Option (Session H)) (s : Session H)
      → o ≡ some s
      → SessionSized running o
      → Sized running s
  session_sized none s e c = cc
  session_sized (some t) s e c = subst (Sized running) (some-injective t s e) c

  -- A step on the session of the updater keeps it confined where the step keeps what `Held` says.
  conclude-Confined :
      (u : UsbUpdater S H) (s : Session H) (f : S → Session H → Outcome S H)
      → u.session ≡ some s
      → Confined running P u
      → ((b : S) (t : Session H)
          → Held sha back running P keeps s.total b t
          → After back (Held sha back running P keeps s.total) (f b t))
      → Confined running P (conclude u (while_live back u.backend s f)).1
  conclude-Confined u s f e c next =
      let k =
        while_live-kept back (Held sha back running P keeps s.total)
          (quiet sha back running P keeps s.total) u.backend s f
          (c.0, session_sized u.session s e c.1, refl) next in
      (k.0, k.1)

  write_request-Confined :
      (u : UsbUpdater S H) (bytes : List ℕ)
      → Confined running P u
      → Confined running P (write_request sha back u bytes).1
  unfolding write_request
  write_request-Confined u bytes c =
      let Post : StatusCode × UsbUpdater S H → Type 0 = λ r. Confined running P r.1 in
      if-cases Post (ltb (length bytes) 9 || ltb (9 + 992) (length bytes)) (λ e. c)
        (λ e.
          option-cases Post u.session (λ e. c)
            (λ s found.
              if-cases Post (not (s.id == read_u32_le bytes 0)) (λ e. c)
                (λ e.
                  conclude-Confined u s (write_chunk sha back (read_u32_le bytes 4) (drop 8 bytes))
                    found c
                    (write_chunk-Held sha back running P keeps s.total (read_u32_le bytes 4)
                      (drop 8 bytes)))))

  advance_request-Confined :
      (u : UsbUpdater S H) (bytes : List ℕ)
      → Confined running P u
      → Confined running P (advance_request sha back u bytes).1
  unfolding advance_request advance_session
  advance_request-Confined u bytes c =
      let Post : StatusCode × UsbUpdater S H → Type 0 = λ r. Confined running P r.1 in
      option-cases Post (parse_session_id bytes) (λ e. c)
        (λ id e.
          option-cases Post u.session (λ e. c)
            (λ s found.
              if-cases Post (not (s.id == id)) (λ e. c)
                (λ e.
                  conclude-Confined u s
                    (advance_session sha back u.trusted_key_digest u.current_secure_version) found c
                    (λ b t.
                      advance_phase-Held s.total t.phase u.trusted_key_digest
                        u.current_secure_version b t))))

  first_session-Sized :
      (u : UsbUpdater S H) (started_ms : ℕ) (l : UpdateLayout) (target_sequence total : ℕ)
      (bytes : List ℕ)
      → l.active_slot ≡ running
      → valid_size total ≡ true
      → Sized running (first_session sha back u started_ms l target_sequence total bytes)
  unfolding first_session valid_size
  first_session-Sized u started_ms l target_sequence total bytes runs valid = record {
    targets = omega (arith, runs);
    runs = runs;
    least = ground arith;
    fits = ground arith;
    sectors = ground arith;
    within = omega arith;
  }

  start_session-Confined :
      (u : UsbUpdater S H) (b : S) (started_ms : ℕ) (l : UpdateLayout) (total : ℕ) (bytes : List ℕ)
      → P b
      → SessionSized running u.session
      → l.active_slot ≡ running
      → valid_size total ≡ true
      → Confined running P (start_session sha back u b started_ms l total bytes).1
  unfolding start_session
  start_session-Confined u b started_ms l total bytes p z runs valid =
      let Post : StatusCode × UsbUpdater S H → Type 0 = λ r. Confined running P r.1 in
      if-cases Post (ltb 1 l.active_slot || ltb 1 l.activation_entry) (λ e. (p, z))
        (λ e.
          option-cases Post (next_sequence l.active_sequence (1 - l.active_slot)) (λ e. (p, z))
            (λ target_sequence e.
              let first = first_session sha back u started_ms l target_sequence total bytes in
              let k =
                progress-kept back (Held sha back running P keeps first.total)
                  (quiet sha back running P keeps first.total) b first
                  (
                    p,
                    first_session-Sized u started_ms l target_sequence total bytes runs valid,
                    refl,
                  ) in
              (k.0, k.1)))

  begin_session-Confined :
      (u : UsbUpdater S H) (bytes : List ℕ) (present : Bool)
      → Confined running P u
      → Confined running P (begin_session sha back u bytes present).1
  unfolding begin_session
  begin_session-Confined u bytes present c =
      let Post : StatusCode × UsbUpdater S H → Type 0 = λ r. Confined running P r.1 in
      let total = read_u32_le bytes 1 in
      let version_length = byte bytes 41 in
      let clock = keeps.clock u.backend c.0 in
      let b = (back.now_ms u.backend).0 in
      if-cases Post (ltb (length bytes) 42 || not (byte bytes 0 == 1)) (λ e. c)
        (λ e.
          if-cases Post
            (not (length bytes == 42 + version_length)
              || version_length == 0
              || ltb 31 version_length)
            (λ e. c)
            (λ e.
              if-cases Post (not (valid_size total)) (λ e. c)
                (λ valid.
                  if-cases Post (ltb (read_u32_le bytes 37) u.current_secure_version) (λ e. c)
                    (λ e.
                      if-cases Post (not present) (λ e. c)
                        (λ e.
                          option-cases Post (back.layout b).1 (λ e. (keeps.layout b clock, c.1))
                            (λ l e.
                              start_session-Confined u (back.layout b).0 (back.now_ms u.backend).1 l
                                total bytes (keeps.layout b clock) c.1 (keeps.runs b l clock e)
                                (ground arith)))))))

  abort_session-Confined :
      (u : UsbUpdater S H) (bytes : List ℕ)
      → Confined running P u
      → Confined running P (abort_session u bytes).1
  unfolding abort_session
  abort_session-Confined u bytes c =
      let Post : StatusCode × UsbUpdater S H → Type 0 = λ r. Confined running P r.1 in
      option-cases Post (parse_session_id bytes) (λ e. c)
        (λ id e.
          option-cases Post u.session (λ e. c)
            (λ s found.
              if-cases Post (s.id == id && not (is_activated s.phase)) (λ e. (c.0, tt))
                (λ e. if-cases Post (not (s.id == id)) (λ e. c) (λ e. c))))

  run_operation-Confined :
      (u : UsbUpdater S H) (o : Operation) (bytes : List ℕ) (present : Bool)
      → Confined running P u
      → Confined running P (run_operation sha back u o bytes present).1
  unfolding run_operation
  run_operation-Confined u info bytes present c = c
  run_operation-Confined u begin bytes present c = begin_session-Confined u bytes present c
  run_operation-Confined u write bytes present c = write_request-Confined u bytes c
  run_operation-Confined u advance bytes present c = advance_request-Confined u bytes c
  run_operation-Confined u status bytes present c = c
  run_operation-Confined u abort bytes present c = abort_session-Confined u bytes c

  handle_inner-Confined :
      (u : UsbUpdater S H) (bytes : List ℕ) (present : Bool)
      → Confined running P u
      → Confined running P (handle_inner sha back u bytes present).1
  unfolding handle_inner
  handle_inner-Confined u [] present c = c
  handle_inner-Confined u (first ∷ bytes) present c =
      option-cases (λ (r : StatusCode × UsbUpdater S H). Confined running P r.1)
        (parse_operation first) (λ e. c) (λ o e. run_operation-Confined u o bytes present c)

  poll-Confined : (u : UsbUpdater S H) → Confined running P u → Confined running P (poll back u)
  unfolding poll
  poll-Confined u c =
      option-cases (Confined running P) u.session (λ e. c)
        (λ s found.
          let k =
            expire-kept back (Held sha back running P keeps s.total)
              (quiet sha back running P keeps s.total) (back.now_ms u.backend).0 s
              (back.now_ms u.backend).1
              (keeps.clock u.backend c.0, session_sized u.session s found c.1, refl) in
          (k.0, k.1))

  step-Confined :
      (u : UsbUpdater S H) (e : Event)
      → Confined running P u
      → Confined running P (step sha back u e)
  unfolding step handle
  step-Confined u tick c = poll-Confined u c
  step-Confined u (request bytes present) c =
      handle_inner-Confined (poll back u) bytes present (poll-Confined u c)

  run-kept :
      (u : UsbUpdater S H) (es : List Event)
      → Confined running P u
      → Confined running P (run sha back u es)
  unfolding run
  run-kept u [] c = c
  run-kept u (e ∷ es) c = run-kept (step sha back u e) es (step-Confined u e c)

  -- Whatever requests reach an updater that `new` made, in any order and at any time, a predicate
  -- on the platform is kept that erasing and writing keep when they stay inside the slot that does
  -- not run, and the other operations keep anyway; a session is then always for that slot, its
  -- image of whole sectors fits the slot, and its progress is within the image.
  pub run-Confined :
      (b : S) (key version : List ℕ) (floor : ℕ) (es : List Event)
      → P b
      → Confined running P (run sha back (new b key version floor) es)
  unfolding new
  run-Confined b key version floor es p = run-kept (new b key version floor) es (p, tt)
