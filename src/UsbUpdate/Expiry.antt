-- ===== src/UsbUpdate/Expiry.antt =====
-- What the expiry of a session in src/usb_update.rs takes away.
use salpa.Base.{
  ℕ, ◌+◌, ◌≡◌, refl, sym, subst, Bool, true, false, not, ◌&&◌, ◌||◌, Option, none, some,
  some-injective, List, [], ◌∷◌, arith, if-cases, option-cases, ◌∙◌, ◌≢◌, ltb, length, ◌==◌,
  read_u32_le, byte, drop,
}
use salpa.SignedImage.Format.{Sha256}
use salpa.UsbUpdate.Protocol.{
  StatusCode, UpdateBackend, parse_session_id, parse_operation, Operation, info, begin, write,
  advance, status, abort, session_expired,
}
use salpa.UsbUpdate.Session.{
  Session, UsbUpdater, Outcome, while_live, expire, overdue, poll, is_live, is_expired,
}
use salpa.UsbUpdate.Updater.{
  conclude, is_activated, write_chunk, write_request, advance_session, advance_request,
  abort_session, run_operation, handle_inner, handle,
}
use salpa.UsbUpdate.Confined.Requests.{Event, tick, request, step, run}

-- A session that expired.
abbrev pub Revoked : {H : Type 0} → Session H → Type 0
Revoked s = (is_live s.phase ≡ false) × (is_expired s.failure ≡ true)

abbrev pub NoAuthority : {H : Type 0} → Option (Session H) → Type 0
NoAuthority none = Unit
NoAuthority (some s) = Revoked s

-- Whether an event is a request to begin an update.
abbrev pub begins : Event → Bool
begins tick = false
begins (request bytes _) = byte bytes 0 == 1

abbrev pub NoBegin : List Event → Type 0
NoBegin [] = Unit
NoBegin (e ∷ es) = (begins e ≡ false) × NoBegin es

expire-overdue :
    {H : Type 0} (s : Session H) (now : ℕ)
    → is_live s.phase ≡ true
    → overdue s now ≡ true
    → Revoked (expire s now).1
unfolding expire
expire-overdue s now live late = rw live (rw late (refl, refl))

expire-Revoked : {H : Type 0} (s : Session H) (now : ℕ) → Revoked s → expire s now ≡ (true, s)
unfolding expire
expire-Revoked s now r = rw (r.0, r.1)

module _ {S H : Type 0} (sha : Sha256 H) (back : UpdateBackend S) (P : S → Type 0)
    (clock : (b : S) → P b → P (back.now_ms b).0) where
  abbrev Powerless : UsbUpdater S H → Type 0
  Powerless u = P u.backend × NoAuthority u.session

  no_authority : (o : Option (Session H)) (s : Session H) → o ≡ some s → NoAuthority o → Revoked s
  no_authority none s e k = cc
  no_authority (some t) s e k = subst Revoked (some-injective t s e) k

  while_live-Revoked :
      (b : S) (s : Session H) (f : S → Session H → Outcome S H)
      → Revoked s
      → while_live back b s f
        ≡ (record { answer = session_expired; backend = (back.now_ms b).0; session = s })
  unfolding while_live
  while_live-Revoked b s f r = rw (expire-Revoked s (back.now_ms b).1 r)

  conclude-Powerless :
      (u : UsbUpdater S H) (s : Session H) (f : S → Session H → Outcome S H)
      → u.session ≡ some s
      → Powerless u
      → Powerless (conclude u (while_live back u.backend s f)).1
  conclude-Powerless u s f e k =
      let r = no_authority u.session s e k.1 in
      subst (λ (o : Outcome S H). Powerless (conclude u o).1)
        (sym (while_live-Revoked u.backend s f r)) (clock u.backend k.0, r)

  run_operation-Powerless :
      (u : UsbUpdater S H) (o : Operation) (bytes : List ℕ) (present : Bool)
      → o ≢ begin
      → Powerless u
      → Powerless (run_operation sha back u o bytes present).1
  unfolding run_operation write_request advance_request abort_session
  run_operation-Powerless u info bytes present n k = k
  run_operation-Powerless u begin bytes present n k = absurd (n refl)
  run_operation-Powerless u write bytes present n k =
      let Post : StatusCode × UsbUpdater S H → Type 0 = λ r. Powerless r.1 in
      if-cases Post (ltb (length bytes) 9 || ltb (9 + 992) (length bytes)) (λ e. k)
        (λ e.
          option-cases Post u.session (λ e. k)
            (λ s found.
              if-cases Post (not (s.id == read_u32_le bytes 0)) (λ e. k)
                (λ e.
                  conclude-Powerless u s (write_chunk sha back (read_u32_le bytes 4) (drop 8 bytes))
                    found k)))
  run_operation-Powerless u advance bytes present n k =
      let Post : StatusCode × UsbUpdater S H → Type 0 = λ r. Powerless r.1 in
      option-cases Post (parse_session_id bytes) (λ e. k)
        (λ id e.
          option-cases Post u.session (λ e. k)
            (λ s found.
              if-cases Post (not (s.id == id)) (λ e. k)
                (λ e.
                  conclude-Powerless u s
                    (advance_session sha back u.trusted_key_digest u.current_secure_version) found
                    k)))
  run_operation-Powerless u status bytes present n k = k
  run_operation-Powerless u abort bytes present n k =
      let Post : StatusCode × UsbUpdater S H → Type 0 = λ r. Powerless r.1 in
      option-cases Post (parse_session_id bytes) (λ e. k)
        (λ id e.
          option-cases Post u.session (λ e. k)
            (λ s found.
              if-cases Post (s.id == id && not (is_activated s.phase)) (λ e. (k.0, tt))
                (λ e. if-cases Post (not (s.id == id)) (λ e. k) (λ e. k))))

  parse_operation-begin :
      (first : ℕ) (o : Operation)
      → (first == 1) ≡ false
      → parse_operation first ≡ some o
      → o ≢ begin
  unfolding parse_operation
  parse_operation-begin first o n e h = ground (arith)

  poll-Powerless : (u : UsbUpdater S H) → Powerless u → Powerless (poll back u)
  unfolding poll
  poll-Powerless u k =
      option-cases Powerless u.session (λ e. k)
        (λ s found.
          let r = no_authority u.session s found k.1 in
          (
            clock u.backend k.0,
            subst (λ (x : Bool × Session H). Revoked x.1)
                (sym (expire-Revoked s (back.now_ms u.backend).1 r)) r,
          ))

  poll-overdue :
      (u : UsbUpdater S H) (s : Session H)
      → u.session ≡ some s
      → is_live s.phase ≡ true
      → overdue s (back.now_ms u.backend).1 ≡ true
      → P u.backend
      → Powerless (poll back u)
  unfolding poll
  poll-overdue u s found live late p =
      let now = (back.now_ms u.backend).1 in
      option-cases Powerless u.session (λ e. cc)
        (λ t e.
          let same = some-injective s t (sym found ∙ e) in
          (
            clock u.backend p,
            expire-overdue t now (subst (λ (x : Session H). is_live x.phase ≡ true) same live)
                (subst (λ (x : Session H). overdue x now ≡ true) same late),
          ))

  step-Powerless :
      (u : UsbUpdater S H) (e : Event)
      → begins e ≡ false
      → Powerless u
      → Powerless (step sha back u e)
  unfolding step handle handle_inner
  step-Powerless u tick n k = poll-Powerless u k
  step-Powerless u (request [] present) n k = poll-Powerless u k
  step-Powerless u (request (first ∷ bytes) present) n k =
      option-cases (λ (r : StatusCode × UsbUpdater S H). Powerless r.1) (parse_operation first)
        (λ e. poll-Powerless u k)
        (λ o e.
          run_operation-Powerless (poll back u) o bytes present (parse_operation-begin first o n e)
            (poll-Powerless u k))

  run-Powerless :
      (u : UsbUpdater S H) (es : List Event)
      → NoBegin es
      → Powerless u
      → Powerless (run sha back u es)
  unfolding run
  run-Powerless u [] n k = k
  run-Powerless u (e ∷ es) n k = run-Powerless (step sha back u e) es n.1 (step-Powerless u e n.0 k)

  -- Once the clock says that a live session is overdue, a tick takes its authority: whatever
  -- follows, short of a new request to begin, calls nothing of the platform but the clock (a
  -- predicate that reading the clock keeps is kept), and no session is live.
  pub overdue_ends :
      (u : UsbUpdater S H) (s : Session H) (es : List Event)
      → u.session ≡ some s
      → is_live s.phase ≡ true
      → overdue s (back.now_ms u.backend).1 ≡ true
      → P u.backend
      → NoBegin es
      → let after = run sha back (poll back u) es in P after.backend × NoAuthority after.session
  overdue_ends u s es found live late p n =
      run-Powerless (poll back u) es n (poll-overdue u s found live late p)
