-- ===== src/VendorCommands/Absent.antt =====
-- The requests of src/usb_update.rs without the user: none of them begins a session.
use salpa.Base.{
  ℕ, ◌+◌, ◌≡◌, refl, false, not, ◌&&◌, ◌||◌, none, some, List, [], ◌∷◌, ◌==◌, ltb, length, byte,
  read_u32_le, if-cases, option-cases, ◌∙◌,
}
use salpa.SignedImage.Format.{Sha256, max_version_length}
use salpa.UsbUpdate.Protocol.{
  UpdateBackend, StatusCode, Operation, info, begin, write, advance, status, abort,
  protocol_version, max_write_chunk, parse_operation, parse_session_id,
}
use salpa.UsbUpdate.Session.{UsbUpdater, Session, poll}
use salpa.UsbUpdate.Updater.{
  handle, handle_inner, run_operation, begin_session, valid_size, write_request, advance_request,
  abort_session, is_activated,
}

module _ {S H : Type 0} (sha : Sha256 H) (back : UpdateBackend S) where
  -- No session has begun: the next one's number is as it was, and none appears where there was none.
  pub record NoneBegun (u v : UsbUpdater S H) : Type 0 where
    pub number : v.next_session_id ≡ u.next_session_id
    pub empty : u.session ≡ none → v.session ≡ none

  abbrev Post : UsbUpdater S H → StatusCode × UsbUpdater S H → Type 0
  Post u r = NoneBegun u r.1

  pub untouched : (u : UsbUpdater S H) → NoneBegun u u
  untouched u = record { number = refl; empty = λ e. e }

  begin-NoneBegun :
      (u : UsbUpdater S H) (request : List ℕ)
      → NoneBegun u (begin_session sha back u request false).1
  unfolding begin_session
  begin-NoneBegun u request =
      let version_length = byte request 41 in
      if-cases (Post u) (ltb (length request) 42 || not (byte request 0 == protocol_version))
        (λ _. untouched u)
        (λ _.
          if-cases (Post u)
            (not (length request == 42 + version_length)
              || version_length == 0
              || ltb max_version_length version_length)
            (λ _. untouched u)
            (λ _.
              if-cases (Post u) (not (valid_size (read_u32_le request 1))) (λ _. untouched u)
                (λ _.
                  if-cases (Post u) (ltb (read_u32_le request 37) u.current_secure_version)
                    (λ _. untouched u) (λ _. untouched u))))

  -- A step on the session of the updater.
  found :
      (u : UsbUpdater S H) (s : Session H) {b : S} {t : Session H}
      → u.session ≡ some s
      → NoneBegun u (record u { backend = b; session = some t })
  found u s e = record { number = refl; empty = λ n. cc }

  write-NoneBegun :
      (u : UsbUpdater S H) (request : List ℕ) → NoneBegun u (write_request sha back u request).1
  unfolding write_request
  write-NoneBegun u request =
      if-cases (Post u) (ltb (length request) 9 || ltb (9 + max_write_chunk) (length request))
        (λ _. untouched u)
        (λ _.
          option-cases (Post u) u.session (λ _. untouched u)
            (λ s e.
              if-cases (Post u) (not (s.id == read_u32_le request 0)) (λ _. untouched u)
                (λ _. found u s e)))

  advance-NoneBegun :
      (u : UsbUpdater S H) (request : List ℕ) → NoneBegun u (advance_request sha back u request).1
  unfolding advance_request
  advance-NoneBegun u request =
      option-cases (Post u) (parse_session_id request) (λ _. untouched u)
        (λ id _.
          option-cases (Post u) u.session (λ _. untouched u)
            (λ s e. if-cases (Post u) (not (s.id == id)) (λ _. untouched u) (λ _. found u s e)))

  abort-NoneBegun :
      (u : UsbUpdater S H) (request : List ℕ) → NoneBegun u (abort_session u request).1
  unfolding abort_session
  abort-NoneBegun u request =
      option-cases (Post u) (parse_session_id request) (λ _. untouched u)
        (λ id _.
          option-cases (Post u) u.session (λ _. untouched u)
            (λ s e.
              if-cases (Post u) ((s.id == id) && not (is_activated s.phase))
                (λ _. record { number = refl; empty = λ n. refl })
                (λ _. if-cases (Post u) (not (s.id == id)) (λ _. untouched u) (λ _. untouched u))))

  run-NoneBegun :
      (u : UsbUpdater S H) (o : Operation) (request : List ℕ)
      → NoneBegun u (run_operation sha back u o request false).1
  unfolding run_operation
  run-NoneBegun u info request = untouched u
  run-NoneBegun u begin request = begin-NoneBegun u request
  run-NoneBegun u write request = write-NoneBegun u request
  run-NoneBegun u advance request = advance-NoneBegun u request
  run-NoneBegun u status request = untouched u
  run-NoneBegun u abort request = abort-NoneBegun u request

  inner-NoneBegun :
      (u : UsbUpdater S H) (request : List ℕ)
      → NoneBegun u (handle_inner sha back u request false).1
  unfolding handle_inner
  inner-NoneBegun u [] = untouched u
  inner-NoneBegun u (first ∷ request) =
      option-cases (Post u) (parse_operation first) (λ _. untouched u)
        (λ o _. run-NoneBegun u o request)

  poll-NoneBegun : (u : UsbUpdater S H) → NoneBegun u (poll back u)
  unfolding poll
  poll-NoneBegun u = option-cases (NoneBegun u) u.session (λ _. untouched u) (λ s e. found u s e)

  pub handle-NoneBegun :
      (u : UsbUpdater S H) (request : List ℕ) → NoneBegun u (handle sha back u request false).1
  unfolding handle
  handle-NoneBegun u request =
      let p = poll-NoneBegun u in
      let i = inner-NoneBegun (poll back u) request in
      record { number = i.number ∙ p.number; empty = λ e. i.empty (p.empty e) }
