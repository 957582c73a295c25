-- ===== src/UsbUpdate/Updater.antt =====
-- The requests of src/usb_update.rs: `handle` and what it dispatches to.
use salpa.Base.{
  ℕ, ◌+◌, ◌-◌, ◌%◌, ◌*◌, min, max, Bool, true, false, not, ◌&&◌, ◌||◌, Option, none, some, List, [],
  ◌∷◌, ◌++◌, length, ltb, leb, ◌==◌, if◌then◌else◌, byte, drop, slice, read_u32_le, u32_checked_add,
  u32_mod, u32_le_bytes,
}
use salpa.SignedImage.Format.{Sha256, signature_sector_size, ota_slot_size, max_version_length}
use salpa.UsbUpdate.Protocol.{
  protocol_version, max_write_chunk, erase_step_size, Operation, info, begin, write, advance,
  status, abort, parse_operation, StatusCode, success, user_presence_required, invalid_request,
  invalid_state, session_mismatch, out_of_order, image_size, flash, rollback, status_number, Phase,
  idle, erasing, receiving, verifying, activated, failed, phase_number, UpdateLayout, UpdateBackend,
  parse_session_id, next_sequence,
}
use salpa.UsbUpdate.Session.{Session, UsbUpdater, Outcome, while_live, progress, poll}
use salpa.UsbUpdate.Verify.{failing, verify_step}

abbrev pub conclude : {S H : Type 0} → UsbUpdater S H → Outcome S H → StatusCode × UsbUpdater S H
conclude u o = (o.answer, record u { backend = o.backend; session = some o.session })

-- `image total` is what `begin` takes for the size of an image.
unfoldable pub valid_size : ℕ → Bool
valid_size total =
    leb (signature_sector_size * 2) total
    && leb total ota_slot_size
    && total % signature_sector_size == 0

-- The bytes that describe a session: its phase, slot, id, progress and size.
unfoldable pub encode_session : Phase → ℕ → ℕ → ℕ → ℕ → List ℕ
unfolding phase_number
encode_session phase slot id completed total =
    phase_number phase ∷ slot ∷ u32_le_bytes id ++ u32_le_bytes completed ++ u32_le_bytes total

unfoldable pub encode_response : {S H : Type 0} → UsbUpdater S H → StatusCode → List ℕ
unfolding status_number encode_session
encode_response u code =
    status_number code ∷ protocol_version ∷ (elim u.session [
      | none ↦ encode_session idle 255 0 0 0
      | some session ↦
          encode_session session.phase session.target_slot session.id session.completed
            session.total
    ])
    ++ u32_le_bytes u.current_secure_version
    ++ (length u.current_version ∷ u.current_version)

unfoldable pub status_of : {S H : Type 0} → UsbUpdater S H → List ℕ → StatusCode
unfolding parse_session_id
status_of u request = if length request == 0 then success else elim (parse_session_id request) [
  | none ↦ invalid_request
  | some id ↦ elim u.session [
    | none ↦ invalid_state
    | some session ↦
        if not (session.id == id)
        then session_mismatch
        else elim session.phase [ failed ↦ session.failure | _ ↦ success ]
  ]
]

abbrev pub is_receiving : Phase → Bool
is_receiving receiving = true
is_receiving _ = false

abbrev pub is_activated : Phase → Bool
is_activated activated = true
is_activated _ = false

unfoldable pub abort_session :
    {S H : Type 0} → UsbUpdater S H → List ℕ → StatusCode × UsbUpdater S H
unfolding parse_session_id
abort_session u request = elim (parse_session_id request) [
  | none ↦ (invalid_request, u)
  | some id ↦ elim u.session [
    | none ↦ (invalid_state, u)
    | some session ↦
        if session.id == id && not (is_activated session.phase)
        then (success, record u { session = none })
        else if not (session.id == id)
        then (session_mismatch, u)
        else (invalid_state, u)
  ]
]

-- The early returns of `write` from the check of the phase on.
unfoldable pub write_refusal : {H : Type 0} → Session H → ℕ → List ℕ → Option StatusCode
write_refusal session offset chunk =
    if not (is_receiving session.phase)
    then some invalid_state
    else if length chunk == 0 || not (length chunk % 32 == 0)
    then some invalid_request
    else if not (offset == session.completed)
    then some out_of_order
    else elim (u32_checked_add offset (length chunk)) [
      | none ↦ some image_size
      | some end ↦ if ltb session.total end then some image_size else none
    ]

module _ {S H : Type 0} (sha : Sha256 H) (back : UpdateBackend S) where
  -- The session that `begin` makes.
  unfoldable pub first_session : UsbUpdater S H → ℕ → UpdateLayout → ℕ → ℕ → List ℕ → Session H
  first_session u started_ms layout target_sequence total request = record {
    started_ms = started_ms;
    last_progress_ms = started_ms;
    last_checked_ms = started_ms;
    id = u.next_session_id;
    phase = erasing;
    target_slot = 1 - layout.active_slot;
    active_slot = layout.active_slot;
    active_sequence = layout.active_sequence;
    activation_entry = layout.activation_entry;
    target_sequence = target_sequence;
    total = total;
    expected_hash = slice request 5 37;
    expected_secure_version = read_u32_le request 37;
    expected_version = drop 42 request;
    completed = 0;
    full_hasher = sha.initial;
    signed_hasher = sha.initial;
    failure = success;
  }

  -- `begin` once the layout is read.
  unfoldable pub start_session :
      UsbUpdater S H → S → ℕ → UpdateLayout → ℕ → List ℕ → StatusCode × UsbUpdater S H
  unfolding progress next_sequence first_session
  start_session u b started_ms layout total request =
      if ltb 1 layout.active_slot || ltb 1 layout.activation_entry
      then (invalid_state, record u { backend = b })
      else elim (next_sequence layout.active_sequence (1 - layout.active_slot)) [
        | none ↦ (invalid_state, record u { backend = b })
        | some target_sequence ↦
            conclude (record u { next_session_id = max ((u.next_session_id + 1) % u32_mod) 1 })
              (progress back b (first_session u started_ms layout target_sequence total request))
      ]

  unfoldable pub begin_session : UsbUpdater S H → List ℕ → Bool → StatusCode × UsbUpdater S H
  unfolding start_session valid_size
  begin_session u request user_present =
      let total = read_u32_le request 1 in
      let version_length = byte request 41 in
      if ltb (length request) 42 || not (byte request 0 == protocol_version)
      then (invalid_request, u)
      else if not (length request == 42 + version_length)
          || version_length == 0
          || ltb max_version_length version_length
      then (invalid_request, u)
      else if not (valid_size total)
      then (image_size, u)
      else if ltb (read_u32_le request 37) u.current_secure_version
      then (rollback, u)
      else if not user_present
      then (user_presence_required, u)
      else let (b, started_ms) = back.now_ms u.backend in
        let (b, layout) = back.layout b in
        elim layout [
          | none ↦ (flash, record u { backend = b })
          | some layout ↦ start_session u b started_ms layout total request
        ]

  -- The rest of `write` for a chunk that is not refused.
  unfoldable pub store_chunk : ℕ → List ℕ → S → Session H → Outcome S H
  unfolding progress
  store_chunk offset chunk b session =
      let (b, done) = back.write b session.target_slot offset chunk in
      if not done
      then failing b session flash
      else progress back b (record session { completed = offset + length chunk })

  -- `write` from the check of the phase on.
  unfoldable pub write_chunk : ℕ → List ℕ → S → Session H → Outcome S H
  unfolding write_refusal store_chunk
  write_chunk offset chunk b session = elim (write_refusal session offset chunk) [
    | some code ↦ record { answer = code; backend = b; session = session }
    | none ↦ store_chunk offset chunk b session
  ]

  unfoldable pub write_request : UsbUpdater S H → List ℕ → StatusCode × UsbUpdater S H
  unfolding while_live write_chunk
  write_request u request =
      if ltb (length request) 9 || ltb (9 + max_write_chunk) (length request)
      then (invalid_request, u)
      else elim u.session [
        | none ↦ (invalid_state, u)
        | some session ↦
            if not (session.id == read_u32_le request 0)
            then (session_mismatch, u)
            else conclude u (
                while_live back u.backend session
                  (write_chunk (read_u32_le request 4) (drop 8 request)))
      ]

  unfoldable pub erase_step : S → Session H → Outcome S H
  unfolding progress
  erase_step b session =
      let count = min (session.total - session.completed) erase_step_size in
      let (b, done) = back.erase b session.target_slot session.completed count in
      if not done
      then failing b session flash
      else progress back b (
          let completed = session.completed + count in
          if completed == session.total
          then record session { completed = 0; phase = receiving }
          else record session { completed = completed })

  -- The match of `advance` on the session's phase.
  unfoldable pub advance_phase : Phase → List ℕ → ℕ → S → Session H → Outcome S H
  unfolding erase_step verify_step
  advance_phase erasing trusted_key_digest floor b session = erase_step b session
  advance_phase receiving trusted_key_digest floor b session =
      if not (session.completed == session.total)
      then record { answer = invalid_state; backend = b; session = session }
      else verify_step sha back trusted_key_digest floor b (record session {
        phase = verifying;
        completed = 0;
        full_hasher = sha.initial;
        signed_hasher = sha.initial;
      })
  advance_phase verifying trusted_key_digest floor b session =
      verify_step sha back trusted_key_digest floor b session
  advance_phase activated trusted_key_digest floor b session = record {
    answer = success;
    backend = b;
    session = session;
  }
  advance_phase failed trusted_key_digest floor b session = record {
    answer = session.failure;
    backend = b;
    session = session;
  }
  advance_phase idle trusted_key_digest floor b session = record {
    answer = invalid_state;
    backend = b;
    session = session;
  }

  unfoldable pub advance_session : List ℕ → ℕ → S → Session H → Outcome S H
  unfolding advance_phase
  advance_session trusted_key_digest floor b session =
      advance_phase session.phase trusted_key_digest floor b session

  unfoldable pub advance_request : UsbUpdater S H → List ℕ → StatusCode × UsbUpdater S H
  unfolding parse_session_id while_live advance_session
  advance_request u request = elim (parse_session_id request) [
    | none ↦ (invalid_request, u)
    | some id ↦ elim u.session [
      | none ↦ (invalid_state, u)
      | some session ↦
          if not (session.id == id)
          then (session_mismatch, u)
          else conclude u (
              while_live back u.backend session
                (advance_session u.trusted_key_digest u.current_secure_version))
    ]
  ]

  unfoldable pub run_operation :
      UsbUpdater S H → Operation → List ℕ → Bool → StatusCode × UsbUpdater S H
  unfolding begin_session write_request advance_request status_of abort_session
  run_operation u info request user_present =
      (if length request == 0 then success else invalid_request, u)
  run_operation u begin request user_present = begin_session u request user_present
  run_operation u write request user_present = write_request u request
  run_operation u advance request user_present = advance_request u request
  run_operation u status request user_present = (status_of u request, u)
  run_operation u abort request user_present = abort_session u request

  unfoldable pub handle_inner : UsbUpdater S H → List ℕ → Bool → StatusCode × UsbUpdater S H
  unfolding parse_operation run_operation
  handle_inner u [] user_present = (invalid_request, u)
  handle_inner u (first ∷ request) user_present = elim (parse_operation first) [
    | none ↦ (invalid_request, u)
    | some operation ↦ run_operation u operation request user_present
  ]

  unfoldable pub handle : UsbUpdater S H → List ℕ → Bool → List ℕ × UsbUpdater S H
  unfolding poll handle_inner encode_response
  handle u request user_present =
      let (answer, u) = handle_inner (poll back u) request user_present in
      (encode_response u answer, u)
