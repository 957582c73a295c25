-- ===== src/UsbUpdate/Verify.antt =====
-- `verify_step` and `finish_verification` of src/usb_update.rs. `verify_step` hashes a piece of
-- the image that it reads back; after the last piece `finish_verification` runs the checks in the
-- order of the code, one definition from each early return to the next.
use salpa.Base.{
  ℕ, zero, suc, ◌+◌, ◌-◌, min, Bool, true, false, not, ◌&&◌, ◌||◌, none, some, List, ltb, ◌==◌,
  bytes_eq, if◌then◌else◌, take,
}
use salpa.SignedImage.Format.{
  Sha256, ImageMetadata, ParsedSignature, parse_image_metadata, parse_signature_block,
  signature_sector_size, signature_block_size, app_descriptor_prefix_size,
}
use salpa.UsbUpdate.Protocol.{
  StatusCode, success, flash, hash_mismatch, signature, rollback, version_mismatch,
  active_slot_changed, activated, UpdateLayout, UpdateBackend, verify_step_size,
}
use salpa.UsbUpdate.Session.{Session, Outcome, fail, while_live, progress}

-- `return fail(session, code)`
abbrev pub failing : {S H : Type 0} → S → Session H → StatusCode → Outcome S H
failing b session code = record { answer = code; backend = b; session = fail session code }

abbrev pub same_layout : {H : Type 0} → UpdateLayout → Session H → Bool
same_layout layout session =
    layout.active_slot == session.active_slot
    && layout.active_sequence == session.active_sequence
    && layout.activation_entry == session.activation_entry

module _ {S H : Type 0} (sha : Sha256 H) (back : UpdateBackend S) where
  unfoldable pub activate_target : S → Session H → Outcome S H
  activate_target b session =
      let (b, done) =
        back.activate b session.target_slot session.target_sequence session.activation_entry in
      if not done then failing b session flash else record {
        answer = success;
        backend = b;
        session = record session { phase = activated; failure = success };
      }

  unfoldable pub check_layout : S → Session H → Outcome S H
  unfolding while_live activate_target
  check_layout b session =
      let (b, layout) = back.layout b in
      elim layout [
        | none ↦ failing b session flash
        | some layout ↦
            if not (same_layout layout session)
            then failing b session active_slot_changed
            else while_live back b session activate_target
      ]

  unfoldable pub check_signed : S → Session H → ParsedSignature → List ℕ → Outcome S H
  unfolding check_layout
  check_signed b session parsed signed_digest =
      if not (bytes_eq parsed.image_digest signed_digest)
      then failing b session signature
      else let (b, verified) =
          back.reader.verify_rsa_pss b parsed.public_key parsed.signature signed_digest in
        elim verified [
          | none ↦ failing b session flash
          | some false ↦ failing b session signature
          | some true ↦ check_layout b session
        ]

  unfoldable pub check_block : List ℕ → S → Session H → Outcome S H
  unfolding check_signed
  check_block trusted_key_digest b session =
      let signed_digest = sha.finalize session.signed_hasher in
      let (b, block) =
        back.reader.read b session.target_slot (session.total - signature_sector_size)
          signature_block_size in
      elim block [
        | none ↦ failing b session flash
        | some block ↦ elim (parse_signature_block sha block trusted_key_digest) [
          | none ↦ failing b session signature
          | some parsed ↦ check_signed b session parsed signed_digest
        ]
      ]

  -- `floor` is `current_secure_version`.
  unfoldable pub check_metadata : List ℕ → ℕ → S → Session H → ImageMetadata → Outcome S H
  unfolding check_block
  check_metadata trusted_key_digest floor b session metadata =
      if ltb metadata.secure_version floor
      then failing b session rollback
      else if not (metadata.secure_version == session.expected_secure_version)
          || not (bytes_eq metadata.version session.expected_version)
      then failing b session version_mismatch
      else check_block trusted_key_digest b session

  unfoldable pub finish_verification : List ℕ → ℕ → S → Session H → Outcome S H
  unfolding check_metadata
  finish_verification trusted_key_digest floor b session =
      if not (bytes_eq (sha.finalize session.full_hasher) session.expected_hash)
      then failing b session hash_mismatch
      else let (b, descriptor) =
          back.reader.read b session.target_slot 0 app_descriptor_prefix_size in
        elim descriptor [
          | none ↦ failing b session flash
          | some descriptor ↦ elim (parse_image_metadata descriptor) [
            | none ↦ failing b session signature
            | some metadata ↦ check_metadata trusted_key_digest floor b session metadata
          ]
        ]

  -- What follows the second `expire` of `verify_step`.
  unfoldable pub conclude_step : List ℕ → ℕ → S → Session H → Outcome S H
  unfolding progress finish_verification
  conclude_step trusted_key_digest floor b session =
      if not (session.completed == session.total)
      then progress back b session
      else finish_verification trusted_key_digest floor b session

  -- What follows the loop of `verify_step`.
  unfoldable pub end_step : List ℕ → ℕ → S → Session H → Outcome S H
  unfolding while_live conclude_step
  end_step trusted_key_digest floor b session =
      while_live back b session (conclude_step trusted_key_digest floor)

  -- The session after a chunk that was read.
  unfoldable pub hash_chunk : Session H → List ℕ → ℕ → Session H
  hash_chunk session chunk count =
      let signed_length = session.total - signature_sector_size in
      record session {
        full_hasher = sha.update session.full_hasher chunk;
        signed_hasher =
            if ltb session.completed signed_length
            then sha.update session.signed_hasher
                (take (min (signed_length - session.completed) count) chunk)
            else session.signed_hasher;
        completed = session.completed + count;
      }

  -- The body of the loop from the read on; `continue` is the rest of the loop.
  unfoldable pub read_chunk : ℕ → (S → Session H → Outcome S H) → S → Session H → Outcome S H
  unfolding hash_chunk
  read_chunk step_end continue b session =
      let count = min (step_end - session.completed) 1024 in
      let (b, chunk) = back.reader.read b session.target_slot session.completed count in
      elim chunk [
        | none ↦ failing b session flash
        | some chunk ↦ continue b (hash_chunk session chunk count)
      ]

  -- The loop up to `step_end`, with fuel; a turn hashes a byte at least.
  unfoldable pub hash_chunks : ℕ → List ℕ → ℕ → ℕ → S → Session H → Outcome S H
  unfolding while_live read_chunk end_step
  hash_chunks zero trusted_key_digest floor step_end b session =
      end_step trusted_key_digest floor b session
  hash_chunks (suc fuel) trusted_key_digest floor step_end b session =
      elim (ltb session.completed step_end) [
        | false ↦ end_step trusted_key_digest floor b session
        | true ↦
            while_live back b session
              (read_chunk step_end (hash_chunks fuel trusted_key_digest floor step_end))
      ]

  unfoldable pub verify_step : List ℕ → ℕ → S → Session H → Outcome S H
  unfolding hash_chunks
  verify_step trusted_key_digest floor b session =
      let step_end = min (session.completed + verify_step_size) session.total in
      hash_chunks (step_end - session.completed) trusted_key_digest floor step_end b session
