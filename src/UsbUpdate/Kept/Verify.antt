-- ===== src/UsbUpdate/Kept/Verify.antt =====
-- The same for the verification, step by step of src/usb_update.rs.
use salpa.Base.{ℕ, List, not, if-cases, option-cases, bytes_eq, ltb, match-cases, ◌==◌, ◌||◌, ◌-◌}
use salpa.SignedImage.Format.{
  Sha256, ImageMetadata, ParsedSignature, parse_image_metadata, parse_signature_block,
}
use salpa.UsbUpdate.Protocol.{
  UpdateBackend, flash, hash_mismatch, signature, rollback, version_mismatch, active_slot_changed,
  activated, success,
}
use salpa.UsbUpdate.Session.{Session}
use salpa.UsbUpdate.Verify.{
  same_layout, activate_target, check_layout, check_signed, check_block, check_metadata,
  finish_verification,
}
use salpa.UsbUpdate.Kept.{After, Quiet, while_live-kept}

module _ {S H : Type 0} (sha : Sha256 H) (back : UpdateBackend S) (K : S → Session H → Type 0)
    (q : Quiet back K)
    (activating : (b : S) (s : Session H)
      → K b s
      → K (back.activate b s.target_slot s.target_sequence s.activation_entry).0 s)
    (activation : (b : S) (s : Session H)
      → K b s
      → K b (record s { phase = activated; failure = success })) where
  activate_target-kept :
      (b : S) (s : Session H) → K b s → After back K (activate_target sha back b s)
  unfolding activate_target
  activate_target-kept b s k =
      let done = activating b s k in
      if-cases (After back K)
        (not (back.activate b s.target_slot s.target_sequence s.activation_entry).1)
        (λ e. q.failing _ s flash done) (λ e. activation _ s done)

  pub check_layout-kept : (b : S) (s : Session H) → K b s → After back K (check_layout sha back b s)
  unfolding check_layout
  check_layout-kept b s k =
      let read = q.layout b s k in
      option-cases (After back K) (back.layout b).1 (λ e. q.failing _ s flash read)
        (λ l e.
          if-cases (After back K) (not (same_layout l s))
            (λ e. q.failing _ s active_slot_changed read)
            (λ e.
              while_live-kept back K q _ s (activate_target sha back) read activate_target-kept))

  check_signed-kept :
      (b : S) (s : Session H) (p : ParsedSignature) (d : List ℕ)
      → K b s
      → After back K (check_signed sha back b s p d)
  unfolding check_signed
  check_signed-kept b s p d k =
      let read = q.verify b s p.public_key p.signature d k in
      if-cases (After back K) (not (bytes_eq p.image_digest d)) (λ e. q.failing b s signature k)
        (λ e.
          option-cases (After back K) (back.reader.verify_rsa_pss b p.public_key p.signature d).1
            (λ e. q.failing _ s flash read)
            (λ v e.
              match-cases (After back K) v (λ e. check_layout-kept _ s read)
                (λ e. q.failing _ s signature read)))

  check_block-kept :
      (trusted_key_digest : List ℕ) (b : S) (s : Session H)
      → K b s
      → After back K (check_block sha back trusted_key_digest b s)
  unfolding check_block
  check_block-kept trusted b s k =
      let read = q.read b s s.target_slot (s.total - 4096) 1216 k in
      option-cases (After back K) (back.reader.read b s.target_slot (s.total - 4096) 1216).1
        (λ e. q.failing _ s flash read)
        (λ block e.
          option-cases (After back K) (parse_signature_block sha block trusted)
            (λ e. q.failing _ s signature read)
            (λ p e. check_signed-kept _ s p (sha.finalize s.signed_hasher) read))

  check_metadata-kept :
      (trusted_key_digest : List ℕ) (floor : ℕ) (b : S) (s : Session H) (m : ImageMetadata)
      → K b s
      → After back K (check_metadata sha back trusted_key_digest floor b s m)
  unfolding check_metadata
  check_metadata-kept trusted floor b s m k =
      if-cases (After back K) (ltb m.secure_version floor) (λ e. q.failing b s rollback k)
        (λ e.
          if-cases (After back K)
            (not (m.secure_version == s.expected_secure_version)
              || not (bytes_eq m.version s.expected_version))
            (λ e. q.failing b s version_mismatch k) (λ e. check_block-kept trusted b s k))

  pub finish_verification-kept :
      (trusted_key_digest : List ℕ) (floor : ℕ) (b : S) (s : Session H)
      → K b s
      → After back K (finish_verification sha back trusted_key_digest floor b s)
  unfolding finish_verification
  finish_verification-kept trusted floor b s k =
      let read = q.read b s s.target_slot 0 80 k in
      if-cases (After back K) (not (bytes_eq (sha.finalize s.full_hasher) s.expected_hash))
        (λ e. q.failing b s hash_mismatch k)
        (λ e.
          option-cases (After back K) (back.reader.read b s.target_slot 0 80).1
            (λ e. q.failing _ s flash read)
            (λ d e.
              option-cases (After back K) (parse_image_metadata d)
                (λ e. q.failing _ s signature read)
                (λ m e. check_metadata-kept trusted floor _ s m read)))
