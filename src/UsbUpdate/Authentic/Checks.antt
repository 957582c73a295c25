-- ===== src/UsbUpdate/Authentic/Checks.antt =====
-- `finish_verification` of src/usb_update.rs ends in the phase Activated only for an image that
-- passed every check.
use salpa.Base.{
  ℕ, ◌+◌, ◌-◌, ◌≤◌, ◌≡◌, sym, ap, subst, ◌∙◌, min, true, not, ◌||◌, some, List, slice, take, arith,
  if-cases, option-cases, match-cases, ltb, ltb-false→le, bytes_eq, bytes_eq→eq, ◌==◌,
}
use salpa.SignedImage.Format.{
  Sha256, ImageMetadata, ParsedSignature, parse_image_metadata, parse_signature_block,
}
use salpa.UsbUpdate.Protocol.{
  UpdateBackend, flash, hash_mismatch, signature, rollback, version_mismatch,
}
use salpa.UsbUpdate.Session.{Session}
use salpa.UsbUpdate.Verify.{
  check_layout, check_signed, check_block, check_metadata, finish_verification,
}
use salpa.UsbUpdate.Updater.{is_activated}
use salpa.UsbUpdate.Kept.{Quiet, After}
use salpa.UsbUpdate.Kept.Verify.{check_layout-kept}
use salpa.UsbUpdate.Authentic.{Flash, Approved, HashedAt}

module _ {S H : Type 0} (sha : Sha256 H) (back : UpdateBackend S) (contents : S → ℕ → List ℕ)
    (Genuine : List ℕ → List ℕ → List ℕ → Type 0) (holds : Flash back contents Genuine)
    (key : List ℕ) (floor : ℕ) where
  abbrev pub ApprovedFor : List ℕ → Session H → Type 0
  ApprovedFor image s =
      Approved sha Genuine key floor image s.total s.expected_hash s.expected_secure_version
        s.expected_version

  -- What holds during the verification of `image`.
  abbrev pub Sound : List ℕ → Session H → Type 0
  Sound image s =
      HashedAt sha image s.total s.completed s.full_hasher s.signed_hasher
      × (is_activated s.phase ≡ true → ApprovedFor image s)

  abbrev pub Here : S → Session H → Type 0
  Here b s = Sound (contents b s.target_slot) s

  -- The same of an image that has passed the checks.
  abbrev Passed : S → Session H → Type 0
  Passed b s = Here b s × ApprovedFor (contents b s.target_slot) s

  -- A fact about a slot's bytes is one about those after an operation that leaves the slot alone.
  pub still : (F : List ℕ → Type 0) {now before : List ℕ} → now ≡ before → F before → F now
  still F e f = subst F (sym e) f

  pub quiet : Quiet back Here
  quiet = record {
    clock = λ b s k. still (λ i. Sound i s) (holds.clock b s.target_slot) k;
    layout = λ b s k. still (λ i. Sound i s) (holds.layout b s.target_slot) k;
    read = λ b s slot at n k. still (λ i. Sound i s) (holds.read b s.target_slot slot at n) k;
    verify = λ b s key sig d k. still (λ i. Sound i s) (holds.verify b s.target_slot key sig d) k;
    checked = λ b s t k. k;
    progressed = λ b s t k. k;
    failing = λ b s code k. (k.0, λ e. cc);
  }

  quiet-Passed : Quiet back Passed
  quiet-Passed = record {
    clock = λ b s k.
        (quiet.clock b s k.0, still (λ i. ApprovedFor i s) (holds.clock b s.target_slot) k.1);
    layout = λ b s k.
        (quiet.layout b s k.0, still (λ i. ApprovedFor i s) (holds.layout b s.target_slot) k.1);
    read = λ b s slot at n k. (
      quiet.read b s slot at n k.0,
      still (λ i. ApprovedFor i s) (holds.read b s.target_slot slot at n) k.1,
    );
    verify = λ b s key sig d k. (
      quiet.verify b s key sig d k.0,
      still (λ i. ApprovedFor i s) (holds.verify b s.target_slot key sig d) k.1,
    );
    checked = λ b s t k. k;
    progressed = λ b s t k. k;
    failing = λ b s code k. (quiet.failing b s code k.0, k.1);
  }

  check_layout-Here :
      (b : S) (s : Session H)
      → Here b s
      → ApprovedFor (contents b s.target_slot) s
      → After back Here (check_layout sha back b s)
  check_layout-Here b s k approved =
      (check_layout-kept sha back Passed quiet-Passed
        (λ b s k.
          let kept =
            holds.activate b s.target_slot s.target_slot s.target_sequence s.activation_entry in
          (still (λ i. Sound i s) kept k.0, still (λ i. ApprovedFor i s) kept k.1))
        (λ b s k. ((k.0.0, λ e. k.1), k.1)) b s (k, approved)).0

  check_signed-Here :
      (b : S) (s : Session H) (p : ParsedSignature) (d : List ℕ)
      → Here b s
      → (p.image_digest ≡ d
          → Genuine p.public_key p.signature d
          → ApprovedFor (contents b s.target_slot) s)
      → After back Here (check_signed sha back b s p d)
  unfolding check_signed
  check_signed-Here b s p d k approve =
      let read = quiet.verify b s p.public_key p.signature d k in
      if-cases (After back Here) (not (bytes_eq p.image_digest d))
        (λ e. quiet.failing b s signature k)
        (λ same.
          option-cases (After back Here) (back.reader.verify_rsa_pss b p.public_key p.signature d).1
            (λ e. quiet.failing _ s flash read)
            (λ v e.
              match-cases (After back Here) v
                (λ t. check_layout-Here _ s read (
                  still (λ i. ApprovedFor i s)
                    (holds.verify b s.target_slot p.public_key p.signature d)
                    (approve (bytes_eq→eq _ _ (ground arith))
                      (holds.verifies b p.public_key p.signature d (e ∙ ap some t)))))
                (λ e. quiet.failing _ s signature read)))

  check_block-Here :
      (b : S) (s : Session H)
      → Here b s
      → ((p : ParsedSignature)
          → parse_signature_block sha
              (slice (contents b s.target_slot) (s.total - 4096) (s.total - 4096 + 1216))
              key
            ≡ some p
          → p.image_digest ≡ sha.finalize s.signed_hasher
          → Genuine p.public_key p.signature (sha.finalize s.signed_hasher)
          → ApprovedFor (contents b s.target_slot) s)
      → After back Here (check_block sha back key b s)
  unfolding check_block
  check_block-Here b s k approve =
      let read = quiet.read b s s.target_slot (s.total - 4096) 1216 k in
      option-cases (After back Here) (back.reader.read b s.target_slot (s.total - 4096) 1216).1
        (λ e. quiet.failing _ s flash read)
        (λ block found.
          option-cases (After back Here) (parse_signature_block sha block key)
            (λ e. quiet.failing _ s signature read)
            (λ p parsed.
              check_signed-Here _ s p (sha.finalize s.signed_hasher) read (λ same genuine.
                still (λ i. ApprovedFor i s)
                  (holds.read b s.target_slot s.target_slot (s.total - 4096) 1216)
                  (approve p
                    (ap (λ i. parse_signature_block sha i key)
                        (sym (holds.reads b s.target_slot (s.total - 4096) 1216 block found))
                      ∙ parsed)
                    same genuine))))

  check_metadata-Here :
      (b : S) (s : Session H) (m : ImageMetadata)
      → Here b s
      → (floor ≤ m.secure_version
          → m.secure_version ≡ s.expected_secure_version
          → m.version ≡ s.expected_version
          → (p : ParsedSignature)
          → parse_signature_block sha
              (slice (contents b s.target_slot) (s.total - 4096) (s.total - 4096 + 1216))
              key
            ≡ some p
          → p.image_digest ≡ sha.finalize s.signed_hasher
          → Genuine p.public_key p.signature (sha.finalize s.signed_hasher)
          → ApprovedFor (contents b s.target_slot) s)
      → After back Here (check_metadata sha back key floor b s m)
  unfolding check_metadata
  check_metadata-Here b s m k approve =
      if-cases (After back Here) (ltb m.secure_version floor) (λ e. quiet.failing _ s rollback k)
        (λ above.
          if-cases (After back Here)
            (not (m.secure_version == s.expected_secure_version)
              || not (bytes_eq m.version s.expected_version))
            (λ e. quiet.failing _ s version_mismatch k)
            (λ claimed.
              check_block-Here b s k
                (approve (ltb-false→le _ _ above) (ground arith) (bytes_eq→eq _ _ (ground arith)))))

  -- The evidence that the checks leave, put together.
  approved :
      (image : List ℕ) (s : Session H) (bytes : List ℕ) (m : ImageMetadata) (p : ParsedSignature)
      → s.completed ≡ s.total
      → HashedAt sha image s.total s.completed s.full_hasher s.signed_hasher
      → bytes_eq (sha.finalize s.full_hasher) s.expected_hash ≡ true
      → bytes ≡ slice image 0 80
      → parse_image_metadata bytes ≡ some m
      → floor ≤ m.secure_version
      → m.secure_version ≡ s.expected_secure_version
      → m.version ≡ s.expected_version
      → parse_signature_block sha (slice image (s.total - 4096) (s.total - 4096 + 1216)) key
        ≡ some p
      → p.image_digest ≡ sha.finalize s.signed_hasher
      → Genuine p.public_key p.signature (sha.finalize s.signed_hasher)
      → ApprovedFor image s
  approved image s bytes m p all hashed same at_start described above announced named parsed covered
        genuine =
      record {
        hash_matches =
            ap (λ k. sha.finalize (sha.update sha.initial (take k image))) (sym all)
            ∙ ap sha.finalize (sym hashed.whole)
            ∙ bytes_eq→eq _ _ same;
        metadata = m;
        described = ap parse_image_metadata (sym at_start) ∙ described;
        not_below = above;
        announced = announced;
        named = named;
        block = p;
        signed = parsed;
        covers =
            covered
            ∙ ap sha.finalize hashed.body
            ∙ ap (λ k. sha.finalize (sha.update sha.initial (take k image)))
                (let fewer : min s.completed (s.total - 4096) ≡ s.total - 4096 =
                    omega (arith, all) in
                  fewer);
        genuine = subst (Genuine p.public_key p.signature) (sym covered) genuine;
      }

  pub finish_verification-Here :
      (b : S) (s : Session H)
      → s.completed ≡ s.total
      → Here b s
      → After back Here (finish_verification sha back key floor b s)
  unfolding finish_verification
  finish_verification-Here b s all k =
      let kept = holds.read b s.target_slot s.target_slot 0 80 in
      let read = quiet.read b s s.target_slot 0 80 k in
      if-cases (After back Here) (not (bytes_eq (sha.finalize s.full_hasher) s.expected_hash))
        (λ e. quiet.failing b s hash_mismatch k)
        (λ same.
          option-cases (After back Here) (back.reader.read b s.target_slot 0 80).1
            (λ e. quiet.failing _ s flash read)
            (λ bytes found.
              option-cases (After back Here) (parse_image_metadata bytes)
                (λ e. quiet.failing _ s signature read)
                (λ m described.
                  check_metadata-Here _ s m read (λ above announced named p parsed covered genuine.
                    still (λ i. ApprovedFor i s) kept
                      (approved (contents b s.target_slot) s bytes m p all k.0 (ground arith)
                        (holds.reads b s.target_slot 0 80 bytes found) described above announced
                        named
                        (ap
                            (λ i.
                              parse_signature_block sha
                                (slice i (s.total - 4096) (s.total - 4096 + 1216)) key)
                            (sym kept)
                          ∙ parsed)
                        covered genuine)))))
