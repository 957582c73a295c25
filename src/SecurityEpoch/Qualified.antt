-- ===== src/SecurityEpoch/Qualified.antt =====
-- What it means that `qualify` of src/platform/security_epoch_maintenance.rs succeeds.
use salpa.Base.{
  ℕ, ◌≤◌, ◌≡◌, Bool, not, ◌||◌, some, List, ◌==◌, if◌then◌else◌, bytes_eq, bytes_eq→eq, length,
  if-cases, option-cases, not-false, ap, subst, sym, ◌∙◌, arith, replicate,
}
use salpa.SignedImage.Format.{Sha256}
use salpa.SignedImage.Installed.{ImageReader, VerifiedInstalledImage, verify_installed_slot}
use salpa.SignedImage.Installed as Installed
use salpa.Ota.Records.{QualifiedLayout}
use salpa.Ota.Flash.{FlashDriver}
use salpa.UserPresence.Hardware.{Board}
use salpa.SecurityEpoch.Policy.{SlotEvidence, PreparedChange, prepare}
use salpa.SecurityEpoch.Transaction.{Snapshot, FuseBackend}
use salpa.SecurityEpoch.Counter.{Raises, Ready, prepare-Raises, prepare-expected}
use salpa.SecurityEpoch.Plan.{Images, MaintenancePlan, decode}
use salpa.SecurityEpoch.Steps.{step-cases, ok-injective, verdict-cases, plan-cases}
use salpa.SecurityEpoch.Qualify.{
  Chip, Step, ok, Qualified, qualify, evidence, approved_plan, observed, match_plan, requalify,
  same_layout, same_snapshot, verified_slot, layout_of, bootloader_ciphertext_digest,
}
use salpa.SecurityEpoch.Decoded.{picked, decode-Sane}

module _ {S H : Type 0} (sha : Sha256 H) (flash : FlashDriver S) (encrypted : Bool)
    (reader : ImageReader S) (fuses : FuseBackend S) (board : Board S) (chip : Chip S) where
  -- A slot whose image was verified, with the digest that was asked for, and that boots after the
  -- counter reaches the target.
  pub record Holds (slot : ℕ) (signed_content_digest : List ℕ) (target : ℕ) : Type 0 where
    pub at : S
    pub image : VerifiedInstalledImage
    pub verified :
        (verify_installed_slot sha reader slot at chip.trusted_root).1 ≡ Installed.ok image
    pub asked : image.signed_content_digest ≡ signed_content_digest
    pub boots : target ≤ image.secure_version

  pub record Fits (images : Images) (q : Qualified) : Type 0 where
    pub scope : MaintenancePlan
    pub decoded : decode chip.scope ≡ some scope
    pub least : 1 ≤ scope.target_epoch
    pub most : scope.target_epoch ≤ 16
    pub planned : q.change.before ≡ scope.expected_block0
    pub raises : Raises scope.target_epoch q.change.before q.change.after
    pub first : Holds 0 images.first scope.target_epoch
    pub second : Holds 1 images.second scope.target_epoch
    pub fallback :
        (if q.layout.running_slot == 0 then images.second else images.first) ≡ scope.fallback_digest
    pub at : S
    pub seen : (fuses.snapshot at).1.block0 ≡ q.change.before

  holds :
      {slot target : ℕ} {asked : List ℕ} {image : VerifiedInstalledImage} (at : S)
      → (verify_installed_slot sha reader slot at chip.trusted_root).1 ≡ Installed.ok image
      → Ready (evidence image) asked target
      → Holds slot asked target
  unfolding evidence
  holds at verified ready = record {
    at = at;
    image = _;
    verified = verified;
    asked = ready.same_image;
    boots = ready.enough;
  }

  module _ (images : Images) (q : Qualified) where
    abbrev Post : S × Step Qualified → Type 0
    Post r = r.1 ≡ ok q → Fits images q

    requalify-ok :
        (s : S) (descriptor : ℕ) (before : Snapshot) (layout : QualifiedLayout) (c : PreparedChange)
        → (requalify sha flash encrypted reader fuses board chip s descriptor before layout c).1
          ≡ ok q
        → (q.change ≡ c)
          × (q.layout ≡ layout)
          × ((at : S) × ((fuses.snapshot at).1.block0 ≡ before.block0))
    unfolding requalify same_snapshot
    requalify-ok s descriptor before layout c =
        let P : S × Step Qualified → Type 0 = λ r.
          r.1 ≡ ok q
          → (q.change ≡ c)
            × (q.layout ≡ layout)
            × ((at : S) × ((fuses.snapshot at).1.block0 ≡ before.block0)) in
        let l = layout_of sha flash encrypted reader fuses board chip s descriptor in
        step-cases P l.1 (λ e _ f. cc)
          (λ again _.
            if-cases P (not (same_layout again layout)) (λ _ f. cc)
              (λ _.
                if-cases P (not (same_snapshot (fuses.snapshot l.0).1 before)) (λ _ f. cc)
                  (λ same f.
                    let made = ok-injective _ _ f in
                    (
                      ap (λ (x : Qualified). x.change) (sym made),
                      ap (λ (x : Qualified). x.layout) (sym made),
                      (l.0, bytes_eq→eq _ _ (ground arith)),
                    ))))

    match_plan-Fits :
        (s : S) (descriptor : ℕ) (scope : MaintenancePlan) (before : Snapshot)
        (layout : QualifiedLayout) (first second : VerifiedInstalledImage) (at0 at1 : S)
        → decode chip.scope ≡ some scope
        → (verify_installed_slot sha reader 0 at0 chip.trusted_root).1 ≡ Installed.ok first
        → (verify_installed_slot sha reader 1 at1 chip.trusted_root).1 ≡ Installed.ok second
        → Post (
            match_plan sha flash encrypted reader fuses board chip s descriptor
              (some images)
              scope
              before
              layout
              (evidence first)
              (evidence second))
    unfolding match_plan approved_plan observed evidence
    match_plan-Fits s descriptor scope before layout first second at0 at1 decoded verified0
          verified1 =
        let plan = approved_plan scope (some images) (evidence first) (evidence second) in
        let sane = decode-Sane chip.scope scope decoded in
        if-cases Post
          (not (
            bytes_eq
              (if layout.running_slot == 0
                then evidence second
                else evidence first).signed_content_digest
              scope.fallback_digest))
          (λ _ e. cc)
          (λ fallback.
            let h = bootloader_ciphertext_digest sha flash encrypted reader fuses board chip s in
            step-cases Post h.1 (λ x _ e. cc)
              (λ bootloader _.
                let seen =
                  observed sha flash encrypted reader fuses board chip bootloader before layout
                    (evidence first) (evidence second) in
                plan-cases Post (prepare plan seen) (λ x _ e. cc)
                  (λ c grants e.
                    let ends = requalify-ok h.0 descriptor before layout c e in
                    let same = prepare-expected plan seen c grants in
                    let raised =
                      prepare-Raises plan seen c (ap length (sym same) ∙ sane.six) grants in
                    record {
                      scope = scope;
                      decoded = decoded;
                      least = sane.least;
                      most = sane.most;
                      planned = ap (λ (x : PreparedChange). x.before) ends.0 ∙ raised.0;
                      raises =
                          subst (λ (x : PreparedChange). Raises scope.target_epoch x.before x.after)
                            (sym ends.0) raised.3;
                      first = holds at0 verified0 raised.4;
                      second = holds at1 verified1 raised.5;
                      fallback =
                          subst
                            (λ (l : QualifiedLayout).
                              (if l.running_slot == 0 then images.second else images.first)
                              ≡ scope.fallback_digest)
                            (sym ends.1)
                            (picked (layout.running_slot == 0) (evidence second) (evidence first)
                              raised.5.same_image raised.4.same_image
                              (bytes_eq→eq _ _ (not-false _ fallback)));
                      at = ends.2.0;
                      seen =
                          ends.2.1
                          ∙ sym raised.1
                          ∙ sym raised.0
                          ∙ sym (ap (λ (x : PreparedChange). x.before) ends.0);
                    })))

    -- The slots' evidence comes from their verification.
    verified_slot-ok :
        (s : S) (slot : ℕ) (e : SlotEvidence)
        → (verified_slot sha flash encrypted reader fuses board chip s slot).1 ≡ ok e
        → (image : VerifiedInstalledImage) × ((verify_installed_slot sha reader slot s
              chip.trusted_root).1
            ≡ Installed.ok image)
          × (evidence image ≡ e)
    unfolding verified_slot
    verified_slot-ok s slot e =
        let P : S × Step SlotEvidence → Type 0 = λ r.
          r.1 ≡ ok e
          → (image : VerifiedInstalledImage) × ((verify_installed_slot sha reader slot s
                chip.trusted_root).1
              ≡ Installed.ok image)
            × (evidence image ≡ e) in
        verdict-cases P (verify_installed_slot sha reader slot s chip.trusted_root).1 (λ x _ f. cc)
          (λ image found f. (image, found, ok-injective _ _ f))

    -- When the device qualifies for a request, the embedded plan decodes, with a target from 1 to 16;
    -- the change is one of the planned BLOCK0, which was read from the fuses, and raises the counter
    -- to exactly the target without changing any other bit; both slots were verified with the
    -- trusted key and hold the images that the request names, with secure versions that still boot;
    -- and the slot that does not run holds the plan's fallback image.
    pub qualify-Fits :
        (s : S) (descriptor : ℕ)
        → (qualify sha flash encrypted reader fuses board chip s descriptor (some images)).1 ≡ ok q
        → Fits images q
    unfolding qualify
    qualify-Fits s descriptor =
        option-cases Post (decode chip.scope) (λ _ e. cc)
          (λ scope decoded.
            if-cases Post
              (not (chip.major_chip_version == scope.revision_major)
                || not (chip.minor_chip_version == scope.revision_minor))
              (λ _ e. cc)
              (λ _.
                let (s, before) = fuses.snapshot s in
                if-cases Post (not (bytes_eq before.repeat_errors (replicate 5 0))) (λ _ e. cc)
                  (λ _.
                    let l = layout_of sha flash encrypted reader fuses board chip s descriptor in
                    step-cases Post l.1 (λ x _ e. cc)
                      (λ layout _.
                        let v0 = verified_slot sha flash encrypted reader fuses board chip l.0 0 in
                        step-cases Post v0.1 (λ x _ e. cc)
                          (λ first found0.
                            let v1 =
                              verified_slot sha flash encrypted reader fuses board chip v0.0 1 in
                            step-cases Post v1.1 (λ x _ e. cc)
                              (λ second found1.
                                let (i0, ok0, same0) = verified_slot-ok l.0 0 first found0 in
                                let (i1, ok1, same1) = verified_slot-ok v0.0 1 second found1 in
                                subst
                                  (λ (a : SlotEvidence). Post (
                                    match_plan sha flash encrypted reader fuses board chip v1.0
                                      descriptor (some images) scope before layout a second))
                                  same0
                                  (subst
                                    (λ (a : SlotEvidence). Post (
                                      match_plan sha flash encrypted reader fuses board chip v1.0
                                        descriptor (some images) scope before layout (evidence i0)
                                        a))
                                    same1
                                    (match_plan-Fits v1.0 descriptor scope before layout i0 i1 l.0
                                      v0.0 decoded ok0 ok1))))))))
