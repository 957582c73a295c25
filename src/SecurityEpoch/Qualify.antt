-- ===== src/SecurityEpoch/Qualify.antt =====
-- `qualify` of src/platform/security_epoch_maintenance.rs. The plan that the build embeds, the chip's
-- constants, flash, the fuses and the board are parameters.
use salpa.Base.{
  ℕ, zero, suc, ◌+◌, Bool, true, not, ◌&&◌, ◌||◌, Option, none, some, List, [], ◌∷◌, ◌==◌,
  if◌then◌else◌, bytes_eq, replicate, u32_le_bytes,
}
use salpa.SignedImage.Format.{Sha256, digest}
use salpa.SignedImage.Installed.{ImageReader, VerifiedInstalledImage, verify_installed_slot}
use salpa.SignedImage.Installed as Installed
use salpa.Ota.Records.{QualifiedLayout}
use salpa.Ota.Flash.{FlashDriver, Attempt, qualified_layout}
use salpa.UserPresence.Hardware.{Board}
use salpa.SecurityEpoch.Policy.{
  SlotEvidence, ObservedState, ApprovedPlan, PreparedChange, granted, refused, prepare,
  secure_version_raw,
}
use salpa.SecurityEpoch.Transaction.{Snapshot, FuseBackend}
use salpa.SecurityEpoch.Plan.{Images, MaintenancePlan, decode}

pub data Error : Type 0 where
  bad_request busy bad_plan bad_image no_presence failed_transaction binding cancelled : Error

-- `Result<A, Error>`
pub data Step (A : Type 0) : Type 0 where
  ok : A → Step A
  err : Error → Step A

-- `?` on the result of a step.
abbrev pub and_then : {S A B : Type 0} → S × Step A → (S → A → S × Step B) → S × Step B
and_then r next = elim r.1 [ ok a ↦ next r.0 a | err e ↦ (r.0, err e) ]

pub record Qualified : Type 0 where
  pub change : PreparedChange
  pub layout : QualifiedLayout
  pub raw : ℕ

unfoldable pub same_layout : QualifiedLayout → QualifiedLayout → Bool
same_layout a b =
    a.running_slot == b.running_slot
    && a.first_sequence == b.first_sequence
    && a.second_sequence == b.second_sequence

unfoldable pub same_snapshot : Snapshot → Snapshot → Bool
same_snapshot a b = bytes_eq a.block0 b.block0 && bytes_eq a.repeat_errors b.repeat_errors

-- What the code reads of the build and of the chip.
pub record Chip (S : Type 0) : Type 0 where
  pub scope : List ℕ
  pub trusted_root : List ℕ
  pub major_chip_version : ℕ
  pub minor_chip_version : ℕ
  pub base_mac_address : List ℕ
  pub apb_hz : ℕ
  pub spiflash_read : S → ℕ → ℕ → S × Option (List ℕ)

unfoldable pub evidence : VerifiedInstalledImage → SlotEvidence
evidence image = record {
  signature_verified = true;
  metadata_valid = true;
  secure_version = image.secure_version;
  signed_content_digest = image.signed_content_digest;
}

unfoldable pub approved_plan :
    MaintenancePlan → Option Images → SlotEvidence → SlotEvidence → ApprovedPlan
approved_plan scope expected first second = record {
  device_digest = scope.device_digest;
  bootloader_digest = scope.bootloader_digest;
  trusted_root_digest = scope.trusted_root_digest;
  expected_block0 = scope.expected_block0;
  first_image_digest = elim expected [
    | none ↦ first.signed_content_digest
    | some images ↦ images.first
  ];
  second_image_digest = elim expected [
    | none ↦ second.signed_content_digest
    | some images ↦ images.second
  ];
  target_epoch = scope.target_epoch;
}

module _ {S H : Type 0} (sha : Sha256 H) (flash : FlashDriver S) (encrypted : Bool)
    (reader : ImageReader S) (fuses : FuseBackend S) (board : Board S) (chip : Chip S) where
  unfoldable pub hash_words : H → List ℕ → H
  hash_words h [] = h
  hash_words h (word ∷ words) = hash_words (sha.update h (u32_le_bytes word)) words

  -- The loop of `bootloader_ciphertext_digest` over the `n` chunks left.
  unfoldable pub hash_bootloader : ℕ → S → ℕ → H → S × Step (List ℕ)
  unfolding hash_words
  hash_bootloader zero s offset h = (s, ok (sha.finalize h))
  hash_bootloader (suc n) s offset h =
      let (s, words) = chip.spiflash_read s offset 1024 in
      elim words [
        | none ↦ (s, err binding)
        | some words ↦ hash_bootloader n s (offset + 1024) (hash_words h words)
      ]

  -- 48 chunks from 0x1000 to 0xd000.
  unfoldable pub bootloader_ciphertext_digest : S → S × Step (List ℕ)
  unfolding hash_bootloader
  bootloader_ciphertext_digest s = hash_bootloader 48 s 0x1000 sha.initial

  unfoldable pub verified_slot : S → ℕ → S × Step SlotEvidence
  unfolding evidence
  verified_slot s slot =
      let (s, image) = verify_installed_slot sha reader slot s chip.trusted_root in
      elim image [ Installed.ok i ↦ (s, ok (evidence i)) | Installed.err e ↦ (s, err bad_image) ]

  unfoldable pub layout_of : S → ℕ → S × Step QualifiedLayout
  layout_of s descriptor =
      let (s, layout) = qualified_layout flash encrypted s descriptor in
      elim layout [ Attempt.done l ↦ (s, ok l) | Attempt.failed e ↦ (s, err bad_image) ]

  -- The end of `qualify`: neither the layout nor the fuses have changed.
  unfoldable pub requalify :
      S → ℕ → Snapshot → QualifiedLayout → PreparedChange → S × Step Qualified
  unfolding same_layout same_snapshot layout_of
  requalify s descriptor before layout change = and_then (layout_of s descriptor) (λ s again.
      if not (same_layout again layout)
      then (s, err binding)
      else let (s, after) = fuses.snapshot s in
        if not (same_snapshot after before) then (s, err binding) else (
          s,
          ok (record { change = change; layout = layout; raw = secure_version_raw before.block0 }),
        ))

  unfoldable pub observed :
      List ℕ → Snapshot → QualifiedLayout → SlotEvidence → SlotEvidence → ObservedState
  observed bootloader before layout first second = record {
    device_digest = digest sha chip.base_mac_address;
    bootloader_digest = bootloader;
    trusted_root_digest = chip.trusted_root;
    block0 = before.block0;
    running_slot = layout.running_slot;
    first_slot = first;
    second_slot = second;
  }

  -- `qualify` from the evidence of the slots on. A running slot is 0 or 1.
  unfoldable pub match_plan :
      S
      → ℕ
      → Option Images
      → MaintenancePlan
      → Snapshot
      → QualifiedLayout
      → SlotEvidence
      → SlotEvidence
      → S × Step Qualified
  unfolding bootloader_ciphertext_digest approved_plan observed requalify
  match_plan s descriptor expected scope before layout first second =
      let fallback = if layout.running_slot == 0 then second else first in
      if not (bytes_eq fallback.signed_content_digest scope.fallback_digest)
      then (s, err binding)
      else and_then (bootloader_ciphertext_digest s) (λ s bootloader.
        elim (prepare (approved_plan scope expected first second)
          (observed bootloader before layout first second)) [
            | granted change ↦ requalify s descriptor before layout change
            | refused e ↦ (s, err binding)
          ])

  unfoldable pub qualify : S → ℕ → Option Images → S × Step Qualified
  unfolding decode layout_of verified_slot match_plan
  qualify s descriptor expected = elim (decode chip.scope) [
    | none ↦ (s, err bad_plan)
    | some scope ↦
        if not (chip.major_chip_version == scope.revision_major)
          || not (chip.minor_chip_version == scope.revision_minor)
        then (s, err binding)
        else let (s, before) = fuses.snapshot s in
          if not (bytes_eq before.repeat_errors (replicate 5 0))
          then (s, err binding)
          else and_then (layout_of s descriptor) (λ s layout.
            and_then (verified_slot s 0) (λ s first.
              and_then (verified_slot s 1)
                (λ s second. match_plan s descriptor expected scope before layout first second)))
  ]
