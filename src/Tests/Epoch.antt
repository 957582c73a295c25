-- ===== src/Tests/Epoch.antt =====
-- Raising the counter of src/platform/security_epoch.rs from noncontiguous bits.
use salpa.Base.{
  bytes_eq, ℕ, ◌+◌, ◌-◌, ◌*◌, ◌≤◌, ◌≡◌, refl, true, List, [], ◌∷◌, replicate, set, byte, ◌++◌, ◌⊎◌,
  none, some, is_some, arith,
}
use salpa.SecurityEpoch.Policy.{
  program_words, recheck_before, verify_after, SlotEvidence, ObservedState, ApprovedPlan,
  PreparedChange, granted, prepare, raise_counter, state_refusal, slot_refusal, has_bit, count_ones,
  secure_version_raw, free_bits,
}
use salpa.SecurityEpoch.Transaction.{FuseBackend, already_attempted, attempt, new, check_before}
use salpa.SecurityEpoch.Attempt.{Idle, Checked, Settled, attempt_once}
use salpa.SecurityEpoch.Counter.{Raises, Ready, prepare-Raises}

abbrev slot : SlotEvidence
slot = record {
  signature_verified = true;
  metadata_valid = true;
  secure_version = 16;
  signed_content_digest = replicate 32 4;
}

-- The counter field is 0x8005, three ones.
abbrev pub block0 : List ℕ
block0 =
    0x100 ∷ 0xa5 ∷ 0x1c1234 ∷ 0x100042 ∷ (0x80000001 + 0x8005 * 2048 - 0x80000000) ∷ 0x5678 ∷ []

abbrev plan : ApprovedPlan
plan = record {
  device_digest = replicate 32 1;
  bootloader_digest = replicate 32 2;
  trusted_root_digest = replicate 32 3;
  expected_block0 = block0;
  first_image_digest = replicate 32 4;
  second_image_digest = replicate 32 4;
  target_epoch = 5;
}

abbrev seen : ObservedState
seen = record {
  device_digest = replicate 32 1;
  bootloader_digest = replicate 32 2;
  trusted_root_digest = replicate 32 3;
  block0 = block0;
  running_slot = 0;
  first_slot = slot;
  second_slot = slot;
}

abbrev change : PreparedChange
change = raise_counter block0 5

two_bits : change.delta ≡ 0xa
unfolding raise_counter free_bits count_ones secure_version_raw
two_bits = refl

grants : prepare plan seen ≡ granted change
unfolding prepare state_refusal slot_refusal bytes_eq has_bit count_ones secure_version_raw
grants = refl

prepare-Raises_example :
    (change.before ≡ block0)
    × (block0 ≡ block0)
    × (5 ≤ 16)
    × Raises 5 change.before change.after
    × Ready slot (replicate 32 4) 5
    × Ready slot (replicate 32 4) 5
prepare-Raises_example = prepare-Raises plan seen change refl grants

-- A fuse controller that counts how often it programs.
record Fuses : Type 0 where
  words : List ℕ
  staged : List ℕ
  burns : ℕ

abbrev fuses : FuseBackend Fuses
fuses = record {
  apb_hz = λ f. (f, 80000000);
  idle = λ f. (f, true);
  set_timing = λ f. (f, true);
  refresh = λ f. (f, true);
  snapshot = λ f. (f, record { block0 = f.words; repeat_errors = replicate 5 0 });
  clear_staging = λ f. record f { staged = replicate 11 0 };
  staging = λ f. (f, f.staged);
  stage_counter = λ f words. record f { staged = words ++ replicate 3 0 };
  program_block0 = λ f. (
    record f { words = set f.words 4 (byte f.words 4 + byte f.staged 4); burns = f.burns + 1 },
    true,
  );
}

abbrev Burnt : ℕ → Fuses → Type 0
Burnt n f = f.burns ≡ n

keeps-Burnt : (n : ℕ) → Idle fuses (Burnt n)
keeps-Burnt n = record {
  apb_hz = λ b p. p;
  idle = λ b p. p;
  set_timing = λ b p. p;
  refresh = λ b p. p;
  snapshot = λ b p. p;
  clear_staging = λ b p. p;
  staging = λ b p. p;
  stage_counter = λ b words p. p;
}

burns : (f : Fuses) → Checked fuses change → Burnt 0 f → Burnt 1 (fuses.program_block0 f).0
burns f checked p = omega (arith, p)

abbrev unburnt : Fuses
unburnt = record { words = block0; staged = []; burns = 0 }

attempt_once_example :
    let (t, result) = attempt fuses (new fuses unburnt) change in
    ((Burnt 0 t.backend × (is_some result ≡ true))
      ⊎ (Burnt 1 t.backend
          × (result ≡ none
              → Settled fuses change (Burnt 0) (Burnt 1) (keeps-Burnt 0) (keeps-Burnt 1) burns)))
    × (attempt fuses t change ≡ (t, some already_attempted))
attempt_once_example =
    attempt_once fuses change (Burnt 0) (Burnt 1) (keeps-Burnt 0) (keeps-Burnt 1) burns unburnt
      change refl

-- The attempt attempt_succeeds.
burns_once : (attempt fuses (new fuses unburnt) change).0.backend.burns ≡ 1
unfolding attempt new program_words check_before recheck_before verify_after bytes_eq raise_counter
    free_bits count_ones secure_version_raw
burns_once = refl

attempt_succeeds : (attempt fuses (new fuses unburnt) change).1 ≡ none
unfolding attempt new program_words check_before recheck_before verify_after bytes_eq raise_counter
    free_bits count_ones secure_version_raw
attempt_succeeds = refl
