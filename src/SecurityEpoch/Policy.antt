-- ===== src/SecurityEpoch/Policy.antt =====
-- `prepare` of src/platform/security_epoch.rs: when the fuse counter may be raised, and which bits
-- of BLOCK0 that takes. A digest is a list of bytes, BLOCK0 a list of six words.
use salpa.Base.{
  ℕ, zero, suc, ◌+◌, ◌-◌, ◌*◌, ◌/◌, ◌%◌, Bool, not, ◌&&◌, ◌||◌, Option, none, some, List, ltb, leb,
  ◌==◌, if◌then◌else◌, bytes_eq, byte, set, replicate,
}

abbrev pub field_word : ℕ
field_word = 4

-- `1 << FIELD_SHIFT`
abbrev pub field_unit : ℕ
field_unit = 2048

pub record SlotEvidence : Type 0 where
  pub signature_verified : Bool
  pub metadata_valid : Bool
  pub secure_version : ℕ
  pub signed_content_digest : List ℕ

pub record ObservedState : Type 0 where
  pub device_digest : List ℕ
  pub bootloader_digest : List ℕ
  pub trusted_root_digest : List ℕ
  pub block0 : List ℕ
  pub running_slot : ℕ
  pub first_slot : SlotEvidence
  pub second_slot : SlotEvidence

pub record ApprovedPlan : Type 0 where
  pub device_digest : List ℕ
  pub bootloader_digest : List ℕ
  pub trusted_root_digest : List ℕ
  pub expected_block0 : List ℕ
  pub first_image_digest : List ℕ
  pub second_image_digest : List ℕ
  pub target_epoch : ℕ

pub data PlanError : Type 0 where
  identity bootloader trust_root changed_efuses protection_disabled write_protected : PlanError
  epoch_range no_advance running_slot_unknown unqualified_slot changed_image : PlanError
  incompatible_slot readback : PlanError

pub record PreparedChange : Type 0 where
  pub before : List ℕ
  pub after : List ℕ
  pub delta : ℕ
  pub target_epoch : ℕ

-- `Result<A, PlanError>`
pub data Plan (A : Type 0) : Type 0 where
  granted : A → Plan A
  refused : PlanError → Plan A

-- Bit `i` of a word, and the ones among its `n` lowest bits.
unfoldable pub has_bit : ℕ → ℕ → Bool
has_bit x zero = x % 2 == 1
has_bit x (suc i) = has_bit (x / 2) i

unfoldable pub count_ones : ℕ → ℕ → ℕ
count_ones zero x = 0
count_ones (suc n) x = x % 2 + count_ones n (x / 2)

unfoldable pub secure_version_raw : List ℕ → ℕ
secure_version_raw block0 = byte block0 field_word / field_unit % 65536

-- `PreparedChange::program_words`
unfoldable pub program_words : PreparedChange → List ℕ
program_words c = set (replicate 8 0) field_word (c.delta * field_unit)

unfoldable pub recheck_before : PreparedChange → List ℕ → Plan Unit
recheck_before c block0 = if bytes_eq block0 c.before then granted tt else refused changed_efuses

unfoldable pub verify_after : PreparedChange → List ℕ → Plan Unit
verify_after c block0 = if bytes_eq block0 c.after then granted tt else refused readback

-- The loop that picks the lowest free bits, over the `n` bits left. `current` and the bits picked
-- are shifted as the loop goes up; a picked bit is free, so that `|=` adds it.
unfoldable pub free_bits : ℕ → ℕ → ℕ → ℕ
free_bits zero current remaining = 0
free_bits (suc n) current remaining =
    let free = current % 2 == 0 && ltb 0 remaining in
    let rest = free_bits n (current / 2) (if free then remaining - 1 else remaining) in
    (if free then 1 else 0) + rest * 2

-- One turn of the loop over the slots.
unfoldable pub slot_refusal : SlotEvidence → List ℕ → ℕ → Option PlanError
slot_refusal slot qualified target_epoch =
    if not slot.signature_verified || not slot.metadata_valid
    then some unqualified_slot
    else if ltb slot.secure_version target_epoch || ltb 16 slot.secure_version
    then some incompatible_slot
    else if not (bytes_eq slot.signed_content_digest qualified)
    then some changed_image
    else none

-- The checks of `prepare` before the loop over the slots.
unfoldable pub state_refusal : ApprovedPlan → ObservedState → Option PlanError
state_refusal plan seen =
    if not (bytes_eq plan.device_digest seen.device_digest)
    then some identity
    else if not (bytes_eq plan.bootloader_digest seen.bootloader_digest)
    then some bootloader
    else if not (bytes_eq plan.trusted_root_digest seen.trusted_root_digest)
    then some trust_root
    else if not (bytes_eq plan.expected_block0 seen.block0)
    then some changed_efuses
    else if not (has_bit (byte seen.block0 3) 20)
        || not (count_ones 3 (byte seen.block0 2 / 262144) % 2 == 1)
    then some protection_disabled
    else if has_bit (byte seen.block0 0) 18
    then some write_protected
    else if ltb 16 plan.target_epoch
    then some epoch_range
    else if leb plan.target_epoch (count_ones 16 (secure_version_raw seen.block0))
    then some no_advance
    else if ltb 1 seen.running_slot
    then some running_slot_unknown
    else none

unfoldable pub raise_counter : List ℕ → ℕ → PreparedChange
raise_counter block0 target_epoch =
    let current = secure_version_raw block0 in
    let delta = free_bits 16 current (target_epoch - count_ones 16 current) in
    record {
      before = block0;
      after = set block0 field_word (byte block0 field_word + delta * field_unit);
      delta = delta;
      target_epoch = target_epoch;
    }

unfoldable pub prepare : ApprovedPlan → ObservedState → Plan PreparedChange
prepare plan seen = elim (state_refusal plan seen) [
  | some e ↦ refused e
  | none ↦ elim (slot_refusal seen.first_slot plan.first_image_digest plan.target_epoch) [
    | some e ↦ refused e
    | none ↦ elim (slot_refusal seen.second_slot plan.second_image_digest plan.target_epoch) [
      | some e ↦ refused e
      | none ↦ granted (raise_counter seen.block0 plan.target_epoch)
    ]
  ]
]
