-- ===== src/SecurityEpoch/Plan.antt =====
-- src/platform/security_epoch_plan.rs: the plan embedded in a maintenance image, and the requests
-- bound to it.
use salpa.Base.{
  ℕ, zero, suc, ◌+◌, Bool, not, ◌&&◌, ◌||◌, Option, none, some, List, [], ◌∷◌, leb, ◌==◌,
  if◌then◌else◌, length, slice, bytes_eq, byte, read_u32_le, replicate,
}
use salpa.SecurityEpoch.Policy.{has_bit, count_ones, secure_version_raw}

abbrev pub plan_bytes : ℕ
plan_bytes = 164

-- `*b"RKMPLAN1"`
abbrev pub plan_magic : List ℕ
plan_magic = 82 ∷ 75 ∷ 77 ∷ 80 ∷ 76 ∷ 65 ∷ 78 ∷ 49 ∷ []

-- The digests of the images of the two slots.
pub record Images : Type 0 where
  pub first : List ℕ
  pub second : List ℕ

-- `some none` is `Some(None)`, an inspection.
unfoldable pub requested_images : List ℕ → List ℕ → Option (Option Images)
requested_images request plan_digest =
    if bytes_eq request (0x13 ∷ [])
    then some none
    else if not (length request == 97)
        || not (byte request 0 == 0x14 || byte request 0 == 0x15)
        || not (bytes_eq (slice request 1 33) plan_digest)
    then none
    else some (some (record { first = slice request 33 65; second = slice request 65 97 }))

pub record MaintenancePlan : Type 0 where
  pub device_digest : List ℕ
  pub bootloader_digest : List ℕ
  pub trusted_root_digest : List ℕ
  pub expected_block0 : List ℕ
  pub fallback_digest : List ℕ
  pub target_epoch : ℕ
  pub revision_major : ℕ
  pub revision_minor : ℕ

-- The loop that reads `n` words from `at` on.
unfoldable pub read_words : List ℕ → ℕ → ℕ → List ℕ
read_words bytes at zero = []
read_words bytes at (suc n) = read_u32_le bytes at ∷ read_words bytes (at + 4) n

unfoldable pub read_plan : List ℕ → MaintenancePlan
unfolding read_words
read_plan bytes = record {
  device_digest = slice bytes 8 40;
  bootloader_digest = slice bytes 40 72;
  trusted_root_digest = slice bytes 72 104;
  expected_block0 = read_words bytes 104 6;
  fallback_digest = slice bytes 128 160;
  target_epoch = byte bytes 160;
  revision_major = byte bytes 161;
  revision_minor = byte bytes 162;
}

abbrev pub is_blank : List ℕ → Bool
is_blank digest = bytes_eq digest (replicate 32 0)

-- The checks on the plan that was read.
unfoldable pub is_refused : MaintenancePlan → Bool
is_refused plan =
    not (leb 1 plan.target_epoch && leb plan.target_epoch 16)
    || has_bit (byte plan.expected_block0 0) 18
    || leb plan.target_epoch (count_ones 16 (secure_version_raw plan.expected_block0))
    || (is_blank plan.device_digest
        || is_blank plan.bootloader_digest
        || is_blank plan.trusted_root_digest
        || is_blank plan.fallback_digest)

unfoldable pub decode : List ℕ → Option MaintenancePlan
unfolding read_plan is_refused
decode bytes =
    if not (length bytes == plan_bytes)
      || not (bytes_eq (slice bytes 0 8) plan_magic)
      || not (byte bytes 163 == 0)
    then none
    else let plan = read_plan bytes in if is_refused plan then none else some plan
