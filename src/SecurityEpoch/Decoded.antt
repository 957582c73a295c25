-- ===== src/SecurityEpoch/Decoded.antt =====
-- What a plan that src/platform/security_epoch_plan.rs decodes has, and the slot that does not run.
use salpa.Base.{
  ℕ, ◌≤◌, ◌≡◌, refl, Bool, true, false, not, ◌&&◌, ◌||◌, Option, some, some-injective, List, ◌==◌,
  leb, if◌then◌else◌, bytes_eq, byte, length, slice, if-cases, subst, arith,
}
use salpa.SecurityEpoch.Policy.{SlotEvidence}
use salpa.SecurityEpoch.Plan.{
  MaintenancePlan, decode, read_plan, read_words, is_refused, plan_bytes, plan_magic,
}

pub picked :
    (b : Bool) (x y : SlotEvidence) {m n d : List ℕ}
    → x.signed_content_digest ≡ m
    → y.signed_content_digest ≡ n
    → (if b then x else y).signed_content_digest ≡ d
    → (if b then m else n) ≡ d
picked true x y p q e = cc
picked false x y p q e = cc

-- A plan that decodes has six words of BLOCK0 and a target from 1 to 16.
pub record Sane (scope : MaintenancePlan) : Type 0 where
  pub six : length scope.expected_block0 ≡ 6
  pub least : 1 ≤ scope.target_epoch
  pub most : scope.target_epoch ≤ 16

pub or-false : (a b : Bool) → (a || b) ≡ false → a ≡ false
or-false a b e = ground arith

pub in_range : (n : ℕ) → not (leb 1 n && leb n 16) ≡ false → (1 ≤ n) × (n ≤ 16)
in_range n e = (ground arith, ground arith)

pub is_refused-false :
    (scope : MaintenancePlan)
    → is_refused scope ≡ false
    → (1 ≤ scope.target_epoch) × (scope.target_epoch ≤ 16)
unfolding is_refused
is_refused-false scope e =
    in_range scope.target_epoch (or-false _ _ (or-false _ _ (or-false _ _ e)))

pub decode-Sane :
    (bytes : List ℕ) (scope : MaintenancePlan) → decode bytes ≡ some scope → Sane scope
unfolding decode read_plan read_words
decode-Sane bytes scope =
    let P : Option MaintenancePlan → Type 0 = λ r. r ≡ some scope → Sane scope in
    if-cases P
      (not (length bytes == plan_bytes)
        || not (bytes_eq (slice bytes 0 8) plan_magic)
        || not (byte bytes 163 == 0))
      (λ _ e. cc)
      (λ _.
        if-cases P (is_refused (read_plan bytes)) (λ _ e. cc)
          (λ sane e. subst Sane (some-injective _ _ e) (
            let range = is_refused-false (read_plan bytes) sane in
            record { six = refl; least = range.0; most = range.1 })))
