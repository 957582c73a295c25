-- ===== src/SecurityEpoch/Counter.antt =====
-- What a change that `prepare` of src/platform/security_epoch.rs grants does to the fuses.
use salpa.Base.{
  ℕ, zero, suc, ◌+◌, ◌-◌, ◌*◌, ◌/◌, ◌%◌, ◌≤◌, ◌<◌, ◌≡◌, refl, true, none, List, [], ◌∷◌,
  bytes_eq→eq, byte, set, arith, option-cases, length, ◌≢◌, ◌∙◌, ap, sym, subst,
}
use salpa.SecurityEpoch.Policy.{
  ApprovedPlan, ObservedState, SlotEvidence, PreparedChange, Plan, granted, refused, has_bit,
  count_ones, free_bits, secure_version_raw, raise_counter, slot_refusal, state_refusal, prepare,
}
use salpa.SecurityEpoch.Bits.{count_ones-free_bits, free_bits-has_bit, free_bits_fit, raw_fits}

byte-set : (words : List ℕ) (i v : ℕ) → i < length words → byte (set words i v) i ≡ v
byte-set [] i v l = absurd (omega arith)
byte-set (w ∷ words) zero v l = refl
byte-set (w ∷ words) (suc i) v l = byte-set words i v (omega (arith, l))

byte-set_other : (words : List ℕ) (i j v : ℕ) → j ≢ i → byte (set words i v) j ≡ byte words j
byte-set_other [] i j v n = refl
byte-set_other (w ∷ words) zero zero v n = absurd (n refl)
byte-set_other (w ∷ words) zero (suc j) v n = refl
byte-set_other (w ∷ words) (suc i) zero v n = refl
byte-set_other (w ∷ words) (suc i) (suc j) v n = byte-set_other words i j v (λ e. n (ap suc e))

-- The change of a fuse block that raises its counter to `target` and does nothing else.
pub record Raises (target : ℕ) (before after : List ℕ) : Type 0 where
  pub ahead : count_ones 16 (secure_version_raw before) < target
  pub reached : count_ones 16 (secure_version_raw after) ≡ target
  pub kept :
      (i : ℕ)
      → has_bit (secure_version_raw before) i ≡ true
      → has_bit (secure_version_raw after) i ≡ true
  pub below : byte after 4 % 2048 ≡ byte before 4 % 2048
  pub above : byte after 4 / 134217728 ≡ byte before 4 / 134217728
  pub elsewhere : (i : ℕ) → i ≢ 4 → byte after i ≡ byte before i

-- A slot whose image may run after the change.
pub record Ready (slot : SlotEvidence) (qualified : List ℕ) (target : ℕ) : Type 0 where
  pub verified : slot.signature_verified ≡ true
  pub valid : slot.metadata_valid ≡ true
  pub enough : target ≤ slot.secure_version
  pub in_range : slot.secure_version ≤ 16
  pub same_image : slot.signed_content_digest ≡ qualified

slot_refusal-Ready :
    (slot : SlotEvidence) (qualified : List ℕ) (target : ℕ)
    → slot_refusal slot qualified target ≡ none
    → Ready slot qualified target
unfolding slot_refusal
slot_refusal-Ready slot qualified target e = record {
  verified = ground arith;
  valid = ground arith;
  enough = ground arith;
  in_range = ground arith;
  same_image = bytes_eq→eq _ _ (ground arith);
}

word_after :
    (before : List ℕ) (delta : ℕ)
    → 4 < length before
    → secure_version_raw before + delta < 65536
    → let after = set before 4 (byte before 4 + delta * 2048) in
      (secure_version_raw after ≡ secure_version_raw before + delta)
      × (byte after 4 % 2048 ≡ byte before 4 % 2048)
      × (byte after 4 / 134217728 ≡ byte before 4 / 134217728)
unfolding secure_version_raw
word_after before delta l small =
    let e = byte-set before 4 (byte before 4 + delta * 2048) l in
    (omega (arith, e, small), omega (arith, e), omega (arith, e, small))

raise_counter-Raises :
    (before : List ℕ) (target : ℕ)
    → length before ≡ 6
    → count_ones 16 (secure_version_raw before) < target
    → target ≤ 16
    → ((raise_counter before target).before ≡ before)
      × Raises target (raise_counter before target).before (raise_counter before target).after
unfolding raise_counter
raise_counter-Raises before target six ahead small =
    let current = secure_version_raw before in
    let wanted = target - count_ones 16 current in
    let delta = free_bits 16 current wanted in
    let change =
      word_after before delta (omega (arith, six))
        (free_bits_fit current wanted (raw_fits before)) in
    (
      refl,
      record {
        ahead = ahead;
        reached =
            ap (count_ones 16) change.0
            ∙ count_ones-free_bits 16 current wanted
            ∙ omega (arith, ahead, small);
        kept = λ i h.
            subst (λ x. has_bit x i ≡ true) (sym change.0)
              (free_bits-has_bit 16 current wanted i h);
        below = change.1;
        above = change.2;
        elsewhere = λ i n. byte-set_other before 4 i _ n;
      },
    )

abbrev change_of : Plan PreparedChange → PreparedChange → PreparedChange
change_of (granted c) other = c
change_of (refused e) other = other

state_refusal-none :
    (plan : ApprovedPlan) (seen : ObservedState)
    → state_refusal plan seen ≡ none
    → (plan.expected_block0 ≡ seen.block0)
      × (count_ones 16 (secure_version_raw seen.block0) < plan.target_epoch)
      × (plan.target_epoch ≤ 16)
unfolding state_refusal
state_refusal-none plan seen e = (bytes_eq→eq _ _ (ground arith), ground arith, ground arith)

-- What `prepare` grants on a BLOCK0 of six words is a change of the block that was planned for: it
-- raises the counter, which was below the target, to exactly the target, at most 16, by setting
-- bits only, and leaves every other bit of the block as it was. Both slots are verified and valid,
-- hold the images planned for, and have a secure version from the target to 16.
pub prepare-Raises :
    (plan : ApprovedPlan) (seen : ObservedState) (c : PreparedChange)
    → length seen.block0 ≡ 6
    → prepare plan seen ≡ granted c
    → (c.before ≡ plan.expected_block0)
      × (plan.expected_block0 ≡ seen.block0)
      × (plan.target_epoch ≤ 16)
      × Raises plan.target_epoch c.before c.after
      × Ready seen.first_slot plan.first_image_digest plan.target_epoch
      × Ready seen.second_slot plan.second_image_digest plan.target_epoch
unfolding prepare
prepare-Raises plan seen c six =
    let P : Plan PreparedChange → Type 0 = λ r.
      r ≡ granted c
      → (c.before ≡ plan.expected_block0)
        × (plan.expected_block0 ≡ seen.block0)
        × (plan.target_epoch ≤ 16)
        × Raises plan.target_epoch c.before c.after
        × Ready seen.first_slot plan.first_image_digest plan.target_epoch
        × Ready seen.second_slot plan.second_image_digest plan.target_epoch in
    option-cases P (state_refusal plan seen)
      (λ state.
        option-cases P (slot_refusal seen.first_slot plan.first_image_digest plan.target_epoch)
          (λ first.
            option-cases P
              (slot_refusal seen.second_slot plan.second_image_digest plan.target_epoch)
              (λ second h.
                let facts = state_refusal-none plan seen state in
                let same = ap (λ p. change_of p c) h in
                let raised =
                  raise_counter-Raises seen.block0 plan.target_epoch six facts.1 facts.2 in
                (
                  ap (λ (x : PreparedChange). x.before) (sym same) ∙ raised.0 ∙ sym facts.0,
                  facts.0,
                  facts.2,
                  subst (λ (x : PreparedChange). Raises plan.target_epoch x.before x.after) same
                      raised.1,
                  slot_refusal-Ready seen.first_slot plan.first_image_digest plan.target_epoch
                      first,
                  slot_refusal-Ready seen.second_slot plan.second_image_digest plan.target_epoch
                      second,
                ))
              (λ x e h. cc))
          (λ x e h. cc))
      (λ x e h. cc)

-- The block that was planned for is the one that was seen, whatever its length.
pub prepare-expected :
    (plan : ApprovedPlan) (seen : ObservedState) (c : PreparedChange)
    → prepare plan seen ≡ granted c
    → plan.expected_block0 ≡ seen.block0
unfolding prepare
prepare-expected plan seen c =
    let P : Plan PreparedChange → Type 0 =
      λ r. r ≡ granted c → plan.expected_block0 ≡ seen.block0 in
    option-cases P (state_refusal plan seen) (λ state _. (state_refusal-none plan seen state).0)
      (λ x _ e. cc)
