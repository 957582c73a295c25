-- ===== src/FlashEncryption/Writing.antt =====
-- `write_update` of src/platform/flash_encryption.rs: what it leaves alone.
use salpa.Base.{
  ℕ, zero, suc, ◌+◌, ◌*◌, ◌/◌, ◌%◌, ◌≤◌, ◌≡◌, inl, inr, Bool, true, false, List, ltb, ◌==◌, not,
  Option, none, some, if-cases, option-cases, u32_mod, ap, subst, refl, arith, ◌∙◌, length, take,
  drop,
}
use salpa.FlashEncryption.Mapping.{encrypted_write_is_aligned, mapped_virtual_address}
use salpa.FlashEncryption.Driver.{
  Rom, Device, Outcome, done, failed, stuck, write_blocks, write_unlocked, write_inner,
  write_update, invalidate_physical_range, write, invalidate_after,
}
use salpa.FlashEncryption.Contents.{Faithful, Beyond}

module _ {S : Type 0} (rom : Rom S) (contents : S → ℕ → ℕ) (window : S → ℕ)
    (faithful : Faithful rom contents window) where
  -- The chip `b'` has the plaintext of `b` outside the range, and its window.
  pub record Spares (address count : ℕ) (b b' : S) : Type 0 where
    pub outside : (x : ℕ) → Beyond address count x → contents b' x ≡ contents b x
    pub still : window b' ≡ window b

  block-Spares :
      (a blocks : ℕ) (bytes : List ℕ) (b : S)
      → Spares a (suc blocks * 32) b (rom.write_encrypted b a (take 32 bytes) 32).0
  block-Spares a blocks bytes b = record {
    outside = λ x o.
        faithful.write_spares b a (take 32 bytes) x
          (elim o [ inl l ↦ inl l | inr l ↦ inr (omega arith) ]);
    still = faithful.write_window b a (take 32 bytes);
  }

  step-Spares :
      (a blocks : ℕ) (bytes : List ℕ) (b c : S)
      → Spares (a + 32) (blocks * 32) (rom.write_encrypted b a (take 32 bytes) 32).0 c
      → Spares a (suc blocks * 32) b c
  step-Spares a blocks bytes b c rest = record {
    outside = λ x o.
        rest.outside x (elim o [ inl l ↦ inl (omega arith) | inr l ↦ inr (omega arith) ])
        ∙ (block-Spares a blocks bytes b).outside x o;
    still = rest.still ∙ (block-Spares a blocks bytes b).still;
  }

  pub blocks-Spares :
      (blocks index : ℕ) (b : S) (address : ℕ) (bytes : List ℕ)
      → address + index * 32 + blocks * 32 ≤ u32_mod
      → Spares
          (address + index * 32)
          (blocks * 32)
          b
          (write_blocks rom blocks index b address bytes).0
  unfolding write_blocks
  blocks-Spares zero index b address bytes h = record { outside = λ x o. refl; still = refl }
  blocks-Spares (suc blocks) index b address bytes h =
      let a : ℕ = address + index * 32 in
      let place : a % u32_mod ≡ a = omega arith in
      let next : address + (index + 1) * 32 ≡ a + 32 = omega arith in
      let P = λ (r : S × Outcome Unit). Spares a (suc blocks * 32) b r.0 in
      let c = rom.write_encrypted b a (take 32 bytes) 32 in
      let r = write_blocks rom blocks (index + 1) c.0 address (drop 32 bytes) in
      let rest : Spares (a + 32) (blocks * 32) c.0 r.0 =
        subst (λ (p : ℕ). Spares p (blocks * 32) c.0 r.0) next
          (blocks-Spares blocks (index + 1) c.0 address (drop 32 bytes) (omega arith)) in
      rw place (
        if-cases P (not (c.1 == 0)) (λ _. block-Spares a blocks bytes b)
          (λ _. step-Spares a blocks bytes b r.0 rest))

  unlocked : (b : S) (a n : ℕ) → Spares a n b (rom.unlock b).0
  unlocked b a n = record {
    outside = λ x o. ap (λ (f : ℕ → ℕ). f x) (faithful.unlock_keeps b).0;
    still = (faithful.unlock_keeps b).1;
  }

  kept : (b : S) (a n : ℕ) → Spares a n b b
  kept b a n = record { outside = λ x o. refl; still = refl }

  -- Invalidating the cache changes neither the plaintext nor the window.
  pub record Settles (r r' : S × Outcome Unit) : Type 0 where
    pub same : contents r'.0 ≡ contents r.0
    pub still : window r'.0 ≡ window r.0

  invalidated : (b : S) (a n : ℕ) → Settles (b, done tt) (invalidate_physical_range rom b a n)
  unfolding invalidate_physical_range
  invalidated b a n =
      let P = Settles (b, done tt) in
      option-cases P (mapped_virtual_address a n) (λ _. record { same = refl; still = refl })
        (λ v _.
          if-cases P (not (ltb n u32_mod)) (λ _. record { same = refl; still = refl })
            (λ _. record {
              same = (faithful.invalidate_keeps b v n).0;
              still = (faithful.invalidate_keeps b v n).1;
            }))

  pub invalidate_after-Settles :
      (fixed_mapping : Bool) (a n : ℕ) (r : S × Outcome Unit)
      → Settles r (invalidate_after rom fixed_mapping a n r)
  unfolding invalidate_after
  invalidate_after-Settles true a n (b, done _) = invalidated b a n
  invalidate_after-Settles false a n (b, done _) = record { same = refl; still = refl }
  invalidate_after-Settles fixed_mapping a n (b, failed e) = record { same = refl; still = refl }
  invalidate_after-Settles fixed_mapping a n (b, stuck) = record { same = refl; still = refl }

  unlocked-Spares :
      (fixed_mapping : Bool) (b : S) (address : ℕ) (bytes : List ℕ)
      → length bytes ≡ length bytes / 32 * 32
      → address + length bytes ≤ u32_mod
      → (u : S × Option ℕ) → Spares address (length bytes) b u.0
      → Spares address (length bytes) b (write_unlocked rom fixed_mapping address bytes u).0
  unfolding write_unlocked
  unlocked-Spares fixed_mapping b address bytes whole fits (b', some code) s = s
  unlocked-Spares fixed_mapping b address bytes whole fits (b', none) s =
      let blocks = length bytes / 32 in
      let r = write_blocks rom blocks 0 b' address bytes in
      let start : address + 0 * 32 ≡ address = omega arith in
      let w : Spares address (blocks * 32) b' r.0 =
        subst (λ (a : ℕ). Spares a (blocks * 32) b' r.0) start
          (blocks-Spares blocks 0 b' address bytes (omega arith)) in
      let t = invalidate_after-Settles fixed_mapping address (length bytes) r in
      record {
        outside = λ x o.
            ap (λ (f : ℕ → ℕ). f x) t.same
            ∙ w.outside x (subst (λ (n : ℕ). Beyond address n x) whole o)
            ∙ s.outside x o;
        still = t.still ∙ w.still ∙ s.still;
      }

  write_inner-Spares :
      (d : Device S) (address : ℕ) (bytes : List ℕ) (fixed_mapping : Bool)
      → address + length bytes ≤ u32_mod
      → Spares address (length bytes) d.chip (write_inner rom d address bytes fixed_mapping).0.chip
  unfolding write_inner
  write_inner-Spares d address bytes fixed_mapping fits =
      let P = λ (r : Device S × Outcome Unit). Spares address (length bytes) d.chip r.0.chip in
      if-cases P (not d.initialized) (λ _. kept d.chip _ _)
        (λ i.
          if-cases P (not (encrypted_write_is_aligned address (length bytes)))
            (λ _. kept d.chip _ _)
            (λ aligned.
              unlocked-Spares fixed_mapping d.chip address bytes
                (unfold encrypted_write_is_aligned in ground arith) fits (rom.unlock d.chip)
                (unlocked d.chip _ _)))

  pub write-outside :
      (d : Device S) (address : ℕ) (bytes : List ℕ) (x : ℕ)
      → address + length bytes ≤ u32_mod
      → Beyond address (length bytes) x
      → contents (write rom d address bytes).0.chip x ≡ contents d.chip x
  unfolding write
  write-outside d address bytes x fits = (write_inner-Spares d address bytes true fits).outside x

  pub write_update-Spares :
      (d : Device S) (address : ℕ) (bytes : List ℕ)
      → address + length bytes ≤ u32_mod
      → Spares address (length bytes) d.chip (write_update rom d address bytes).0.chip
  unfolding write_update
  write_update-Spares d address bytes = write_inner-Spares d address bytes false

  pub write_update-outside :
      (d : Device S) (address : ℕ) (bytes : List ℕ) (x : ℕ)
      → address + length bytes ≤ u32_mod
      → Beyond address (length bytes) x
      → contents (write_update rom d address bytes).0.chip x ≡ contents d.chip x
  write_update-outside d address bytes x fits = (write_update-Spares d address bytes fits).outside x
