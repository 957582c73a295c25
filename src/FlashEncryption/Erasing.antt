-- ===== src/FlashEncryption/Erasing.antt =====
-- What erasing of src/platform/flash_encryption.rs leaves alone.
use salpa.Base.{
  ℕ, zero, suc, ◌+◌, ◌-◌, ◌*◌, ◌/◌, ◌%◌, ◌<◌, ◌≡◌, inl, inr, Bool, true, false, List, ltb, ◌==◌,
  not, ◌||◌, Option, none, some, if-cases, option-cases, u32_mod, u32_checked_add, ap, subst, refl,
  arith, ◌∙◌, sym, length,
}
use salpa.FlashEncryption.Driver.{
  Rom, Device, Outcome, write_update, erase_sectors, erase_unlocked, erase_inner, erase_update,
  erase,
}
use salpa.FlashEncryption.Contents.{Faithful, Beyond}
use salpa.FlashEncryption.Writing.{write_update-outside, invalidate_after-Settles}

module _ {S : Type 0} (rom : Rom S) (contents : S → ℕ → ℕ) (window : S → ℕ)
    (faithful : Faithful rom contents window) where
  erase-Spares :
      (sectors : ℕ) (b : S) (address x : ℕ)
      → address % 0x1000 ≡ 0
      → Beyond address (sectors * 0x1000) x
      → contents (erase_sectors rom sectors b address).0 x ≡ contents b x
  unfolding erase_sectors
  erase-Spares zero b address x e o = refl
  erase-Spares (suc sectors) b address x e o =
      let P = λ (r : S × Outcome Unit). contents r.0 x ≡ contents b x in
      let c = rom.erase_sector b (address / 0x1000) in
      let spared : contents c.0 x ≡ contents b x =
        faithful.erase_spares b (address / 0x1000) x
          (elim o [ inl l ↦ inl (omega arith) | inr l ↦ inr (omega arith) ]) in
      option-cases P c.1
        (λ _.
          erase-Spares sectors c.0 (address + 0x1000) x (omega arith)
            (elim o [ inl l ↦ inl (omega arith) | inr l ↦ inr (omega arith) ])
          ∙ spared)
        (λ code _. spared)

  erase_unlocked-Spares :
      (fixed_mapping : Bool) (b : S) (address count x : ℕ)
      → address % 0x1000 ≡ 0
      → count % 0x1000 ≡ 0
      → address + count < u32_mod
      → Beyond address count x
      → (u : S × Option ℕ) → contents u.0 x ≡ contents b x
      → contents (erase_unlocked rom fixed_mapping address count u).0 x ≡ contents b x
  unfolding erase_unlocked
  erase_unlocked-Spares fixed_mapping b address count x ea ec fits o (b', some code) same = same
  erase_unlocked-Spares fixed_mapping b address count x ea ec fits o (b', none) same =
      let P = λ (r : S × Outcome Unit). contents r.0 x ≡ contents b x in
      if-cases P (not (ltb count u32_mod)) (λ _. same)
        (λ _.
          option-cases P (u32_checked_add address count) (λ _. same)
            (λ end e.
              let all : (end - address) / 0x1000 * 0x1000 ≡ count = ground arith in
              let r = erase_sectors rom ((end - address) / 0x1000) b' address in
              ap (λ (f : ℕ → ℕ). f x)
                (invalidate_after-Settles rom contents window faithful fixed_mapping address count
                  r).same
              ∙ erase-Spares ((end - address) / 0x1000) b' address x ea
                  (subst (λ (n : ℕ). Beyond address n x) (sym all) o)
              ∙ same))

  erase_inner-outside :
      (fixed_mapping : Bool) (d : Device S) (address count x : ℕ)
      → address + count < u32_mod
      → Beyond address count x
      → contents (erase_inner rom d address count fixed_mapping).0.chip x ≡ contents d.chip x
  unfolding erase_inner
  erase_inner-outside fixed_mapping d address count x fits o =
      let P = λ (r : Device S × Outcome Unit). contents r.0.chip x ≡ contents d.chip x in
      if-cases P (not d.initialized) (λ _. refl)
        (λ _.
          if-cases P (not (address % 0x1000 == 0) || not (count % 0x1000 == 0)) (λ _. refl)
            (λ aligned.
              erase_unlocked-Spares fixed_mapping d.chip address count x (ground arith)
                (ground arith) fits o (rom.unlock d.chip)
                (ap (λ (f : ℕ → ℕ). f x) (faithful.unlock_keeps d.chip).0)))

  pub erase-outside :
      (d : Device S) (address count x : ℕ)
      → address + count < u32_mod
      → Beyond address count x
      → contents (erase rom d address count).0.chip x ≡ contents d.chip x
  unfolding erase
  erase-outside = erase_inner-outside true

  pub erase_update-outside :
      (d : Device S) (address count x : ℕ)
      → address + count < u32_mod
      → Beyond address count x
      → contents (erase_update rom d address count).0.chip x ≡ contents d.chip x
  unfolding erase_update
  erase_update-outside = erase_inner-outside false

  -- However they end, on every path and at every error, writing an update leaves the plaintext outside
  -- the range of its bytes as it was, and erasing leaves that outside the range erased.
  pub updates_confined :
      (d : Device S) (address count x : ℕ) (bytes : List ℕ)
      → address + length bytes < u32_mod
      → address + count < u32_mod
      → (Beyond address (length bytes) x
          → contents (write_update rom d address bytes).0.chip x ≡ contents d.chip x)
        × (Beyond address count x
            → contents (erase_update rom d address count).0.chip x ≡ contents d.chip x)
  updates_confined d address count x bytes fits fits' = (
    write_update-outside rom contents window faithful d address bytes x (omega arith),
    erase_update-outside d address count x fits',
  )
