-- ===== src/FlashEncryption/Erased.antt =====
-- What `erase_update` of src/platform/flash_encryption.rs does to the flash that it erases, where
-- the ROM programs flash as documented.
use salpa.Base.{
  ℕ, zero, suc, ◌+◌, ◌-◌, ◌*◌, ◌/◌, ◌%◌, ◌≤◌, ◌<◌, ◌≡◌, ◌⊎◌, inl, inr, false, ltb, ◌==◌, not, ◌||◌,
  Option, none, some, if-cases, option-cases, u32_mod, u32_checked_add, subst, refl, arith, ◌∙◌,
  sym,
}
use salpa.FlashEncryption.Driver.{
  Rom, Device, Outcome, done, failed, stuck, erase_sectors, erase_unlocked, erase_inner,
  erase_update, invalidate_after,
}
use salpa.FlashEncryption.Contents.{Faithful, Programs}

-- Where the cache is left alone, the end of the loop is the result.
pub invalidate_after-kept :
    {S : Type 0} (rom : Rom S) (a n : ℕ) (r : S × Outcome Unit)
    → invalidate_after rom false a n r ≡ r
unfolding invalidate_after
invalidate_after-kept rom a n (b, done _) = refl
invalidate_after-kept rom a n (b, failed e) = refl
invalidate_after-kept rom a n (b, stuck) = refl

module _ {S : Type 0} (rom : Rom S) (contents : S → ℕ → ℕ) (window : S → ℕ) (Blank : S → ℕ → Type 0)
    (faithful : Faithful rom contents window) (programs : Programs rom contents window Blank) where
  -- Every address of the range is erased.
  abbrev pub BlankIn : S → ℕ → ℕ → Type 0
  BlankIn b a n = (x : ℕ) → a ≤ x → x < a + n → Blank b x

  sectors-keep :
      (sectors : ℕ) (b : S) (address x : ℕ)
      → address % 0x1000 ≡ 0
      → x < address
      → Blank b x
      → Blank (erase_sectors rom sectors b address).0 x
  unfolding erase_sectors
  sectors-keep zero b address x aligned before e = e
  sectors-keep (suc sectors) b address x aligned before e =
      let P = λ (r : S × Outcome Unit). Blank r.0 x in
      let c = rom.erase_sector b (address / 0x1000) in
      let now : Blank c.0 x =
        programs.erase_spares_blank b (address / 0x1000) x (inl (omega arith)) e in
      option-cases P c.1
        (λ _. sectors-keep sectors c.0 (address + 0x1000) x (omega arith) (omega arith) now)
        (λ code _. now)

  sectors-BlankIn :
      (sectors : ℕ) (b : S) (address : ℕ)
      → address % 0x1000 ≡ 0
      → (erase_sectors rom sectors b address).1 ≡ done tt
      → BlankIn (erase_sectors rom sectors b address).0 address (sectors * 0x1000)
  unfolding erase_sectors
  sectors-BlankIn zero b address aligned = λ e x lo hi. absurd (omega arith)
  sectors-BlankIn (suc sectors) b address aligned =
      let P =
        λ (r : S × Outcome Unit). r.1 ≡ done tt → BlankIn r.0 address (suc sectors * 0x1000) in
      let c = rom.erase_sector b (address / 0x1000) in
      option-cases P c.1
        (λ fine e x lo hi. elim (split x) [
          | inl before ↦
              sectors-keep sectors c.0 (address + 0x1000) x (omega arith) before
                (programs.erases b (address / 0x1000) x fine (omega arith) (omega arith))
          | inr later ↦
              sectors-BlankIn sectors c.0 (address + 0x1000) (omega arith) e x later (omega arith)
        ])
        (λ code _ e. cc)
    where
      split : (x : ℕ) → (x < address + 0x1000) ⊎ (address + 0x1000 ≤ x)
      split x = ground arith

  sectors-window :
      (sectors : ℕ) (b : S) (address : ℕ)
      → window (erase_sectors rom sectors b address).0 ≡ window b
  unfolding erase_sectors
  sectors-window zero b address = refl
  sectors-window (suc sectors) b address =
      let c = rom.erase_sector b (address / 0x1000) in
      option-cases (λ (r : S × Outcome Unit). window r.0 ≡ window b) c.1
        (λ _.
          sectors-window sectors c.0 (address + 0x1000)
          ∙ programs.erase_window b (address / 0x1000))
        (λ code _. programs.erase_window b (address / 0x1000))

  -- The range is erased and the window is where it was.
  pub record Erased (address count : ℕ) (b b' : S) : Type 0 where
    pub erased : BlankIn b' address count
    pub still : window b' ≡ window b

  erase_unlocked-Erased :
      (b : S) (address count : ℕ)
      → address % 0x1000 ≡ 0
      → count % 0x1000 ≡ 0
      → (u : S × Option ℕ) → window u.0 ≡ window b
      → (erase_unlocked rom false address count u).1 ≡ done tt
      → Erased address count b (erase_unlocked rom false address count u).0
  unfolding erase_unlocked
  erase_unlocked-Erased b address count ea ec (b', some code) w = λ e. cc
  erase_unlocked-Erased b address count ea ec (b', none) w =
      let P = λ (r : S × Outcome Unit). r.1 ≡ done tt → Erased address count b r.0 in
      if-cases P (not (ltb count u32_mod)) (λ _ e. cc)
        (λ _.
          option-cases P (u32_checked_add address count) (λ _ e. cc)
            (λ end found.
              let n = (end - address) / 0x1000 in
              let all : n * 0x1000 ≡ count = ground arith in
              subst P
                (sym (invalidate_after-kept rom address count (erase_sectors rom n b' address)))
                (λ e. record {
                  erased = λ x lo hi. sectors-BlankIn n b' address ea e x lo (omega arith);
                  still = sectors-window n b' address ∙ w;
                })))

  pub erase_update-Erased :
      (d : Device S) (address count : ℕ)
      → (erase_update rom d address count).1 ≡ done tt
      → Erased address count d.chip (erase_update rom d address count).0.chip
  unfolding erase_update erase_inner
  erase_update-Erased d address count =
      let P =
        λ (r : Device S × Outcome Unit). r.1 ≡ done tt → Erased address count d.chip r.0.chip in
      if-cases P (not d.initialized) (λ _ e. cc)
        (λ _.
          if-cases P (not (address % 0x1000 == 0) || not (count % 0x1000 == 0)) (λ _ e. cc)
            (λ aligned.
              erase_unlocked-Erased d.chip address count (ground arith) (ground arith)
                (rom.unlock d.chip) (faithful.unlock_keeps d.chip).1))
