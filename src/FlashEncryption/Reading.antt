-- ===== src/FlashEncryption/Reading.antt =====
-- `read_update` of src/platform/flash_encryption.rs: the bytes that it returns, that its loop ends,
-- and that the descriptor's mapping is restored.
use salpa.Base.{
  ℕ, zero, suc, ◌+◌, ◌-◌, ◌*◌, ◌/◌, ◌≤◌, ◌<◌, ◌≡◌, ◌≢◌, ◌⊎◌, inl, inr, min, true, List, ◌++◌, ltb,
  ◌==◌, match-cases, if-cases, option-cases, u32_checked_add, not, u32_mod, ap₂, subst, refl, arith,
  ◌∙◌,
}
use salpa.FlashEncryption.Mapping.{mmu_page_size, ota0_descriptor_mapping}
use salpa.FlashEncryption.Driver.{
  Rom, Device, Outcome, done, failed, stuck, mapping_failed, map_drom, restore_window,
  map_update_page_and_copy, read_pages, read_update, prepend,
}
use salpa.FlashEncryption.Contents.{bytes_at, bytes_at-add, Faithful}

module _ {S : Type 0} (rom : Rom S) (contents : S → ℕ → ℕ) (window : S → ℕ)
    (faithful : Faithful rom contents window) where
  map_drom-contents : (b : S) (v p n : ℕ) → contents (map_drom rom b v p n).0 ≡ contents b
  unfolding map_drom
  map_drom-contents b v p n =
      (faithful.enable_keeps _ _).0
      ∙ faithful.mmu_keeps _ _ v p _ n _
      ∙ (faithful.disable_keeps b).0

  map_drom-window :
      (b : S) (p : ℕ)
      → (map_drom rom b ota0_descriptor_mapping.virtual_start p 1).1 ≡ 0
      → window (map_drom rom b ota0_descriptor_mapping.virtual_start p 1).0 ≡ p
  unfolding map_drom
  map_drom-window b p h = (faithful.enable_keeps _ _).1 ∙ faithful.mmu_moves _ p h

  abbrev Broken : S × Outcome (List ℕ) → Type 0
  Broken r = (code : ℕ) × (r.1 ≡ failed (mapping_failed code)) × (code ≢ 0)

  -- A step from `b` that ends in `r` has `bytes` and the window restored, or fails.
  abbrev Ends : S → List ℕ → S × Outcome (List ℕ) → Type 0
  Ends b bytes r =
      (contents r.0 ≡ contents b)
      × (((r.1 ≡ done bytes) × (window r.0 ≡ ota0_descriptor_mapping.physical_start)) ⊎ Broken r)

  restore-Ends : (b : S) (bytes : List ℕ) → Ends b bytes (restore_window rom b bytes)
  unfolding restore_window
  restore-Ends b bytes =
      if-cases (Ends b bytes)
        (not ((map_drom rom b ota0_descriptor_mapping.virtual_start 0x20000 1).1 == 0))
        (λ e. (kept, inr (_, refl, ground arith)))
        (λ e. (
          kept,
          inl (
            refl,
            (faithful.invalidate_keeps _ _ _).1 ∙ map_drom-window b 0x20000 (ground arith),
          ),
        ))
    where
      kept :
          contents (
            rom.invalidate
              (map_drom rom b ota0_descriptor_mapping.virtual_start 0x20000 1).0
              ota0_descriptor_mapping.virtual_start
              mmu_page_size)
          ≡ contents b
      kept = (faithful.invalidate_keeps _ _ _).0 ∙ map_drom-contents b _ _ _

  -- The chip once a page stands in the window.
  abbrev shown : S → ℕ → S
  shown b page =
      rom.invalidate (map_drom rom b ota0_descriptor_mapping.virtual_start page 1).0
        ota0_descriptor_mapping.virtual_start mmu_page_size

  shown-contents : (b : S) (page : ℕ) → contents (shown b page) ≡ contents b
  shown-contents b page = (faithful.invalidate_keeps _ _ _).0 ∙ map_drom-contents b _ _ _

  shown_copy :
      (b : S) (page offset n : ℕ)
      → offset + n ≤ mmu_page_size
      → (map_drom rom b ota0_descriptor_mapping.virtual_start page 1).1 ≡ 0
      → rom.copy (shown b page) (ota0_descriptor_mapping.virtual_start + offset) n
        ≡ bytes_at (contents b) (page + offset) n
  shown_copy b page offset n fits mapped =
      faithful.copies _ offset n fits
      ∙ ap₂ (λ (f : ℕ → ℕ) (p : ℕ). bytes_at f (p + offset) n) (map_drom-contents b _ _ _)
          (map_drom-window b page mapped)

  restored_page :
      (b : S) (page : ℕ) {bytes bytes' : List ℕ}
      → bytes ≡ bytes'
      → Ends b bytes' (restore_window rom (shown b page) bytes)
  restored_page b page {bytes} e =
      subst (λ c. Ends b c (restore_window rom (shown b page) bytes)) e
        (let (kept, ends) = restore-Ends (shown b page) bytes in
          (kept ∙ shown-contents b page, ends))

  page-Ends :
      (b : S) (page offset n : ℕ)
      → offset + n ≤ mmu_page_size
      → Ends b
          (bytes_at (contents b) (page + offset) n)
          (map_update_page_and_copy rom b page offset n)
  unfolding map_update_page_and_copy
  page-Ends b page offset n fits =
      if-cases (Ends b (bytes_at (contents b) (page + offset) n))
        (not ((map_drom rom b ota0_descriptor_mapping.virtual_start page 1).1 == 0))
        (λ e. (map_drom-contents b _ _ _, inr (_, refl, ground arith)))
        (λ e. restored_page b page (shown_copy b page offset n fits (ground arith)))

  prepend-Ends :
      (b b' : S) (bytes current rest : List ℕ) (r : S × Outcome (List ℕ))
      → contents b' ≡ contents b
      → current ≡ bytes
      → Ends b' rest r
      → Ends b (bytes ++ rest) (prepend current r)
  prepend-Ends b b' bytes current rest (c, done l) kept same (kept', inl (e, w)) =
      (kept' ∙ kept, inl (ground arith, w))
  prepend-Ends b b' bytes current rest (c, done l) kept same (kept', inr (code, e, _)) = cc
  prepend-Ends b b' bytes current rest (c, failed l) kept same (kept', inl (e, w)) = cc
  prepend-Ends b b' bytes current rest (c, failed l) kept same (kept', inr (code, e, n)) =
      (kept' ∙ kept, inr (code, e, n))
  prepend-Ends b b' bytes current rest (c, stuck) kept same (kept', inl (e, w)) = cc
  prepend-Ends b b' bytes current rest (c, stuck) kept same (kept', inr (code, e, _)) = cc

  -- What one round and the rest of the loop give together.
  next-Ends :
      (fuel : ℕ) (b : S) (address part rest : ℕ) (r : S × Outcome (List ℕ))
      → ((b' : S)
          → window b' ≡ ota0_descriptor_mapping.physical_start
          → Ends b'
              (bytes_at (contents b') (address + part) rest)
              (read_pages rom fuel b' (address + part) rest))
      → Ends b (bytes_at (contents b) address part) r
      → Ends b (bytes_at (contents b) address (part + rest)) (elim r.1 [
        | done current ↦ prepend current (read_pages rom fuel r.0 (address + part) rest)
        | failed e ↦ (r.0, failed e)
        | stuck ↦ (r.0, stuck)
      ])
  next-Ends fuel b address part rest (b', done current) loop (kept, inl (e, w)) =
      rw (bytes_at-add (contents b) part rest address) (
        prepend-Ends b b' _ current _ _ kept (cc) (
          subst
            (λ (f : ℕ → ℕ).
              Ends b' (bytes_at f (address + part) rest)
                (read_pages rom fuel b' (address + part) rest))
            kept (loop b' w)))
  next-Ends fuel b address part rest (b', done current) loop (kept, inr (code, e, _)) = cc
  next-Ends fuel b address part rest (b', failed l) loop (kept, inl (e, w)) = cc
  next-Ends fuel b address part rest (b', failed l) loop (kept, inr (code, e, n)) =
      (kept, inr (code, e, n))
  next-Ends fuel b address part rest (b', stuck) loop (kept, inl (e, w)) = cc
  next-Ends fuel b address part rest (b', stuck) loop (kept, inr (code, e, _)) = cc

  pages-Ends :
      (fuel : ℕ) (b : S) (address count : ℕ)
      → count ≤ fuel
      → window b ≡ ota0_descriptor_mapping.physical_start
      → Ends b (bytes_at (contents b) address count) (read_pages rom fuel b address count)
  unfolding read_pages
  pages-Ends zero b address zero h w = (refl, inl (refl, w))
  pages-Ends zero b address (suc count) h w = absurd (omega arith)
  pages-Ends (suc fuel) b address zero h w = (refl, inl (refl, w))
  pages-Ends (suc fuel) b address (suc count) h w =
      let page = address / mmu_page_size * mmu_page_size in
      let part = min (suc count) (mmu_page_size - (address - page)) in
      let start : page + (address - page) ≡ address = omega arith in
      let all : part + (suc count - part) ≡ suc count = omega arith in
      let r = map_update_page_and_copy rom b page (address - page) part in
      let first : Ends b (bytes_at (contents b) address part) r =
        subst (λ (a : ℕ). Ends b (bytes_at (contents b) a part) r) start
          (page-Ends b page (address - page) part (omega arith)) in
      match-cases (Ends b (bytes_at (contents b) address (suc count))) (suc count == 0)
        (λ e. absurd (ground arith))
        (λ _.
          subst
            (λ (n : ℕ). Ends b (bytes_at (contents b) address n) (elim r.1 [
              | done current ↦
                  prepend current (read_pages rom fuel r.0 (address + part) (suc count - part))
              | failed e ↦ (r.0, failed e)
              | stuck ↦ (r.0, stuck)
            ]))
            all
            (next-Ends fuel b address part (suc count - part) r
              (λ b' w'. pages-Ends fuel b' (address + part) (suc count - part) (omega arith) w')
              first))

  abbrev Same : S → S × Outcome (List ℕ) → Type 0
  Same b r = contents r.0 ≡ contents b

  page-contents :
      (b : S) (page offset n : ℕ)
      → contents (map_update_page_and_copy rom b page offset n).0 ≡ contents b
  unfolding map_update_page_and_copy
  page-contents b page offset n =
      if-cases (λ (r : S × Outcome (List ℕ)). contents r.0 ≡ contents b)
        (not ((map_drom rom b ota0_descriptor_mapping.virtual_start page 1).1 == 0))
        (λ e. map_drom-contents b _ _ _)
        (λ e. (restore-Ends (shown b page) _).0 ∙ shown-contents b page)

  next-contents :
      (fuel address rest : ℕ) (r : S × Outcome (List ℕ))
      → ((b : S) → contents (read_pages rom fuel b address rest).0 ≡ contents b)
      → Same r.0 (elim r.1 [
        | done current ↦ prepend current (read_pages rom fuel r.0 address rest)
        | failed e ↦ (r.0, failed e)
        | stuck ↦ (r.0, stuck)
      ])
  next-contents fuel address rest (b, done current) loop =
      prepend-contents current (read_pages rom fuel b address rest) ∙ loop b
    where
      prepend-contents :
          (bytes : List ℕ) (r : S × Outcome (List ℕ)) → contents (prepend bytes r).0 ≡ contents r.0
      prepend-contents bytes (c, done l) = refl
      prepend-contents bytes (c, failed l) = refl
      prepend-contents bytes (c, stuck) = refl
  next-contents fuel address rest (b, failed e) loop = refl
  next-contents fuel address rest (b, stuck) loop = refl

  pages-contents :
      (fuel : ℕ) (b : S) (address count : ℕ)
      → contents (read_pages rom fuel b address count).0 ≡ contents b
  unfolding read_pages
  pages-contents zero b address count = refl
  pages-contents (suc fuel) b address count =
      let page = address / mmu_page_size * mmu_page_size in
      let part = min count (mmu_page_size - (address - page)) in
      let r = map_update_page_and_copy rom b page (address - page) part in
      match-cases (λ (r : S × Outcome (List ℕ)). contents r.0 ≡ contents b) (count == 0) (λ e. refl)
        (λ e.
          next-contents fuel (address + part) (count - part) r
            (λ b'. pages-contents fuel b' (address + part) (count - part))
          ∙ page-contents b page (address - page) part)

  pub read_update-contents :
      (d : Device S) (address count : ℕ)
      → contents (read_update rom d address count).0.chip ≡ contents d.chip
  unfolding read_update
  read_update-contents d address count =
      let P = λ (r : Device S × Outcome (List ℕ)). contents r.0.chip ≡ contents d.chip in
      if-cases P (not d.initialized) (λ e. refl)
        (λ _.
          if-cases P (not (ltb count u32_mod)) (λ e. refl)
            (λ _.
              option-cases P (u32_checked_add address count) (λ e. refl)
                (λ _ _. pages-contents count d.chip address count)))

  abbrev pub DeviceEnds : Device S → List ℕ → Device S × Outcome (List ℕ) → Type 0
  DeviceEnds d bytes r =
      (contents r.0.chip ≡ contents d.chip)
      × (((r.1 ≡ done bytes) × (window r.0.chip ≡ ota0_descriptor_mapping.physical_start))
          ⊎ ((code : ℕ) × (r.1 ≡ failed (mapping_failed code)) × (code ≢ 0)))

  -- `read_update` on an initialised device, of a range within 32 bits, always comes to its end (the
  -- fuel suffices): it returns the plaintext of that very range, or the code of a mapping that the
  -- ROM refused. The plaintext stays, and on success the descriptor's mapping is restored.
  pub read_update_ends :
      (d : Device S) (address count : ℕ)
      → d.initialized ≡ true
      → address + count < u32_mod
      → window d.chip ≡ ota0_descriptor_mapping.physical_start
      → DeviceEnds d (bytes_at (contents d.chip) address count) (read_update rom d address count)
  unfolding read_update
  read_update_ends d address count initialized fits w =
      let P = DeviceEnds d (bytes_at (contents d.chip) address count) in
      if-cases P (not d.initialized) (λ e. absurd (ground arith))
        (λ _.
          if-cases P (not (ltb count u32_mod)) (λ e. absurd (ground arith))
            (λ _.
              option-cases P (u32_checked_add address count) (λ e. absurd (ground arith))
                (λ _ _. pages-Ends count d.chip address count (omega arith) w)))
