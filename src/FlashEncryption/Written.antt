-- ===== src/FlashEncryption/Written.antt =====
-- What `write_update` of src/platform/flash_encryption.rs stores in erased flash, and what
-- `read_update` then finds there.
use salpa.Base.{
  ℕ, zero, suc, ◌+◌, ◌*◌, ◌/◌, ◌%◌, ◌≤◌, ◌<◌, ◌≡◌, ◌≢◌, ◌⊎◌, inl, inr, true, false, List, [], ◌∷◌,
  ◌++◌, ◌==◌, not, Option, none, some, if-cases, u32_mod, ap, ap₂, subst, refl, arith, ◌∙◌, sym,
  length, take, drop, length-take, length-drop, take-append-drop,
}
use salpa.FlashEncryption.Mapping.{ota0_descriptor_mapping, encrypted_write_is_aligned}
use salpa.FlashEncryption.Driver.{
  Rom, Device, Outcome, done, failed, write_blocks, write_unlocked, write_inner, write_update,
  erase_update, read_update, mapping_failed,
}
use salpa.FlashEncryption.Contents.{bytes_at, bytes_at-add, bytes_at-cong, Faithful, Programs}
use salpa.FlashEncryption.Reading.{read_update_ends}
use salpa.FlashEncryption.Writing.{blocks-Spares, write_update-Spares}
use salpa.FlashEncryption.Erased.{BlankIn, erase_update-Erased, invalidate_after-kept}

module _ {S : Type 0} (rom : Rom S) (contents : S → ℕ → ℕ) (window : S → ℕ) (Blank : S → ℕ → Type 0)
    (faithful : Faithful rom contents window) (programs : Programs rom contents window Blank) where
  abbrev In : S → ℕ → ℕ → Type 0
  In = BlankIn rom contents window Blank faithful programs

  -- The step of the induction: a block at `a` is written without an error, and then the others.
  module _ (a blocks : ℕ) (bytes : List ℕ) (b : S) (r : S × Outcome Unit) where
    abbrev after_block : S × ℕ
    after_block = rom.write_encrypted b a (take 32 bytes) 32

    rest_blank : In b a (suc blocks * 32) → In after_block.0 (a + 32) (blocks * 32)
    rest_blank blank x lo hi =
        programs.write_spares_blank b a (take 32 bytes) x (inr (omega arith))
          (blank x (omega arith) (omega arith))

    step_written :
        a % 32 ≡ 0
        → length bytes ≡ suc blocks * 32
        → In b a (suc blocks * 32)
        → after_block.1 ≡ 0
        → ((x : ℕ) → x < a + 32 → contents r.0 x ≡ contents after_block.0 x)
        → bytes_at (contents r.0) (a + 32) (blocks * 32) ≡ drop 32 bytes
        → bytes_at (contents r.0) a (suc blocks * 32) ≡ bytes
    step_written aligned l blank fine same rest =
        let n : suc blocks * 32 ≡ 32 + blocks * 32 = omega arith in
        let first : bytes_at (contents r.0) a 32 ≡ take 32 bytes =
          bytes_at-cong _ _ a 32 (λ x lo hi. same x hi)
          ∙ programs.writes b a (take 32 bytes) (omega (arith, length-take 32 bytes)) aligned
              (λ x lo hi. blank x lo (omega arith)) fine in
        ap (λ k. bytes_at (contents r.0) a k) n
        ∙ bytes_at-add (contents r.0) 32 (blocks * 32) a
        ∙ ap₂ (λ (u v : List ℕ). u ++ v) first rest
        ∙ take-append-drop 32 bytes

  blocks_written :
      (blocks index : ℕ) (b : S) (address : ℕ) (bytes : List ℕ)
      → address + index * 32 + blocks * 32 ≤ u32_mod
      → address % 32 ≡ 0
      → length bytes ≡ blocks * 32
      → In b (address + index * 32) (blocks * 32)
      → let r = write_blocks rom blocks index b address bytes in
        r.1 ≡ done tt → bytes_at (contents r.0) (address + index * 32) (blocks * 32) ≡ bytes
  unfolding write_blocks
  blocks_written zero index b address [] h aligned l blank = λ e. refl
  blocks_written zero index b address (y ∷ bytes) h aligned l blank = absurd (omega arith)
  blocks_written (suc blocks) index b address bytes h aligned l blank =
      let a : ℕ = address + index * 32 in
      let place : a % u32_mod ≡ a = omega arith in
      let next : address + (index + 1) * 32 ≡ a + 32 = omega arith in
      let P = λ (r : S × Outcome Unit).
        r.1 ≡ done tt → bytes_at (contents r.0) a (suc blocks * 32) ≡ bytes in
      let c = rom.write_encrypted b a (take 32 bytes) 32 in
      let r = write_blocks rom blocks (index + 1) c.0 address (drop 32 bytes) in
      let spared =
        blocks-Spares rom contents window faithful blocks (index + 1) c.0 address (drop 32 bytes)
          (omega arith) in
      let rest =
        blocks_written blocks (index + 1) c.0 address (drop 32 bytes) (omega arith) aligned
          (omega (arith, length-drop 32 bytes))
          (subst (λ (p : ℕ). In c.0 p (blocks * 32)) (sym next)
            (rest_blank a blocks bytes b r blank)) in
      rw place (
        if-cases P (not (c.1 == 0)) (λ _ e. cc)
          (λ fine e.
            step_written a blocks bytes b r (omega arith) l blank (ground arith)
              (λ x lt. spared.outside x (inl (omega arith)))
              (subst (λ (p : ℕ). bytes_at (contents r.0) p (blocks * 32) ≡ drop 32 bytes) next
                (rest e))))

  unlocked_written :
      (address : ℕ) (bytes : List ℕ)
      → address % 32 ≡ 0
      → length bytes ≡ length bytes / 32 * 32
      → address + length bytes ≤ u32_mod
      → (u : S × Option ℕ) → In u.0 address (length bytes)
      → let r = write_unlocked rom false address bytes u in
        r.1 ≡ done tt → bytes_at (contents r.0) address (length bytes) ≡ bytes
  unfolding write_unlocked
  unlocked_written address bytes aligned whole fits (b, some code) blank = λ e. cc
  unlocked_written address bytes aligned whole fits (b, none) blank =
      let blocks = length bytes / 32 in
      let r = write_blocks rom blocks 0 b address bytes in
      let start : address + 0 * 32 ≡ address = omega arith in
      let P = λ (r : S × Outcome Unit).
        r.1 ≡ done tt → bytes_at (contents r.0) address (length bytes) ≡ bytes in
      subst P (sym (invalidate_after-kept rom address (length bytes) r)) (λ e.
        subst (λ (n : ℕ). bytes_at (contents r.0) address n ≡ bytes) (sym whole)
          (subst (λ (a : ℕ). bytes_at (contents r.0) a (blocks * 32) ≡ bytes) start
            (blocks_written blocks 0 b address bytes (omega arith) aligned whole
              (λ x lo hi. blank x (omega arith) (omega arith)) e)))

  write_update_written :
      (d : Device S) (address : ℕ) (bytes : List ℕ)
      → address + length bytes ≤ u32_mod
      → In d.chip address (length bytes)
      → let r = write_update rom d address bytes in
        r.1 ≡ done tt
        → (bytes_at (contents r.0.chip) address (length bytes) ≡ bytes) × (r.0.initialized ≡ true)
  unfolding write_update write_inner
  write_update_written d address bytes fits blank =
      let P = λ (r : Device S × Outcome Unit).
        r.1 ≡ done tt
        → (bytes_at (contents r.0.chip) address (length bytes) ≡ bytes)
          × (r.0.initialized ≡ true) in
      if-cases P (not d.initialized) (λ _ e. cc)
        (λ ready.
          if-cases P (not (encrypted_write_is_aligned address (length bytes))) (λ _ e. cc)
            (λ aligned e. (
              unlocked_written address bytes (unfold encrypted_write_is_aligned in ground arith)
                  (unfold encrypted_write_is_aligned in ground arith) fits (rom.unlock d.chip)
                  (λ x lo hi. programs.unlock_blank d.chip x (blank x lo hi)) e,
              ground arith,
            )))

  -- Bytes that `write_update` has written within a range that `erase_update` has erased just before,
  -- to a device whose descriptor mapping is in place, are what `read_update` then returns for their
  -- range, unless the ROM refuses a mapping.
  pub read_update-write_update :
      (d : Device S) (start count address : ℕ) (bytes : List ℕ)
      → start ≤ address
      → address + length bytes ≤ start + count
      → address + length bytes < u32_mod
      → window d.chip ≡ ota0_descriptor_mapping.physical_start
      → (erase_update rom d start count).1 ≡ done tt
      → (write_update rom (erase_update rom d start count).0 address bytes).1 ≡ done tt
      → let written = (write_update rom (erase_update rom d start count).0 address bytes).0 in
        let r = read_update rom written address (length bytes) in
        (r.1 ≡ done bytes) ⊎ ((code : ℕ) × (r.1 ≡ failed (mapping_failed code)) × (code ≢ 0))
  read_update-write_update d start count address bytes from upto fits w erased e =
      let blank =
        erase_update-Erased rom contents window Blank faithful programs d start count erased in
      let d' = (erase_update rom d start count).0 in
      let (same, ready) =
        write_update_written d' address bytes (omega arith)
          (λ x lo hi. blank.erased x (omega arith) (omega arith)) e in
      let kept =
        (write_update-Spares rom contents window faithful d' address bytes (omega arith)).still in
      elim (read_update_ends rom contents window faithful (write_update rom d' address bytes).0
        address (length bytes) ready fits (kept ∙ blank.still ∙ w)).1 [
          | inl (read, _) ↦ inl (read ∙ ap (λ (l : List ℕ). done l) same)
          | inr broken ↦ inr broken
        ]
