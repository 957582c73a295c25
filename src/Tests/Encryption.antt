-- ===== src/Tests/Encryption.antt =====
-- The encrypted flash of src/platform/flash_encryption.rs over a chip whose ROM works.
use salpa.Base.{
  ℕ, suc, ◌+◌, ◌-◌, ◌*◌, ◌%◌, ◌≤◌, ◌<◌, ◌≡◌, ◌≢◌, ◌⊎◌, refl, ap, ap₂, subst, ◌∙◌, true, false, none,
  some, List, [], ◌∷◌, length, byte, replicate, ltb, leb, ◌==◌, ◌&&◌, if◌then◌else◌, arith,
}
use salpa.FlashEncryption.Mapping.{
  mapped_virtual_address, mapped_in_window, mapped_apart, mmu_page_size, reserved_drom_start,
  reserved_drom_end,
}
use salpa.FlashEncryption.Driver.{
  Rom, Device, done, failed, mapping_failed, read_update, write_update, erase_update, initialize,
}
use salpa.FlashEncryption.Contents.{bytes_at, Faithful, Programs, Beyond}
use salpa.FlashEncryption.Reading.{DeviceEnds, read_update_ends}
use salpa.FlashEncryption.Written.{read_update-write_update}
use salpa.FlashEncryption.Erasing.{updates_confined}

mapped_in_window_example :
    (reserved_drom_start ≤ 0x3f39f000)
    × (0x3f39f000 + 32 ≤ reserved_drom_end)
    × (◌≡◌ {A = ℕ} (0x3f39f000 % mmu_page_size) (0xf000 % mmu_page_size))
mapped_in_window_example =
    mapped_in_window 0xf000 32 0x3f39f000 (unfold mapped_virtual_address in refl)

mapped_apart_example : ◌≡◌ {A = ℕ} (0x20020 + 4) (0x20000 + 36)
mapped_apart_example =
    mapped_apart 0x20020 256 0x3f3b0020 0x20000 64 0x3f3b0000 4 36
      (unfold mapped_virtual_address in refl) (unfold mapped_virtual_address in refl) (omega arith)
      (omega arith) (omega arith)

-- The checks of `mappings_cover_release_reads`.
release_reads :
    (mapped_virtual_address 0x10000 32 ≡ some 0x3f3a0000)
    × (mapped_virtual_address 0x200020 256 ≡ some 0x3f3c0020)
    × (mapped_virtual_address 0x3e0000 0x20000 ≡ some 0x3f3d0000)
    × (mapped_virtual_address 0x3dffff 2 ≡ none)
    × (mapped_virtual_address 0x3fffff 2 ≡ none)
unfolding mapped_virtual_address
release_reads = (refl, refl, refl, refl, refl)

pub record Chip : Type 0 where
  pub cells : ℕ → ℕ
  pub window : ℕ

abbrev pub inside : ℕ → ℕ → ℕ → ℕ → ℕ → ℕ
inside a n x new old = if leb a x && ltb x (a + n) then new else old

abbrev pub rom : Rom Chip
rom = record {
  flash_encryption = λ b. true;
  disable_icache = λ b. (b, 0);
  mmu_set = λ b e v p k n f. (record b { window = if v == 0x3f3b0000 then p else b.window }, 0);
  enable_icache = λ b autoload. b;
  invalidate = λ b v n. b;
  copy = λ b v n.
      bytes_at b.cells (if ltb v 0x3f3b0000 then v - 0x3f390000 else b.window + (v - 0x3f3b0000)) n;
  unlock = λ b. (b, none);
  write_encrypted =
      λ b a block n. (record b { cells = λ x. inside a n x (byte block (x - a)) (b.cells x) }, 0);
  erase_sector = λ b sector.
      (record b { cells = λ x. inside (sector * 0x1000) 0x1000 x 255 (b.cells x) }, none);
}

bytes_at_block :
    (l : List ℕ) (g : ℕ → ℕ) (a : ℕ)
    → ((i : ℕ) → i < length l → g (a + i) ≡ byte l i)
    → bytes_at g a (length l) ≡ l
bytes_at_block [] g a same = refl
bytes_at_block (x ∷ l) g a same =
    ap₂ (λ (x : ℕ) (l : List ℕ). x ∷ l)
      (let z : a ≡ a + 0 = omega arith in ap g z ∙ same 0 (omega arith))
      (bytes_at_block l g (a + 1) (λ i lt.
        let z : a + 1 + i ≡ a + suc i = omega arith in ap g z ∙ same (suc i) (omega arith)))

written_block :
    (old : ℕ → ℕ) (block : List ℕ) (a i : ℕ)
    → length block ≡ 32
    → i < length block
    → inside a 32 (a + i) (byte block (a + i - a)) (old (a + i)) ≡ byte block i
written_block old block a i l lt = let z : a + i - a ≡ i = omega arith in rw z (ground arith)

shown :
    (window offset : ℕ)
    → (if ltb (0x3f3b0000 + offset) 0x3f3b0000
        then 0x3f3b0000 + offset - 0x3f390000
        else window + (0x3f3b0000 + offset - 0x3f3b0000))
      ≡ window + offset
shown window offset = ground arith

pub rom-Faithful : Faithful rom (λ (b : Chip). b.cells) (λ (b : Chip). b.window)
rom-Faithful = record {
  disable_keeps = λ b. (refl, refl);
  enable_keeps = λ b autoload. (refl, refl);
  invalidate_keeps = λ b v n. (refl, refl);
  unlock_keeps = λ b. (refl, refl);
  mmu_keeps = λ b e v p k n f. refl;
  mmu_moves = λ b p z. refl;
  copies = λ b offset n fits. ap (λ (a : ℕ). bytes_at b.cells a n) (shown b.window offset);
  write_spares = λ b a block x o. ground arith;
  write_window = λ b a block. refl;
  erase_spares = λ b sector x o. ground arith;
}

-- Erased flash reads as ones.
Ones : Chip → ℕ → Type 0
Ones b x = b.cells x ≡ 255

rom-Programs : Programs rom (λ (b : Chip). b.cells) (λ (b : Chip). b.window) Ones
unfolding Ones
rom-Programs = record {
  writes = λ b a block l aligned blank z.
      subst (λ (n : ℕ). bytes_at (λ x. inside a 32 x (byte block (x - a)) (b.cells x)) a n ≡ block)
        l (bytes_at_block block _ a (λ i lt. written_block b.cells block a i l lt));
  write_spares_blank = λ b a block x o e. ground arith;
  erases = λ b sector x fine lo hi. ground arith;
  erase_spares_blank = λ b sector x o e. ground arith;
  erase_window = λ b sector. refl;
  unlock_blank = λ b x e. e;
}

abbrev blank : Device Chip
blank = record { initialized = false; chip = record { cells = λ x. x % 256; window = 0 } }

abbrev ready : Device Chip
ready = record { initialized = true; chip = record { cells = λ x. x % 256; window = 0x20000 } }

-- Mapping all regions leaves the window on the first slot's descriptor.
initialized : (initialize rom blank).0.chip.window ≡ 0x20000
unfolding initialize
initialized = refl

-- A read over the end of a page.
crossing : (read_update rom ready 0x2fffe 4).1 ≡ done (254 ∷ 255 ∷ 0 ∷ 1 ∷ [])
unfolding read_update
crossing = refl

read_update_ends_example :
    DeviceEnds rom
      (λ (b : Chip). b.cells)
      (λ (b : Chip). b.window)
      rom-Faithful
      ready
      (254 ∷ 255 ∷ 0 ∷ 1 ∷ [])
      (read_update rom ready 0x2fffe 4)
read_update_ends_example =
    read_update_ends rom (λ (b : Chip). b.cells) (λ (b : Chip). b.window) rom-Faithful ready 0x2fffe
      4 refl (omega arith) refl

abbrev block : List ℕ
block = replicate 32 7

erases : (erase_update rom ready 0x40000 0x1000).1 ≡ done tt
unfolding erase_update
erases = refl

accepted : (write_update rom (erase_update rom ready 0x40000 0x1000).0 0x40020 block).1 ≡ done tt
unfolding erase_update write_update
accepted = refl

read_update-write_update_example :
    let written = (write_update rom (erase_update rom ready 0x40000 0x1000).0 0x40020 block).0 in
    let r = read_update rom written 0x40020 32 in
    (r.1 ≡ done block) ⊎ ((code : ℕ) × (r.1 ≡ failed (mapping_failed code)) × (code ≢ 0))
read_update-write_update_example =
    read_update-write_update rom (λ (b : Chip). b.cells) (λ (b : Chip). b.window) Ones rom-Faithful
      rom-Programs ready 0x40000 0x1000 0x40020 block (omega arith) (omega arith) (omega arith) refl
      erases accepted

updates_confined_example :
    (Beyond 0x40000 32 5 → (write_update rom ready 0x40000 block).0.chip.cells 5 ≡ 5)
    × (Beyond 0x40000 0x1000 5 → (erase_update rom ready 0x40000 0x1000).0.chip.cells 5 ≡ 5)
updates_confined_example =
    updates_confined rom (λ (b : Chip). b.cells) (λ (b : Chip). b.window) rom-Faithful ready 0x40000
      0x1000 5 block (omega arith) (omega arith)
