-- ===== src/FlashEncryption/Contents.antt =====
-- What src/platform/flash_encryption.rs relies on: the plaintext that a cache mapping shows, and
-- what writing and erasing leave alone.
use salpa.Base.{
  ℕ, zero, suc, ◌+◌, ◌*◌, ◌%◌, ◌≤◌, ◌<◌, ◌≡◌, ◌⊎◌, List, [], ◌∷◌, ◌++◌, length, ap, ap₂, refl,
  arith, none,
}
use native.Mathlib.Nat.{zero-add, add-zero, suc-add}
use salpa.FlashEncryption.Mapping.{mmu_page_size, ota0_descriptor_mapping}
use salpa.FlashEncryption.Driver.{Rom, mmu_access_flash}

-- The bytes of a range.
abbrev pub bytes_at : (ℕ → ℕ) → ℕ → ℕ → List ℕ
bytes_at contents address zero = []
bytes_at contents address (suc n) = contents address ∷ bytes_at contents (address + 1) n

pub length-bytes_at : (f : ℕ → ℕ) (a n : ℕ) → length (bytes_at f a n) ≡ n
length-bytes_at f a zero = omega arith
length-bytes_at f a (suc n) = omega (arith, length-bytes_at f (a + 1) n)

pub bytes_at-add :
    (f : ℕ → ℕ) (n m a : ℕ) → bytes_at f a (n + m) ≡ bytes_at f a n ++ bytes_at f (a + n) m
bytes_at-add f zero m a = rw (zero-add, add-zero)
bytes_at-add f (suc n) m a =
    let e : a + suc n ≡ a + 1 + n = omega arith in
    rw (suc-add, e) (ap (λ l. f a ∷ l) (bytes_at-add f n m (a + 1)))

pub bytes_at-cong :
    (f g : ℕ → ℕ) (a n : ℕ)
    → ((x : ℕ) → a ≤ x → x < a + n → f x ≡ g x)
    → bytes_at f a n ≡ bytes_at g a n
bytes_at-cong f g a zero same = refl
bytes_at-cong f g a (suc n) same =
    ap₂ (λ (x : ℕ) (l : List ℕ). x ∷ l) (same a (omega arith) (omega arith))
      (bytes_at-cong f g (a + 1) n (λ x lo hi. same x (omega arith) (omega arith)))

-- An address outside a range.
abbrev pub Beyond : ℕ → ℕ → ℕ → Type 0
Beyond address count x = (x < address) ⊎ (address + count ≤ x)

-- `contents` is the plaintext at each physical address, `window` the physical page that the
-- descriptor's virtual page shows.
pub record Faithful {S : Type 0} (rom : Rom S) (contents : S → ℕ → ℕ) (window : S → ℕ)
    : Type 0 where
  pub disable_keeps :
      (b : S)
      → (contents (rom.disable_icache b).0 ≡ contents b)
        × (window (rom.disable_icache b).0 ≡ window b)
  pub enable_keeps :
      (b : S) (autoload : ℕ)
      → (contents (rom.enable_icache b autoload) ≡ contents b)
        × (window (rom.enable_icache b autoload) ≡ window b)
  pub invalidate_keeps :
      (b : S) (v n : ℕ)
      → (contents (rom.invalidate b v n) ≡ contents b) × (window (rom.invalidate b v n) ≡ window b)
  pub unlock_keeps :
      (b : S) → (contents (rom.unlock b).0 ≡ contents b) × (window (rom.unlock b).0 ≡ window b)
  pub mmu_keeps : (b : S) (e v p k n f : ℕ) → contents (rom.mmu_set b e v p k n f).0 ≡ contents b
  pub mmu_moves :
      (b : S) (p : ℕ)
      → (rom.mmu_set b mmu_access_flash ota0_descriptor_mapping.virtual_start p 64 1 0).1 ≡ 0
      → window (rom.mmu_set b mmu_access_flash ota0_descriptor_mapping.virtual_start p 64 1 0).0 ≡ p
  pub copies :
      (b : S) (offset n : ℕ)
      → offset + n ≤ mmu_page_size
      → rom.copy
          (rom.invalidate b ota0_descriptor_mapping.virtual_start mmu_page_size)
          (ota0_descriptor_mapping.virtual_start + offset)
          n
        ≡ bytes_at (contents b) (window b + offset) n
  pub write_spares :
      (b : S) (a : ℕ) (block : List ℕ) (x : ℕ)
      → Beyond a 32 x
      → contents (rom.write_encrypted b a block 32).0 x ≡ contents b x
  pub write_window :
      (b : S) (a : ℕ) (block : List ℕ) → window (rom.write_encrypted b a block 32).0 ≡ window b
  pub erase_spares :
      (b : S) (sector x : ℕ)
      → Beyond (sector * 0x1000) 0x1000 x
      → contents (rom.erase_sector b sector).0 x ≡ contents b x

-- How the ROM documents the programming of flash: a block of 32 bytes that it writes over erased
-- flash is stored, and a sector that it erases is erased then. `Blank` says that the flash at an
-- address is erased; writing and erasing keep it so outside of what they are asked for.
pub record Programs {S : Type 0} (rom : Rom S) (contents : S → ℕ → ℕ) (window : S → ℕ)
    (Blank : S → ℕ → Type 0) : Type 0 where
  pub writes :
      (b : S) (a : ℕ) (block : List ℕ)
      → length block ≡ 32
      → a % 32 ≡ 0
      → ((x : ℕ) → a ≤ x → x < a + 32 → Blank b x)
      → (rom.write_encrypted b a block 32).1 ≡ 0
      → bytes_at (contents (rom.write_encrypted b a block 32).0) a 32 ≡ block
  pub write_spares_blank :
      (b : S) (a : ℕ) (block : List ℕ) (x : ℕ)
      → Beyond a 32 x
      → Blank b x
      → Blank (rom.write_encrypted b a block 32).0 x
  pub erases :
      (b : S) (sector x : ℕ)
      → (rom.erase_sector b sector).1 ≡ none
      → sector * 0x1000 ≤ x
      → x < sector * 0x1000 + 0x1000
      → Blank (rom.erase_sector b sector).0 x
  pub erase_spares_blank :
      (b : S) (sector x : ℕ)
      → Beyond (sector * 0x1000) 0x1000 x
      → Blank b x
      → Blank (rom.erase_sector b sector).0 x
  pub erase_window : (b : S) (sector : ℕ) → window (rom.erase_sector b sector).0 ≡ window b
  pub unlock_blank : (b : S) (x : ℕ) → Blank b x → Blank (rom.unlock b).0 x
