-- ===== src/Storage/Confined.antt =====
-- The credential store of src/platform/storage.rs stays in its partition.
use salpa.Base.{
  ℕ, ◌+◌, ◌≤◌, ◌<◌, ◌≡◌, inl, inr, refl, Bool, some, List, [], ◌∷◌, length, u32_mod, if-cases,
  option-cases, arith, ◌∙◌, subst, sym,
}
use salpa.FlashEncryption.Driver.{Rom, Device}
use salpa.FlashEncryption.Contents.{Faithful, Beyond}
use salpa.FlashEncryption.Writing.{write-outside}
use salpa.FlashEncryption.Erasing.{erase-outside}
use salpa.Storage.Partition.{
  NorFlash, Io, checked_absolute_range, fido_store_offset, fido_store_size, flash_size, read, write,
  erase,
}

-- A range is given exactly where it lies in the partition, and then it is that of the flash, which
-- the partition ends.
pub checked_absolute_range_lem :
    (offset len start end : ℕ)
    → checked_absolute_range offset len ≡ some (start, end)
    → (start ≡ fido_store_offset + offset) × (end ≡ start + len) × (end ≤ flash_size)
unfolding checked_absolute_range
checked_absolute_range_lem offset len start end e = ground arith

-- What the plain flash driver leaves alone.
pub record Precise {S : Type 0} (nor : NorFlash S) (contents : S → ℕ → ℕ) : Type 0 where
  pub read : (b : S) (at n x : ℕ) → contents (nor.read b at n).0 x ≡ contents b x
  pub write :
      (b : S) (at : ℕ) (bytes : List ℕ) (x : ℕ)
      → Beyond at (length bytes) x
      → contents (nor.write b at bytes).0 x ≡ contents b x
  pub erase :
      (b : S) (start count x : ℕ)
      → Beyond start count x
      → contents (nor.erase b start (start + count)).0 x ≡ contents b x

-- What littlefs may ask of the storage.
pub data Request : Type 0 where
  reading : ℕ → ℕ → Request
  writing : ℕ → List ℕ → Request
  erasing : ℕ → ℕ → Request

module _ {S : Type 0} (rom : Rom S) (nor : NorFlash S) (encrypted : Bool) where
  unfoldable pub serve : Device S → Request → Device S
  unfolding read write erase
  serve d (reading offset count) = (read rom nor encrypted d offset count).0
  serve d (writing offset bytes) = (write rom nor encrypted d offset bytes).0
  serve d (erasing offset len) = (erase rom nor encrypted d offset len).0

  unfoldable pub serve_all : Device S → List Request → Device S
  unfolding serve
  serve_all d [] = d
  serve_all d (r ∷ rs) = serve_all (serve d r) rs

module _ {S : Type 0} (rom : Rom S) (nor : NorFlash S) (encrypted : Bool) (contents : S → ℕ → ℕ)
    (window : S → ℕ) (faithful : Faithful rom contents window) (precise : Precise nor contents)
    (x : ℕ) (outside : Beyond fido_store_offset fido_store_size x) where
  -- A range of the partition does not reach an address outside the partition.
  apart :
      (offset len start end : ℕ)
      → checked_absolute_range offset len ≡ some (start, end)
      → Beyond start len x × (start + len < u32_mod) × (end ≡ start + len)
  apart offset len start end e =
      let facts = checked_absolute_range_lem offset len start end e in
      elim outside [
        | inl lo ↦ (inl (omega arith), omega arith, facts.1)
        | inr hi ↦ (inr (omega arith), omega arith, facts.1)
      ]

  abbrev Same : {A : Type 0} → Device S → Device S × A → Type 0
  Same d r = contents r.0.chip x ≡ contents d.chip x

  read-Same : (d : Device S) (offset count : ℕ) → Same d (read rom nor encrypted d offset count)
  unfolding read
  read-Same d offset count =
      let P : Device S × Io (List ℕ) → Type 0 = λ r. Same d r in
      option-cases P (checked_absolute_range offset count) (λ _. refl)
        (λ range e. if-cases P encrypted (λ _. refl) (λ _. precise.read d.chip range.0 count x))

  write-Same :
      (d : Device S) (offset : ℕ) (bytes : List ℕ) → Same d (write rom nor encrypted d offset bytes)
  unfolding write
  write-Same d offset bytes =
      let P : Device S × Io ℕ → Type 0 = λ r. Same d r in
      option-cases P (checked_absolute_range offset (length bytes)) (λ _. refl)
        (λ range e.
          let (o, fits, same) = apart offset (length bytes) range.0 range.1 e in
          if-cases P encrypted
            (λ _. write-outside rom contents window faithful d range.0 bytes x (omega arith) o)
            (λ _. precise.write d.chip range.0 bytes x o))

  erase-Same : (d : Device S) (offset len : ℕ) → Same d (erase rom nor encrypted d offset len)
  unfolding erase
  erase-Same d offset len =
      let P : Device S × Io ℕ → Type 0 = λ r. Same d r in
      option-cases P (checked_absolute_range offset len) (λ _. refl)
        (λ range e.
          let (o, fits, same) = apart offset len range.0 range.1 e in
          if-cases P encrypted
            (λ _. erase-outside rom contents window faithful d range.0 len x fits o)
            (λ _.
              subst (λ (end : ℕ). contents (nor.erase d.chip range.0 end).0 x ≡ contents d.chip x)
                (sym same) (precise.erase d.chip range.0 len x o)))

  serve-Same :
      (d : Device S) (r : Request)
      → contents (serve rom nor encrypted d r).chip x ≡ contents d.chip x
  unfolding serve
  serve-Same d (reading offset count) = read-Same d offset count
  serve-Same d (writing offset bytes) = write-Same d offset bytes
  serve-Same d (erasing offset len) = erase-Same d offset len

  -- Whatever the file system asks of the storage, in any order and however it ends, no plaintext
  -- outside the partition changes, on encrypted and on plain flash. The plain driver is taken to
  -- write and erase no more than the range it is given, and the ROM that of its call.
  pub store_confined :
      (d : Device S) (rs : List Request)
      → contents (serve_all rom nor encrypted d rs).chip x ≡ contents d.chip x
  unfolding serve_all
  store_confined d [] = refl
  store_confined d (r ∷ rs) = store_confined (serve rom nor encrypted d r) rs ∙ serve-Same d r
