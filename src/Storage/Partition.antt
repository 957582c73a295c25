-- ===== src/Storage/Partition.antt =====
-- `checked_absolute_range` of src/platform/storage_layout.rs, and `FidoFlashStorage` of
-- src/platform/storage.rs. `encrypted` is the feature `release-flash-encryption`; the flash driver of
-- the other build is a parameter.
use salpa.Base.{
  ℕ, ◌-◌, ◌*◌, ◌/◌, Bool, not, Option, none, some, List, ltb, if◌then◌else◌, length,
  u32_checked_add,
}
use salpa.FlashEncryption.Driver
use salpa.FlashEncryption.Driver.{Rom, Device, Outcome, done, failed, stuck}

abbrev pub flash_size : ℕ
flash_size = 4 * 1024 * 1024

abbrev pub fido_store_size : ℕ
fido_store_size = 128 * 1024

abbrev pub fido_store_offset : ℕ
fido_store_offset = flash_size - fido_store_size

abbrev pub erase_size : ℕ
erase_size = 4096

abbrev pub fido_store_block_count : ℕ
fido_store_block_count = fido_store_size / erase_size

-- A `usize` has 32 bits.
unfoldable pub checked_absolute_range : ℕ → ℕ → Option (ℕ × ℕ)
checked_absolute_range offset len = elim (u32_checked_add offset len) [
  | none ↦ none
  | some end ↦
      if ltb fido_store_size end then none else elim (u32_checked_add fido_store_offset offset) [
        | none ↦ none
        | some absolute_start ↦ elim (u32_checked_add fido_store_offset end) [
          | none ↦ none
          | some absolute_end ↦ some (absolute_start, absolute_end)
        ]
      ]
]

-- The flash of the build without encryption: `erase` takes the range's start and end.
pub record NorFlash (S : Type 0) : Type 0 where
  pub read : S → ℕ → ℕ → S × Option (List ℕ)
  pub write : S → ℕ → List ℕ → S × Bool
  pub erase : S → ℕ → ℕ → S × Bool

-- `Result<A, Error>`: every error is `Error::IO`, and `stalled` a model loop that ran out of fuel.
pub data Io (A : Type 0) : Type 0 where
  ok : A → Io A
  io_error stalled : Io A

unfoldable pub io_of : {A B : Type 0} → A → Outcome B → Io A
io_of a (done b) = ok a
io_of a (failed e) = io_error
io_of a stuck = stalled

unfoldable pub read_of : Outcome (List ℕ) → Io (List ℕ)
read_of (done bytes) = ok bytes
read_of (failed e) = io_error
read_of stuck = stalled

module _ {S : Type 0} (rom : Rom S) (nor : NorFlash S) (encrypted : Bool) where
  -- `FidoFlashStorage::new`
  unfoldable pub new : Device S → Device S × Io Unit
  unfolding io_of
  new d =
      if not encrypted then (d, ok tt) else let (d, r) = Driver.initialize rom d in (d, io_of tt r)

  -- The bytes of `read` come with their number, those of its buffer.
  unfoldable pub read : Device S → ℕ → ℕ → Device S × Io (List ℕ)
  unfolding checked_absolute_range read_of
  read d offset count = elim (checked_absolute_range offset count) [
    | none ↦ (d, io_error)
    | some (start, end) ↦
        if encrypted
        then (d, read_of (Driver.read rom d start count))
        else let (b, bytes) = nor.read d.chip start count in
          (record d { chip = b }, elim bytes [ none ↦ io_error | some bytes ↦ ok bytes ])
  ]

  unfoldable pub write : Device S → ℕ → List ℕ → Device S × Io ℕ
  unfolding checked_absolute_range io_of
  write d offset bytes = elim (checked_absolute_range offset (length bytes)) [
    | none ↦ (d, io_error)
    | some (start, end) ↦
        if encrypted
        then (let (d, r) = Driver.write rom d start bytes in (d, io_of (length bytes) r))
        else let (b, written) = nor.write d.chip start bytes in
          (record d { chip = b }, if written then ok (length bytes) else io_error)
  ]

  unfoldable pub erase : Device S → ℕ → ℕ → Device S × Io ℕ
  unfolding checked_absolute_range io_of
  erase d offset len = elim (checked_absolute_range offset len) [
    | none ↦ (d, io_error)
    | some (start, end) ↦
        if encrypted
        then (let (d, r) = Driver.erase rom d start len in (d, io_of len r))
        else let (b, erased) = nor.erase d.chip start end in
          (record d { chip = b }, if erased then ok len else io_error)
  ]
