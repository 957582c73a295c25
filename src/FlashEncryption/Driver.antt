-- ===== src/FlashEncryption/Driver.antt =====
-- The operations of src/platform/flash_encryption.rs on an encrypted flash. The ROM's functions, the
-- cached window and the eFuse are parameters; a result code is its bit pattern, 0 for success.
use salpa.Base.{
  ℕ, zero, suc, ◌+◌, ◌-◌, ◌*◌, ◌/◌, ◌%◌, min, Bool, true, false, not, ◌||◌, Option, none, some,
  List, [], ◌∷◌, ◌++◌, ltb, ◌==◌, if◌then◌else◌, take, drop, length, u32_mod, u32_checked_add,
}
use salpa.FlashEncryption.Mapping.{
  Mapping, mappings, mmu_page_size, ota0_descriptor_mapping, mapped_virtual_address,
  encrypted_write_is_aligned,
}

pub data FlashEncryptionError : Type 0 where
  disabled unmapped_range not_aligned : FlashEncryptionError
  mapping_failed unlock_failed erase_failed write_failed : ℕ → FlashEncryptionError

-- `Result<A, FlashEncryptionError>`, and `stuck` for a model loop that ran out of fuel.
pub data Outcome (A : Type 0) : Type 0 where
  done : A → Outcome A
  failed : FlashEncryptionError → Outcome A
  stuck : Outcome A

-- `copy` reads the bytes at a virtual address; `unlock` and `erase_sector` return an error's code.
pub record Rom (S : Type 0) : Type 0 where
  pub flash_encryption : S → Bool
  pub disable_icache : S → S × ℕ
  pub mmu_set : S → ℕ → ℕ → ℕ → ℕ → ℕ → ℕ → S × ℕ
  pub enable_icache : S → ℕ → S
  pub invalidate : S → ℕ → ℕ → S
  pub copy : S → ℕ → ℕ → List ℕ
  pub unlock : S → S × Option ℕ
  pub write_encrypted : S → ℕ → List ℕ → ℕ → S × ℕ
  pub erase_sector : S → ℕ → S × Option ℕ

-- `initialized` is the static `INITIALIZED`.
pub record Device (S : Type 0) : Type 0 where
  pub initialized : Bool
  pub chip : S

abbrev pub mmu_access_flash : ℕ
mmu_access_flash = 0x8000

-- The state of the device after a step on the chip.
abbrev pub on_chip : {S A : Type 0} → Device S → S × Outcome A → Device S × Outcome A
on_chip d r = (record d { chip = r.0 }, r.1)

abbrev pub prepend : {S : Type 0} → List ℕ → S × Outcome (List ℕ) → S × Outcome (List ℕ)
prepend bytes r = elim r.1 [
  | done rest ↦ (r.0, done (bytes ++ rest))
  | failed e ↦ (r.0, failed e)
  | stuck ↦ (r.0, stuck)
]

module _ {S : Type 0} (rom : Rom S) where
  unfoldable pub map_drom : S → ℕ → ℕ → ℕ → S × ℕ
  map_drom b virtual_address physical_address page_count =
      let (b, autoload) = rom.disable_icache b in
      let (b, result) =
        rom.mmu_set b mmu_access_flash virtual_address physical_address (mmu_page_size / 1024)
          page_count 0 in
      (rom.enable_icache b autoload, result)

  unfoldable pub map_release_regions : List Mapping → S → S × Outcome Unit
  unfolding map_drom
  map_release_regions [] b = (b, done tt)
  map_release_regions (mapping ∷ others) b =
      let (b, result) =
        map_drom b mapping.virtual_start mapping.physical_start (mapping.size / mmu_page_size) in
      let rest = map_release_regions others b in
      if not (result == 0) then (b, failed (mapping_failed result)) else rest

  -- `initialize`, once the regions are mapped.
  unfoldable pub mark_initialized : Device S → S × Outcome Unit → Device S × Outcome Unit
  mark_initialized d r = elim r.1 [
    | done _ ↦ (record { initialized = true; chip = r.0 }, done tt)
    | failed e ↦ (record d { chip = r.0 }, failed e)
    | stuck ↦ (record d { chip = r.0 }, stuck)
  ]

  unfoldable pub initialize : Device S → Device S × Outcome Unit
  unfolding map_release_regions mark_initialized
  initialize d =
      if not (rom.flash_encryption d.chip)
      then (d, failed disabled)
      else if d.initialized
      then (d, done tt)
      else mark_initialized d (map_release_regions mappings d.chip)

  unfoldable pub read : Device S → ℕ → ℕ → Outcome (List ℕ)
  unfolding mapped_virtual_address
  read d address count =
      if not d.initialized then failed disabled else elim (mapped_virtual_address address count) [
        | none ↦ failed unmapped_range
        | some virtual_address ↦ done (rom.copy d.chip virtual_address count)
      ]

  -- `map_update_page_and_copy`, once the bytes are copied.
  unfoldable pub restore_window : S → List ℕ → S × Outcome (List ℕ)
  unfolding map_drom
  restore_window b bytes =
      let (b, restored) =
        map_drom b ota0_descriptor_mapping.virtual_start ota0_descriptor_mapping.physical_start 1 in
      let b = rom.invalidate b ota0_descriptor_mapping.virtual_start mmu_page_size in
      if not (restored == 0) then (b, failed (mapping_failed restored)) else (b, done bytes)

  unfoldable pub map_update_page_and_copy : S → ℕ → ℕ → ℕ → S × Outcome (List ℕ)
  unfolding map_drom restore_window
  map_update_page_and_copy b physical_page page_offset count =
      let (b, mapped) = map_drom b ota0_descriptor_mapping.virtual_start physical_page 1 in
      if not (mapped == 0)
      then (b, failed (mapping_failed mapped))
      else let b = rom.invalidate b ota0_descriptor_mapping.virtual_start mmu_page_size in
        restore_window b (rom.copy b (ota0_descriptor_mapping.virtual_start + page_offset) count)

  -- The loop of `read_update`, on fuel. The caller's buffer is not read after an error.
  unfoldable pub read_pages : ℕ → S → ℕ → ℕ → S × Outcome (List ℕ)
  unfolding map_update_page_and_copy
  read_pages zero b address count = (b, if count == 0 then done [] else stuck)
  read_pages (suc fuel) b address count = elim (count == 0) [
    | true ↦ (b, done [])
    | false ↦
        let physical_page = address / mmu_page_size * mmu_page_size in
        let page_offset = address - physical_page in
        let part = min count (mmu_page_size - page_offset) in
        let r = map_update_page_and_copy b physical_page page_offset part in
        elim r.1 [
          | done current ↦ prepend current (read_pages fuel r.0 (address + part) (count - part))
          | failed e ↦ (r.0, failed e)
          | stuck ↦ (r.0, stuck)
        ]
  ]

  unfoldable pub read_update : Device S → ℕ → ℕ → Device S × Outcome (List ℕ)
  unfolding read_pages
  read_update d address count =
      if not d.initialized
      then (d, failed disabled)
      else if not (ltb count u32_mod)
      then (d, failed unmapped_range)
      else elim (u32_checked_add address count) [
        | none ↦ (d, failed unmapped_range)
        | some _ ↦ on_chip d (read_pages count d.chip address count)
      ]

  unfoldable pub invalidate_physical_range : S → ℕ → ℕ → S × Outcome Unit
  unfolding mapped_virtual_address
  invalidate_physical_range b physical_address count =
      elim (mapped_virtual_address physical_address count) [
        | none ↦ (b, failed unmapped_range)
        | some virtual_address ↦
            if not (ltb count u32_mod)
            then (b, failed unmapped_range)
            else (rom.invalidate b virtual_address count, done tt)
      ]

  -- The end of `write_inner` and of `erase_inner`, once their loop is over.
  unfoldable pub invalidate_after : Bool → ℕ → ℕ → S × Outcome Unit → S × Outcome Unit
  unfolding invalidate_physical_range
  invalidate_after fixed_mapping address count r = elim r.1 [
    | done _ ↦ if fixed_mapping then invalidate_physical_range r.0 address count else (r.0, done tt)
    | failed e ↦ (r.0, failed e)
    | stuck ↦ (r.0, stuck)
  ]

  -- The loop over the blocks of 32 bytes, from block `index` on; where the address leaves 32 bits,
  -- which the code stops at, it wraps.
  unfoldable pub write_blocks : ℕ → ℕ → S → ℕ → List ℕ → S × Outcome Unit
  write_blocks zero index b address bytes = (b, done tt)
  write_blocks (suc blocks) index b address bytes =
      let (b, result) =
        rom.write_encrypted b ((address + index * 32) % u32_mod) (take 32 bytes) 32 in
      let rest = write_blocks blocks (index + 1) b address (drop 32 bytes) in
      if not (result == 0) then (b, failed (write_failed result)) else rest

  unfoldable pub write_unlocked : Bool → ℕ → List ℕ → S × Option ℕ → S × Outcome Unit
  unfolding write_blocks invalidate_after
  write_unlocked fixed_mapping address bytes r = elim r.1 [
    | some code ↦ (r.0, failed (unlock_failed code))
    | none ↦
        invalidate_after fixed_mapping address (length bytes)
          (write_blocks (length bytes / 32) 0 r.0 address bytes)
  ]

  unfoldable pub write_inner : Device S → ℕ → List ℕ → Bool → Device S × Outcome Unit
  unfolding encrypted_write_is_aligned write_unlocked
  write_inner d address bytes fixed_mapping =
      if not d.initialized
      then (d, failed disabled)
      else if not (encrypted_write_is_aligned address (length bytes))
      then (d, failed not_aligned)
      else on_chip d (write_unlocked fixed_mapping address bytes (rom.unlock d.chip))

  unfoldable pub write : Device S → ℕ → List ℕ → Device S × Outcome Unit
  unfolding write_inner
  write d address bytes = write_inner d address bytes true

  unfoldable pub write_update : Device S → ℕ → List ℕ → Device S × Outcome Unit
  unfolding write_inner
  write_update d address bytes = write_inner d address bytes false

  -- The loop over the sectors from `address` on.
  unfoldable pub erase_sectors : ℕ → S → ℕ → S × Outcome Unit
  erase_sectors zero b address = (b, done tt)
  erase_sectors (suc sectors) b address =
      let (b, code) = rom.erase_sector b (address / 0x1000) in
      let rest = erase_sectors sectors b (address + 0x1000) in
      elim code [ some e ↦ (b, failed (erase_failed e)) | none ↦ rest ]

  unfoldable pub erase_unlocked : Bool → ℕ → ℕ → S × Option ℕ → S × Outcome Unit
  unfolding erase_sectors invalidate_after
  erase_unlocked fixed_mapping address count r = elim r.1 [
    | some code ↦ (r.0, failed (unlock_failed code))
    | none ↦
        if not (ltb count u32_mod)
        then (r.0, failed unmapped_range)
        else elim (u32_checked_add address count) [
          | none ↦ (r.0, failed unmapped_range)
          | some end ↦
              invalidate_after fixed_mapping address count
                (erase_sectors ((end - address) / 0x1000) r.0 address)
        ]
  ]

  unfoldable pub erase_inner : Device S → ℕ → ℕ → Bool → Device S × Outcome Unit
  unfolding erase_unlocked
  erase_inner d address count fixed_mapping =
      if not d.initialized
      then (d, failed disabled)
      else if not (address % 0x1000 == 0) || not (count % 0x1000 == 0)
      then (d, failed not_aligned)
      else on_chip d (erase_unlocked fixed_mapping address count (rom.unlock d.chip))

  unfoldable pub erase : Device S → ℕ → ℕ → Device S × Outcome Unit
  unfolding erase_inner
  erase d address count = erase_inner d address count true

  unfoldable pub erase_update : Device S → ℕ → ℕ → Device S × Outcome Unit
  unfolding erase_inner
  erase_update d address count = erase_inner d address count false
