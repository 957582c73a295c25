-- ===== src/Ota/Flash.antt =====
-- The operations of src/platform/ota.rs on flash. Reading, unlocking, erasing and writing flash and
-- reading the MMU register are parameters; `encrypted` is the feature `release-flash-encryption`.
use salpa.Base.{
  ℕ, ◌+◌, ◌*◌, ◌/◌, ◌%◌, Bool, true, false, not, ◌&&◌, Option, none, some, List, ltb, leb, ◌==◌,
  if◌then◌else◌, bytes_eq,
}
use salpa.Ota.Records.{
  OtaEntry, Entries, Offer, QualifiedLayout, decode, active_entry, entry_at,
  update_layout_from_entries, qualified_layout_from_entries, activation_is_valid, encode_with_state,
  ota_crc, slot_offset, running_offset_from_mapping, confirmation_matches_running_image,
  ota_entry_size, app_descriptor_size, ota_state_pending_verify, ota_state_valid,
}

abbrev pub otadata_offset : ℕ
otadata_offset = 0xf000

abbrev pub ota_sector_size : ℕ
ota_sector_size = 0x1000

-- `none` and `false` are failures.
pub record FlashDriver (S : Type 0) : Type 0 where
  pub read : S → ℕ → ℕ → S × Option (List ℕ)
  pub unlock : S → S × Bool
  pub erase : S → ℕ → ℕ → S × Bool
  pub write : S → ℕ → List ℕ → S × Bool
  pub register : S → ℕ → S × ℕ

pub data ConfirmError : Type 0 where
  flash_read flash_unlock flash_erase flash_write readback_mismatch invalid_layout : ConfirmError

-- `Result<A, ConfirmError>`
pub data Attempt (A : Type 0) : Type 0 where
  done : A → Attempt A
  failed : ConfirmError → Attempt A

abbrev pub or_failed : {A : Type 0} → ConfirmError → Option A → Attempt A
or_failed e none = failed e
or_failed e (some a) = done a

-- `?` on the result of a step.
abbrev pub and_then : {S A B : Type 0} → S × Attempt A → (S → A → S × Attempt B) → S × Attempt B
and_then r next = elim r.1 [ done a ↦ next r.0 a | failed e ↦ (r.0, failed e) ]

module _ {S : Type 0} (driver : FlashDriver S) (encrypted : Bool) where
  unfoldable pub read_flash : S → ℕ → ℕ → S × Attempt (List ℕ)
  read_flash b address count =
      let (b, bytes) = driver.read b address count in (b, or_failed flash_read bytes)

  unfoldable pub erase_and_write : S → ℕ → List ℕ → S × Attempt Unit
  erase_and_write b address replacement =
      let (b, erased) = driver.erase b address ota_sector_size in
      if not erased
      then (b, failed flash_erase)
      else let (b, written) = driver.write b address replacement in
        if not written then (b, failed flash_write) else (b, done tt)

  unfoldable pub replace_entry : S → ℕ → List ℕ → S × Attempt Unit
  unfolding erase_and_write
  replace_entry b address replacement =
      if encrypted
      then erase_and_write b address replacement
      else let (b, unlocked) = driver.unlock b in
        if not unlocked then (b, failed flash_unlock) else erase_and_write b address replacement

  unfoldable pub running_app_offset : S → ℕ → S × Attempt ℕ
  unfolding running_offset_from_mapping
  running_app_offset b descriptor_address =
      if not (leb 0x3f000000 descriptor_address && ltb descriptor_address 0x3f390000)
      then (b, failed invalid_layout)
      else let (b, entry) =
          driver.register b (0x61801000 + (0x80 + descriptor_address % 0x400000 / 0x10000) * 4) in
        (b, or_failed invalid_layout (running_offset_from_mapping descriptor_address entry))

  -- The loop that reads both records.
  unfoldable pub read_both : S → S × Attempt Entries
  unfolding read_flash decode
  read_both b = and_then (read_flash b otadata_offset ota_entry_size) (λ b first.
      and_then (read_flash b (otadata_offset + ota_sector_size) ota_entry_size)
        (λ b second. (b, done (record { first = decode first; second = decode second }))))

  unfoldable pub read_entries : S → S × Attempt Entries
  unfolding read_both active_entry
  read_entries b =
      and_then (read_both b) (λ b es. elim (active_entry es) [
        | none ↦ (b, failed invalid_layout)
        | some _ ↦ (b, done es)
      ])

  unfoldable pub update_layout : S → ℕ → S × Attempt Offer
  unfolding running_app_offset read_entries update_layout_from_entries
  update_layout b descriptor_address =
      and_then (running_app_offset b descriptor_address) (λ b running_offset.
        and_then (read_entries b)
          (λ b es. (b, or_failed invalid_layout (update_layout_from_entries es running_offset))))

  unfoldable pub qualified_layout : S → ℕ → S × Attempt QualifiedLayout
  unfolding running_app_offset read_entries qualified_layout_from_entries
  qualified_layout b descriptor_address =
      and_then (running_app_offset b descriptor_address) (λ b running_offset.
        and_then (read_entries b)
          (λ b es. (b, or_failed invalid_layout (qualified_layout_from_entries es running_offset))))

  unfoldable pub compare_readback : List ℕ → S → List ℕ → S × Attempt Unit
  compare_readback replacement b readback =
      if not (bytes_eq readback replacement) then (b, failed readback_mismatch) else (b, done tt)

  unfoldable pub check_readback : ℕ → List ℕ → S → Unit {0} → S × Attempt Unit
  unfolding read_flash compare_readback
  check_readback address replacement b _ =
      and_then (read_flash b address ota_entry_size) (compare_readback replacement)

  -- Rewrite the record at a place, and read it back.
  unfoldable pub replace_and_check : S → ℕ → List ℕ → S × Attempt Unit
  unfolding replace_entry check_readback
  replace_and_check b place replacement =
      let address = otadata_offset + place * ota_sector_size in
      and_then (replace_entry b address replacement) (check_readback address replacement)

  unfoldable pub activate_update : S → ℕ → ℕ → ℕ → ℕ → S × Attempt Unit
  unfolding update_layout activation_is_valid encode_with_state replace_and_check
  activate_update b target_slot sequence activation_entry descriptor_address =
      and_then (update_layout b descriptor_address) (λ b layout.
        if not (activation_is_valid layout target_slot sequence activation_entry)
        then (b, failed invalid_layout)
        else replace_and_check b activation_entry (
            encode_with_state (record { sequence = sequence; state = 0; crc = ota_crc sequence })
              0))

  -- `confirm_running_image` once the descriptor of the active record `e` is read.
  unfoldable pub confirm_descriptor : List ℕ → ℕ → ℕ → ℕ → OtaEntry → S → List ℕ → S × Attempt Bool
  unfolding confirmation_matches_running_image encode_with_state replace_and_check
  confirm_descriptor version secure_version running_offset active e b descriptor =
      if not (confirmation_matches_running_image e running_offset descriptor version secure_version)
      then (b, done false)
      else and_then (replace_and_check b active (encode_with_state e ota_state_valid))
          (λ b _. (b, done true))

  -- The same once both records are read.
  unfoldable pub confirm_active : List ℕ → ℕ → ℕ → S → Entries → S × Attempt Bool
  unfolding active_entry slot_offset read_flash confirm_descriptor
  confirm_active version secure_version running_offset b es = elim (active_entry es) [
    | none ↦ (b, done false)
    | some active ↦
        let e = entry_at es active in
        if not (e.state == ota_state_pending_verify)
        then (b, done false)
        else elim (slot_offset e.sequence) [
          | none ↦ (b, done false)
          | some app_offset ↦
              and_then (read_flash b (app_offset + 32) app_descriptor_size)
                (confirm_descriptor version secure_version running_offset active e)
        ]
  ]

  -- The same once the running image is found.
  unfoldable pub confirm_running : List ℕ → ℕ → S → ℕ → S × Attempt Bool
  unfolding read_both confirm_active
  confirm_running version secure_version b running_offset =
      and_then (read_both b) (confirm_active version secure_version running_offset)

  unfoldable pub confirm_running_image : S → List ℕ → ℕ → ℕ → S × Attempt Bool
  unfolding running_app_offset confirm_running
  confirm_running_image b version secure_version descriptor_address =
      and_then (running_app_offset b descriptor_address) (confirm_running version secure_version)
