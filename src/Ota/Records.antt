-- ===== src/Ota/Records.antt =====
-- A record of otadata in src/platform/ota.rs, and what the code derives from the two of them.
use salpa.Base.{
  ℕ, ◌-◌, ◌*◌, ◌/◌, ◌%◌, Bool, false, not, ◌&&◌, ◌||◌, Option, none, some, List, ◌++◌, ltb, leb,
  ◌==◌, if◌then◌else◌, length, replicate, take, slice, byte, bytes_eq, read_u32_le, u32_le_bytes,
  u32_mod,
}
use salpa.SignedImage.Format.{crc_bytes}

abbrev pub ota_entry_size : ℕ
ota_entry_size = 32

abbrev pub ota_0_offset : ℕ
ota_0_offset = 0x20000

abbrev pub ota_1_offset : ℕ
ota_1_offset = 0x200000

abbrev pub app_descriptor_size : ℕ
app_descriptor_size = 256

abbrev pub ota_state_pending_verify : ℕ
ota_state_pending_verify = 1

abbrev pub ota_state_valid : ℕ
ota_state_valid = 2

abbrev pub ota_state_invalid : ℕ
ota_state_invalid = 3

abbrev pub ota_state_aborted : ℕ
ota_state_aborted = 4

pub record OtaEntry : Type 0 where
  pub sequence : ℕ
  pub state : ℕ
  pub crc : ℕ

-- The loops are those of `esp_crc32_le`, from 0.
unfoldable pub ota_crc : ℕ → ℕ
unfolding crc_bytes
ota_crc sequence = u32_mod - 1 - crc_bytes 0 (u32_le_bytes sequence)

unfoldable pub decode : List ℕ → OtaEntry
decode bytes = record {
  sequence = read_u32_le bytes 0;
  state = read_u32_le bytes 24;
  crc = read_u32_le bytes 28;
}

unfoldable pub is_selectable : OtaEntry → Bool
is_selectable e =
    not (e.sequence == u32_mod - 1)
    && not (e.state == ota_state_invalid)
    && not (e.state == ota_state_aborted)
    && e.crc == ota_crc e.sequence

unfoldable pub encode_with_state : OtaEntry → ℕ → List ℕ
encode_with_state e state =
    u32_le_bytes e.sequence
    ++ replicate 20 0xff
    ++ u32_le_bytes state
    ++ u32_le_bytes (ota_crc e.sequence)

-- The two records, by their place in otadata.
pub record Entries : Type 0 where
  pub first : OtaEntry
  pub second : OtaEntry

abbrev pub entry_at : Entries → ℕ → OtaEntry
entry_at es i = if i == 0 then es.first else es.second

unfoldable pub active_entry : Entries → Option ℕ
active_entry es =
    if is_selectable es.first && is_selectable es.second
    then if leb es.second.sequence es.first.sequence then some 0 else some 1
    else if is_selectable es.first
    then some 0
    else if is_selectable es.second
    then some 1
    else none

unfoldable pub slot_offset : ℕ → Option ℕ
slot_offset sequence =
    if sequence == 0
    then none
    else if (sequence - 1) % 2 == 0
    then some ota_0_offset
    else some ota_1_offset

-- `slot_offset(sequence)? != offset`, told apart from the early return.
abbrev pub has_offset : ℕ → ℕ → Bool
has_offset sequence offset = elim (slot_offset sequence) [ none ↦ false | some at ↦ at == offset ]

-- The tuple (slot, sequence, entry to activate).
pub record Offer : Type 0 where
  pub slot : ℕ
  pub sequence : ℕ
  pub activation_entry : ℕ

unfoldable pub update_layout_from_entries : Entries → ℕ → Option Offer
update_layout_from_entries es running_offset = elim (active_entry es) [
  | none ↦ none
  | some active ↦
      if not ((entry_at es active).state == ota_state_valid)
      then none
      else if not (has_offset (entry_at es active).sequence running_offset)
      then none
      else some (record {
        slot = ((entry_at es active).sequence - 1) % 2;
        sequence = (entry_at es active).sequence;
        activation_entry = 1 - active;
      })
]

pub record QualifiedLayout : Type 0 where
  pub running_slot : ℕ
  pub first_sequence : ℕ
  pub second_sequence : ℕ

-- One turn of the loop of `qualified_layout_from_entries`: the sequence number of each slot, 0 for
-- a slot not seen yet.
unfoldable pub qualify : OtaEntry → ℕ × ℕ → Option (ℕ × ℕ)
unfolding slot_offset
qualify e seen =
    if not (is_selectable e) || not (e.state == ota_state_valid)
    then none
    else elim (slot_offset e.sequence) [
      | none ↦ none
      | some at ↦
          if at == ota_0_offset
          then if not (seen.0 == 0) then none else some (e.sequence, seen.1)
          else if not (seen.1 == 0)
          then none
          else some (seen.0, e.sequence)
    ]

unfoldable pub qualified_layout_from_entries : Entries → ℕ → Option QualifiedLayout
unfolding qualify
qualified_layout_from_entries es running_offset = elim (active_entry es) [
  | none ↦ none
  | some active ↦ elim (qualify es.first (0, 0)) [
    | none ↦ none
    | some seen ↦ elim (qualify es.second seen) [
      | none ↦ none
      | some seen ↦
          if not (has_offset (entry_at es active).sequence running_offset)
          then none
          else some (record {
            running_slot = ((entry_at es active).sequence - 1) % 2;
            first_sequence = seen.0;
            second_sequence = seen.1;
          })
    ]
  ]
]

unfoldable pub activation_is_valid : Offer → ℕ → ℕ → ℕ → Bool
activation_is_valid active target_slot sequence activation_entry =
    leb target_slot 1
    && leb activation_entry 1
    && not (target_slot == active.slot)
    && activation_entry == active.activation_entry
    && not (sequence == 0)
    && (sequence - 1) % 2 == target_slot
    && ltb active.sequence sequence

-- `update_slot_offset`
unfoldable pub update_slot_offset : ℕ → Option ℕ
update_slot_offset slot =
    if slot == 0 then some ota_0_offset else if slot == 1 then some ota_1_offset else none

unfoldable pub descriptor_matches_version : List ℕ → List ℕ → Bool
descriptor_matches_version descriptor version =
    if not (read_u32_le descriptor 0 == 0xabcd5432)
    then false
    else if length version == 0 || leb 32 (length version)
    then false
    else let field = slice descriptor 16 48 in
      bytes_eq (take (length version) field) version && byte field (length version) == 0

-- `entry & !0x3fff` of a word keeps all but the low 14 bits, which `entry & 0x3fff` keeps.
unfoldable pub running_offset_from_mapping : ℕ → ℕ → Option ℕ
running_offset_from_mapping descriptor_address mmu_entry =
    if not (leb 0x3f000000 descriptor_address && ltb descriptor_address 0x3f390000)
      || not (descriptor_address % 0x10000 == 32)
      || not (mmu_entry / 0x4000 * 0x4000 == 0x8000)
    then none
    else let offset = mmu_entry % 0x4000 * 0x10000 in
      if offset == ota_0_offset || offset == ota_1_offset then some offset else none

unfoldable pub confirmation_matches_running_image : OtaEntry → ℕ → List ℕ → List ℕ → ℕ → Bool
confirmation_matches_running_image e running_offset descriptor version secure_version =
    e.state == ota_state_pending_verify
    && has_offset e.sequence running_offset
    && descriptor_matches_version descriptor version
    && read_u32_le descriptor 4 == secure_version
