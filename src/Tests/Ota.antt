-- ===== src/Tests/Ota.antt =====
-- Boot records of src/platform/ota.rs that are written, selected and confirmed.
use salpa.Base.{
  bytes_eq, ℕ, ◌≡◌, refl, true, false, none, some, List, [], ◌∷◌, ◌++◌, replicate, take,
  if◌then◌else◌, ◌==◌, arith, inr,
}
use salpa.Ota.Records.{
  Entries, Offer, entry_at, ota_crc, decode, encode_with_state, active_entry, is_selectable,
  slot_offset, has_offset, update_layout_from_entries, activation_is_valid, update_slot_offset,
  descriptor_matches_version,
}
use salpa.Ota.Flash.{FlashDriver, done, confirm_running_image}
use salpa.Ota.Layout.{entry, put, decode-encode_with_state, activation_boots}
use salpa.Ota.Confirm.{Confirmed, confirm_running_image-Confirmed}

crc_one : ota_crc 1 ≡ 0x4743989a
unfolding ota_crc
crc_one = refl

decode-encode_with_state_example :
    decode (encode_with_state (entry 7 0 0) 2)
    ≡ (record { sequence = 7; state = 2; crc = ota_crc 7 })
decode-encode_with_state_example =
    decode-encode_with_state (entry 7 0 0) 2 (omega arith) (omega arith)

-- Slot 0 runs, record 0 has number 1.
abbrev before : Entries
before = record { first = entry 1 2 0x4743989a; second = entry 0xffffffff 0xffffffff 0xffffffff }

abbrev offer : Offer
offer = record { slot = 0; sequence = 1; activation_entry = 1 }

offered : update_layout_from_entries before 0x20000 ≡ some offer
unfolding update_layout_from_entries active_entry is_selectable ota_crc slot_offset
offered = refl

valid : activation_is_valid offer 1 2 1 ≡ true
unfolding activation_is_valid
valid = refl

activation_boots_example :
    let written = put before 1 (decode (encode_with_state (entry 2 0 (ota_crc 2)) 1)) in
    (active_entry written ≡ some 1)
    × ((entry_at written 1).sequence ≡ 2)
    × (slot_offset 2 ≡ update_slot_offset 1)
    × (has_offset 2 0x20000 ≡ false)
    × (entry_at written 0 ≡ entry_at before 0)
    × (update_layout_from_entries written 0x200000 ≡ none)
activation_boots_example =
    activation_boots before 0x20000 offer 1 2 1 0x200000 offered valid (omega arith) (inr refl)

-- Flash with the two records and a descriptor in each slot; slot 1 runs.
record Chip : Type 0 where
  first : List ℕ
  second : List ℕ

abbrev descriptor : List ℕ
descriptor =
    0x32 ∷ 0x54 ∷ 0xcd ∷ 0xab ∷ 4 ∷ 0 ∷ 0 ∷ 0 ∷ replicate 8 0 ++ (55 ∷ 46 ∷ 49 ∷ replicate 237 0)

abbrev driver : FlashDriver Chip
driver = record {
  read = λ c address n. (
    c,
    some (
        take n (
          if address == 0xf000
          then c.first
          else if address == 0x10000
          then c.second
          else descriptor)),
  );
  unlock = λ c. (c, true);
  erase = λ c address n. (c, true);
  write = λ c address bytes.
      (if address == 0xf000 then record c { first = bytes } else record c { second = bytes }, true);
  register = λ c address. (c, 0x8020);
}

abbrev chip : Chip
unfolding encode_with_state ota_crc
chip = record {
  first = encode_with_state (entry 1 2 0) 2;
  second = encode_with_state (entry 2 1 0) 1;
}

confirms : (confirm_running_image driver false chip (55 ∷ 46 ∷ 49 ∷ []) 4 0x3f000020).1 ≡ done true
unfolding confirm_running_image active_entry is_selectable ota_crc encode_with_state slot_offset
    descriptor_matches_version bytes_eq
confirms = refl

confirm_running_image-Confirmed_example :
    Confirmed driver false chip
      (55 ∷ 46 ∷ 49 ∷ [])
      4
      0x3f000020
      (confirm_running_image driver false chip (55 ∷ 46 ∷ 49 ∷ []) 4 0x3f000020).0
confirm_running_image-Confirmed_example =
    confirm_running_image-Confirmed driver false chip (55 ∷ 46 ∷ 49 ∷ []) 4 0x3f000020 confirms
