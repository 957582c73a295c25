-- ===== src/UsbUpdate/Sequence.antt =====
-- What `next_sequence` of src/usb_update.rs picks, seen by the boot records of src/platform/ota.rs.
use salpa.Base.{ℕ, ◌+◌, ◌-◌, ◌%◌, ◌≤◌, ◌<◌, ◌≡◌, ◌==◌, if◌then◌else◌, true, some, arith}
use salpa.UsbUpdate.Protocol.{next_sequence}
use salpa.Ota.Records.{is_selectable, ota_crc, slot_offset, update_slot_offset}
use salpa.Ota.Layout.{entry, new_selectable}

-- A sequence number picked for a slot: a record with it, written as new, may be selected to boot and
-- boots that slot, and no lower number above the current one boots it.
pub record Picks (current slot next : ℕ) : Type 0 where
  pub found : next_sequence current slot ≡ some next
  pub above : current < next
  pub boots : slot_offset next ≡ update_slot_offset slot
  pub selectable : is_selectable (entry next 0 (ota_crc next)) ≡ true
  pub least :
      (other : ℕ) → current < other → slot_offset other ≡ update_slot_offset slot → next ≤ other

boots-slot :
    (n slot : ℕ) → 0 < n → slot ≤ 1 → (n - 1) % 2 ≡ slot → slot_offset n ≡ update_slot_offset slot
unfolding slot_offset update_slot_offset
boots-slot n slot some_number two e = ground arith

slot-boots :
    (n slot : ℕ) → 0 < n → slot ≤ 1 → slot_offset n ≡ update_slot_offset slot → (n - 1) % 2 ≡ slot
unfolding slot_offset update_slot_offset
slot-boots n slot some_number two e = ground arith

abbrev step : ℕ → ℕ → ℕ
step current slot = if current % 2 == (slot + 1) % 2 then 2 else 1

next_sequence-step :
    (current slot : ℕ)
    → 0 < current
    → current < 0xfffffffd
    → slot ≤ 1
    → next_sequence current slot ≡ some (current + step current slot)
unfolding next_sequence
next_sequence-step current slot some_current below two = ground arith

step_parity :
    (current slot : ℕ)
    → 0 < current
    → slot ≤ 1
    → (0 < step current slot)
      × (step current slot ≤ 2)
      × ((current + step current slot - 1) % 2 ≡ slot)
      × ((step current slot ≡ 2) → current % 2 ≡ (slot + 1) % 2)
step_parity current slot some_current two = (ground arith, ground arith, ground arith, ground arith)

step_least :
    (current slot other : ℕ)
    → slot ≤ 1
    → current < other
    → (other - 1) % 2 ≡ slot
    → current + step current slot ≤ other
step_least current slot other two above e = ground arith

-- From a current number below 0xfffffffd, not 0, a sequence number is picked for either slot: it is
-- above the current one, a record with it, written as new, is one that may be selected to boot, and
-- boots that slot; and it is the least such number.
pub next_sequence_least :
    (current slot : ℕ)
    → 0 < current
    → current < 0xfffffffd
    → slot ≤ 1
    → (next : ℕ) × Picks current slot next
next_sequence_least current slot some_current below two =
    let facts = step_parity current slot some_current two in
    let next = current + step current slot in
    (
      next,
      record {
        found = next_sequence-step current slot some_current below two;
        above = omega (arith, facts.0);
        selectable = new_selectable next (omega (arith, facts.1));
        boots = boots-slot next slot (omega (arith, facts.0)) two facts.2;
        least = λ other above e.
            step_least current slot other two above (slot-boots other slot (omega arith) two e);
      },
    )
