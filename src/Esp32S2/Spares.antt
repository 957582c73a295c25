-- ===== src/Esp32S2/Spares.antt =====
-- What the flash operations of src/platform/usb_update.rs and src/platform/ota.rs leave alone.
use salpa.Base.{
  ℕ, zero, suc, ◌+◌, ◌-◌, ◌*◌, ◌/◌, ◌%◌, min, ◌≤◌, ◌<◌, ◌≡◌, inl, inr, refl, ap, subst, sym, ◌∙◌,
  Bool, not, ◌||◌, Option, none, some, List, ◌==◌, length, if-cases, match-cases, option-cases,
  is_some, u32_mod, u32_checked_add, arith,
}
use salpa.FlashEncryption.Driver.{Rom, Device}
use salpa.FlashEncryption.Contents.{Faithful, Beyond}
use salpa.FlashEncryption.Reading.{read_update-contents}
use salpa.FlashEncryption.Writing.{write_update-outside}
use salpa.FlashEncryption.Erasing.{erase_update-outside}
use salpa.SignedImage.Format.{ota_slot_size}
use salpa.Ota.Records.{update_slot_offset}
use salpa.Esp32S2.Backend.{
  Spi, Fallible, ok, err, looping, flash_error, address, erase_plain_sectors, erase_at, erase,
  write_at_address, write, read_parts, read, prepend,
}

-- What the functions of `Spi` leave alone.
pub record Quiet {S : Type 0} (spi : Spi S) (contents : S → ℕ → ℕ) : Type 0 where
  pub clock : (b : S) → contents (spi.now_ms b).0 ≡ contents b
  pub register : (b : S) (at : ℕ) → contents (spi.register b at).0 ≡ contents b
  pub read : (b : S) (at n : ℕ) → contents (spi.read b at n).0 ≡ contents b
  pub verify :
      (b : S) (modulus : List ℕ) (exponent : ℕ) (rinv : List ℕ) (mdash : ℕ)
      (signature digest : List ℕ)
      → contents (spi.verify b modulus exponent rinv mdash signature digest).0 ≡ contents b
  pub write :
      (b : S) (at : ℕ) (bytes : List ℕ) (x : ℕ)
      → Beyond at (length bytes) x
      → contents (spi.write b at bytes).0 x ≡ contents b x

-- Where an address is given, the range lies in the slot, and starts at its offset there.
pub address-some :
    (slot offset count at base : ℕ)
    → update_slot_offset slot ≡ some base
    → address slot offset count ≡ some at
    → (at ≡ base + offset) × (offset + count ≤ ota_slot_size)
unfolding address
address-some slot offset count at base e h = ground (arith, e)

pub base-aligned :
    (slot base : ℕ)
    → update_slot_offset slot ≡ some base
    → (base % 0x1000 ≡ 0) × (0x11000 ≤ base) × (base ≤ 0x200000)
unfolding update_slot_offset
base-aligned slot base e = ground arith

module _ {S : Type 0} (rom : Rom S) (spi : Spi S) (encrypted : Bool) (contents : S → ℕ → ℕ)
    (window : S → ℕ) (faithful : Faithful rom contents window) (quiet : Quiet spi contents) where
  pub erase_plain-outside :
      (sectors : ℕ) (d : Device S) (at x : ℕ)
      → at % 0x1000 ≡ 0
      → Beyond at (sectors * 0x1000) x
      → contents (erase_plain_sectors rom spi encrypted sectors d at).0.chip x ≡ contents d.chip x
  unfolding erase_plain_sectors
  erase_plain-outside zero d at x e o = refl
  erase_plain-outside (suc sectors) d at x e o =
      let P = λ (r : Device S × Fallible Unit). contents r.0.chip x ≡ contents d.chip x in
      let c = rom.erase_sector d.chip (at / 0x1000) in
      let spared : contents c.0 x ≡ contents d.chip x =
        faithful.erase_spares d.chip (at / 0x1000) x
          (elim o [ inl l ↦ inl (omega arith) | inr l ↦ inr (omega arith) ]) in
      if-cases P (is_some c.1) (λ _. spared)
        (λ _.
          erase_plain-outside sectors (record d { chip = c.0 }) (at + 0x1000) x (omega arith)
            (elim o [ inl l ↦ inl (omega arith) | inr l ↦ inr (omega arith) ])
          ∙ spared)

  erase_at-outside :
      (d : Device S) (at count x : ℕ)
      → at % 0x1000 ≡ 0
      → count % 0x1000 ≡ 0
      → at + count < u32_mod
      → Beyond at count x
      → contents (erase_at rom spi encrypted d at count).0.chip x ≡ contents d.chip x
  unfolding erase_at
  erase_at-outside d at count x ea ec fits o =
      let P = λ (r : Device S × Fallible Unit). contents r.0.chip x ≡ contents d.chip x in
      let unlocked = ap (λ (f : ℕ → ℕ). f x) (faithful.unlock_keeps d.chip).0 in
      if-cases P encrypted
        (λ _. erase_update-outside rom contents window faithful d at count x fits o)
        (λ _.
          if-cases P (is_some (rom.unlock d.chip).1) (λ _. unlocked)
            (λ _.
              option-cases P (u32_checked_add at count) (λ _. unlocked)
                (λ end e.
                  let all : (end - at) / 0x1000 * 0x1000 ≡ count = ground arith in
                  erase_plain-outside ((end - at) / 0x1000)
                    (record d { chip = (rom.unlock d.chip).0 }) at x ea
                    (subst (λ (n : ℕ). Beyond at n x) (sym all) o)
                  ∙ unlocked)))

  pub erase-outside :
      (d : Device S) (slot offset count base x : ℕ)
      → update_slot_offset slot ≡ some base
      → Beyond base ota_slot_size x
      → contents (erase rom spi encrypted d slot offset count).0.chip x ≡ contents d.chip x
  unfolding erase
  erase-outside d slot offset count base x e o =
      let P = λ (r : Device S × Fallible Unit). contents r.0.chip x ≡ contents d.chip x in
      let b = base-aligned slot base e in
      if-cases P (not (offset % 0x1000 == 0) || not (count % 0x1000 == 0) || count == 0) (λ _. refl)
        (λ aligned.
          option-cases P (address slot offset count) (λ _. refl)
            (λ at found.
              let (start, fits) = address-some slot offset count at base e found in
              let whole : (offset % 0x1000 ≡ 0) × (count % 0x1000 ≡ 0) = ground arith in
              erase_at-outside d at count x (omega (arith, b, whole)) whole.1 (omega (arith, b))
                (elim o [ inl l ↦ inl (omega arith) | inr l ↦ inr (omega arith) ])))

  write_at_address-outside :
      (d : Device S) (at : ℕ) (bytes : List ℕ) (x : ℕ)
      → at + length bytes ≤ u32_mod
      → Beyond at (length bytes) x
      → contents (write_at_address rom spi encrypted d at bytes).0.chip x ≡ contents d.chip x
  unfolding write_at_address
  write_at_address-outside d at bytes x fits o =
      let P = λ (r : Device S × Fallible Unit). contents r.0.chip x ≡ contents d.chip x in
      let unlocked = ap (λ (f : ℕ → ℕ). f x) (faithful.unlock_keeps d.chip).0 in
      if-cases P encrypted
        (λ _. write_update-outside rom contents window faithful d at bytes x fits o)
        (λ _.
          if-cases P (is_some (rom.unlock d.chip).1) (λ _. unlocked)
            (λ _. quiet.write (rom.unlock d.chip).0 at bytes x o ∙ unlocked))

  pub write-in_slot :
      (d : Device S) (slot offset : ℕ) (bytes : List ℕ) (base x : ℕ)
      → update_slot_offset slot ≡ some base
      → Beyond base ota_slot_size x
      → contents (write rom spi encrypted d slot offset bytes).0.chip x ≡ contents d.chip x
  unfolding write
  write-in_slot d slot offset bytes base x e o =
      let P = λ (r : Device S × Fallible Unit). contents r.0.chip x ≡ contents d.chip x in
      let b = base-aligned slot base e in
      if-cases P ((length bytes == 0) || not (offset % 32 == 0) || not (length bytes % 32 == 0))
        (λ _. refl)
        (λ aligned.
          option-cases P (address slot offset (length bytes)) (λ _. refl)
            (λ at found.
              let (start, fits) = address-some slot offset (length bytes) at base e found in
              write_at_address-outside d at bytes x (omega (arith, b))
                (elim o [ inl l ↦ inl (omega arith) | inr l ↦ inr (omega arith) ])))

  abbrev pub Same : Device S → Device S × Fallible (List ℕ) → Type 0
  Same d r = contents r.0.chip ≡ contents d.chip

  next_part :
      (fuel at rest : ℕ) (d : Device S) (r : S × Option (List ℕ))
      → ((d : Device S) → Same d (read_parts rom spi encrypted fuel d at rest))
      → contents r.0 ≡ contents d.chip
      → Same d (elim r.1 [
        | none ↦ (record d { chip = r.0 }, err flash_error)
        | some part ↦
            prepend part (read_parts rom spi encrypted fuel (record d { chip = r.0 }) at rest)
      ])
  next_part fuel at rest d (b, none) loop kept = kept
  next_part fuel at rest d (b, some part) loop kept =
      prepended part (read_parts rom spi encrypted fuel (record d { chip = b }) at rest)
      ∙ loop (record d { chip = b })
      ∙ kept
    where
      prepended : (part : List ℕ) (r : Device S × Fallible (List ℕ)) → Same r.0 (prepend part r)
      prepended part (c, ok l) = refl
      prepended part (c, err e) = refl
      prepended part (c, looping) = refl

  read_parts-contents :
      (fuel : ℕ) (d : Device S) (at remaining : ℕ)
      → Same d (read_parts rom spi encrypted fuel d at remaining)
  unfolding read_parts
  read_parts-contents zero d at remaining = refl
  read_parts-contents (suc fuel) d at remaining =
      let count = min remaining 1024 in
      match-cases (Same d) (remaining == 0) (λ e. refl)
        (λ e.
          next_part fuel (at + count) (remaining - count) d (spi.read d.chip at count)
            (λ d'. read_parts-contents fuel d' (at + count) (remaining - count))
            (quiet.read d.chip at count))

  pub read-contents :
      (d : Device S) (slot offset count : ℕ) → Same d (read rom spi encrypted d slot offset count)
  unfolding read
  read-contents d slot offset count =
      option-cases (Same d) (address slot offset count) (λ _. refl)
        (λ at _.
          if-cases (Same d) encrypted
            (λ _. read_update-contents rom contents window faithful d at count)
            (λ _. read_parts-contents count d at count))
