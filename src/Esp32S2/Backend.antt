-- ===== src/Esp32S2/Backend.antt =====
-- `Esp32S2UpdateBackend` of src/platform/usb_update.rs, and the flash that src/platform/ota.rs
-- works on. `encrypted` is the feature `release-flash-encryption`; `Rom` has the ROM's and the
-- cache's functions, `Spi` the other ones that the two files call.
use mathlib.Core.Option
use salpa.Base.{
  ℕ, zero, suc, ◌+◌, ◌-◌, ◌/◌, ◌%◌, min, Bool, true, false, not, ◌&&◌, ◌||◌, Option, none, some,
  List, [], ◌++◌, ltb, ◌==◌, if◌then◌else◌, length, slice, bytes_eq, read_u32_le, is_some, u32_mod,
  u32_checked_add,
}
use salpa.FlashEncryption.Driver
use salpa.FlashEncryption.Driver.{Rom, Device, Outcome, done, failed, stuck}
use salpa.SignedImage.Format.{ota_slot_size}
use salpa.Ota.Records.{update_slot_offset, Offer}
use salpa.Ota.Flash
use salpa.Ota.Flash.{FlashDriver, Attempt}
use salpa.UsbUpdate.Protocol.{UpdateBackend, UpdateLayout}

abbrev pub flash_sector_size : ℕ
flash_sector_size = 0x1000

pub data Error : Type 0 where
  address_error flash_error ota_error : Error

-- `Result<A, Error>`, and `looping` for a model loop that ran out of fuel.
pub data Fallible (A : Type 0) : Type 0 where
  ok : A → Fallible A
  err : Error → Fallible A
  looping : Fallible A

-- `verify` is ets_rsa_pss_verify: its answer, and the digest that it found.
pub record Spi (S : Type 0) : Type 0 where
  pub now_ms : S → S × ℕ
  pub register : S → ℕ → S × ℕ
  pub read : S → ℕ → ℕ → S × Option (List ℕ)
  pub write : S → ℕ → List ℕ → S × Bool
  pub verify : S → List ℕ → ℕ → List ℕ → ℕ → List ℕ → List ℕ → S × (Bool × List ℕ)

-- `.map_err(|_| Error::Flash)`
abbrev pub or_flash_error : {A : Type 0} → Outcome A → Fallible A
or_flash_error (done a) = ok a
or_flash_error (failed e) = err flash_error
or_flash_error stuck = looping

abbrev pub answer : {A : Type 0} → Fallible A → Option A
answer (ok a) = some a
answer (err e) = none
answer looping = none

abbrev pub content : {A : Type 0} → Outcome A → Option A
content (done a) = some a
content (failed e) = none
content stuck = none

-- `.map_err(|_| Error::Ota)`
abbrev pub or_ota_error : {A : Type 0} → Attempt A → Fallible A
or_ota_error (Attempt.done a) = ok a
or_ota_error (Attempt.failed e) = err ota_error

abbrev pub update_layout_of : Offer → UpdateLayout
update_layout_of offer = record {
  active_slot = offer.slot;
  active_sequence = offer.sequence;
  activation_entry = offer.activation_entry;
}

abbrev pub prepend :
    {S : Type 0} → List ℕ → Device S × Fallible (List ℕ) → Device S × Fallible (List ℕ)
prepend bytes r = elim r.1 [
  | ok rest ↦ (r.0, ok (bytes ++ rest))
  | err e ↦ (r.0, err e)
  | looping ↦ (r.0, looping)
]

abbrev pub with_chip : {S A : Type 0} → Device S → S × A → Device S × A
with_chip d r = (record d { chip = r.0 }, r.1)

-- The absolute address, or `Error::Address`.
unfoldable pub address : ℕ → ℕ → ℕ → Option ℕ
unfolding update_slot_offset
address slot offset count = elim (update_slot_offset slot) [
  | none ↦ none
  | some base ↦ if not (ltb count u32_mod) then none else elim (u32_checked_add offset count) [
    | none ↦ none
    | some end ↦ if ltb ota_slot_size end then none else u32_checked_add base offset
  ]
]

module _ {S : Type 0} (rom : Rom S) (spi : Spi S) (encrypted : Bool) where
  -- The flash of ota.rs: `read_flash` and `replace_entry` call these.
  abbrev pub ota_driver : FlashDriver (Device S)
  ota_driver = record {
    read = λ d at count.
        if encrypted
        then (d, content (Driver.read rom d at count))
        else with_chip d (spi.read d.chip at count);
    unlock = λ d. let (b, code) = rom.unlock d.chip in (record d { chip = b }, not (is_some code));
    erase = λ d at count.
        if encrypted
        then (let (d', r) = Driver.erase rom d at count in (d', is_some (content r)))
        else let (b, code) = rom.erase_sector d.chip (at / flash_sector_size) in
          (record d { chip = b }, not (is_some code));
    write = λ d at bytes.
        if encrypted
        then (let (d', r) = Driver.write rom d at bytes in (d', is_some (content r)))
        else with_chip d (spi.write d.chip at bytes);
    register = λ d at. with_chip d (spi.register d.chip at);
  }

  -- The loop of `erase` on plain flash.
  unfoldable pub erase_plain_sectors : ℕ → Device S → ℕ → Device S × Fallible Unit
  erase_plain_sectors zero d at = (d, ok tt)
  erase_plain_sectors (suc sectors) d at =
      let (b, code) = rom.erase_sector d.chip (at / flash_sector_size) in
      let rest = erase_plain_sectors sectors (record d { chip = b }) (at + flash_sector_size) in
      if is_some code then (record d { chip = b }, err flash_error) else rest

  unfoldable pub erase_at : Device S → ℕ → ℕ → Device S × Fallible Unit
  unfolding erase_plain_sectors
  erase_at d at count =
      if encrypted
      then (let (d', r) = Driver.erase_update rom d at count in (d', or_flash_error r))
      else let (b, code) = rom.unlock d.chip in
        let d' = record d { chip = b } in
        if is_some code then (d', err flash_error) else elim (u32_checked_add at count) [
          | none ↦ (d', err address_error)
          | some end ↦ erase_plain_sectors ((end - at) / flash_sector_size) d' at
        ]

  unfoldable pub erase : Device S → ℕ → ℕ → ℕ → Device S × Fallible Unit
  unfolding address erase_at
  erase d slot offset count =
      if not (offset % flash_sector_size == 0) || not (count % flash_sector_size == 0) || count == 0
      then (d, err address_error)
      else elim (address slot offset count) [
        | none ↦ (d, err address_error)
        | some at ↦ erase_at d at count
      ]

  unfoldable pub write_at_address : Device S → ℕ → List ℕ → Device S × Fallible Unit
  write_at_address d at bytes =
      if encrypted
      then (let (d', r) = Driver.write_update rom d at bytes in (d', or_flash_error r))
      else let (b, code) = rom.unlock d.chip in
        if is_some code
        then (record d { chip = b }, err flash_error)
        else let (b, written) = spi.write b at bytes in
          (record d { chip = b }, if written then ok tt else err flash_error)

  unfoldable pub write : Device S → ℕ → ℕ → List ℕ → Device S × Fallible Unit
  unfolding address write_at_address
  write d slot offset bytes =
      if (length bytes == 0) || not (offset % 32 == 0) || not (length bytes % 32 == 0)
      then (d, err address_error)
      else elim (address slot offset (length bytes)) [
        | none ↦ (d, err address_error)
        | some at ↦ write_at_address d at bytes
      ]

  -- The loop of `read` on plain flash, on fuel. The caller's buffer is not read after an error.
  unfoldable pub read_parts : ℕ → Device S → ℕ → ℕ → Device S × Fallible (List ℕ)
  read_parts zero d at remaining = (d, if remaining == 0 then ok [] else looping)
  read_parts (suc fuel) d at remaining = elim (remaining == 0) [
    | true ↦ (d, ok [])
    | false ↦
        let count = min remaining 1024 in
        let r = spi.read d.chip at count in
        elim r.1 [
          | none ↦ (record d { chip = r.0 }, err flash_error)
          | some part ↦
              prepend part
                (read_parts fuel (record d { chip = r.0 }) (at + count) (remaining - count))
        ]
  ]

  unfoldable pub read : Device S → ℕ → ℕ → ℕ → Device S × Fallible (List ℕ)
  unfolding address read_parts
  read d slot offset count = elim (address slot offset count) [
    | none ↦ (d, err address_error)
    | some at ↦
        if encrypted
        then (let (d', r) = Driver.read_update rom d at count in (d', or_flash_error r))
        else read_parts count d at count
  ]

  unfoldable pub verify_rsa_pss : Device S → List ℕ → List ℕ → List ℕ → Device S × Fallible Bool
  verify_rsa_pss d public_key signature image_digest =
      let (b, found) =
        spi.verify d.chip (slice public_key 0 384) (read_u32_le public_key 384)
          (slice public_key 388 772) (read_u32_le public_key 772) signature image_digest in
      (record d { chip = b }, ok (found.0 && bytes_eq found.1 image_digest))

  module _ (descriptor_address : ℕ) where
    unfoldable pub layout : Device S → Device S × Fallible Offer
    layout d =
        let (d', r) = Flash.update_layout ota_driver encrypted d descriptor_address in
        (d', or_ota_error r)

    unfoldable pub activate : Device S → ℕ → ℕ → ℕ → Device S × Fallible Unit
    activate d slot sequence activation_entry =
        let (d', r) =
          Flash.activate_update ota_driver encrypted d slot sequence activation_entry
            descriptor_address in
        (d', or_ota_error r)

    unfoldable pub now_ms : Device S → Device S × ℕ
    now_ms d = with_chip d (spi.now_ms d.chip)

    -- The platform as the updater sees it.
    abbrev pub backend : UpdateBackend (Device S)
    backend = record {
      reader = record {
        read = λ d slot offset count. let (d', r) = read d slot offset count in (d', answer r);
        verify_rsa_pss = λ d key signature digest.
            let (d', r) = verify_rsa_pss d key signature digest in (d', answer r);
      };
      now_ms = now_ms;
      layout = λ d. let (d', r) = layout d in (d', Option.map update_layout_of (answer r));
      erase = λ d slot offset count.
          let (d', r) = erase d slot offset count in (d', is_some (answer r));
      write = λ d slot offset bytes.
          let (d', r) = write d slot offset bytes in (d', is_some (answer r));
      activate = λ d slot sequence entry.
          let (d', r) = activate d slot sequence entry in (d', is_some (answer r));
    }
