-- ===== src/Tests/Platform.antt =====
-- An update over the ESP32-S2's encrypted flash, as in src/platform/usb_update.rs.
use salpa.Base.{ℕ, ◌-◌, ◌≡◌, refl, true, false, some, List, [], ◌∷◌, byte, inl, inr, arith}
use salpa.FlashEncryption.Driver.{Device}
use salpa.Ota.Records.{
  update_slot_offset, running_offset_from_mapping, encode_with_state, ota_crc, is_selectable,
  slot_offset,
}
use salpa.Ota.Layout.{entry}
use salpa.UsbUpdate.Session.{UsbUpdater, new}
use salpa.UsbUpdate.Confined.Requests.{run}
use salpa.Esp32S2.Backend as Esp32S2
use salpa.Esp32S2.Backend.{Spi, backend, ota_driver}
use salpa.Ota.Flash
use salpa.Ota.Steps.{Runs}
use salpa.FlashEncryption.Driver
use salpa.UsbUpdate.Updater.{handle}
use salpa.Esp32S2.Spares.{Quiet}
use salpa.Esp32S2.Confined.{running_image_untouched}
use salpa.Tests.Image.{checksum, trusted}
use salpa.Tests.Update.{begin_request, advance_request}
use salpa.Tests.Encryption.{Chip, rom, rom-Faithful, inside}

-- The MMU maps slot 0; the signature check answers no.
abbrev spi : Spi Chip
spi = record {
  now_ms = λ b. (b, 5);
  register = λ b at. (b, 0x8002);
  read = λ b at n. (b, some []);
  write = λ b at bytes. (b, false);
  verify = λ b modulus exponent rinv mdash signature digest. (b, (false, []));
}

abbrev chip_cells : Chip → ℕ → ℕ
chip_cells b = b.cells

abbrev chip_window : Chip → ℕ
chip_window b = b.window

spi-Quiet : Quiet spi chip_cells
spi-Quiet = record {
  clock = λ b. refl;
  register = λ b at. refl;
  read = λ b at n. refl;
  verify = λ b modulus exponent rinv mdash signature digest. refl;
  write = λ b at bytes x o. refl;
}

-- Record 0 of otadata boots slot 0; the rest of the flash is zero.
abbrev board : Device Chip
board = record {
  initialized = true;
  chip = record {
    cells =
        λ x. inside 0xf000 32 x (byte (encode_with_state (entry 1 2 0x4743989a) 2) (x - 0xf000)) 0;
    window = 0x20000;
  };
}

abbrev after_begin : UsbUpdater (Device Chip) (List ℕ)
after_begin =
    run checksum (backend rom spi true 0x3f000020) (new board trusted (55 ∷ []) 1)
      (begin_request ∷ advance_request ∷ [])

-- The first sector of slot 1 is erased.
erases : after_begin.backend.chip.cells 0x200000 ≡ 255
unfolding run handle Esp32S2.layout Esp32S2.erase Esp32S2.now_ms ota_crc Flash.update_layout
    Driver.read Driver.erase_update new is_selectable encode_with_state slot_offset
erases = refl

mapped :
    (offset : ℕ)
    → Runs (ota_driver rom spi true) true 0x3f000020 offset
    → update_slot_offset 0 ≡ some offset
unfolding running_offset_from_mapping update_slot_offset
mapped offset (_, e) = e

running_image_untouched_example : after_begin.backend.chip.cells 0x20020 ≡ 0
running_image_untouched_example =
    running_image_untouched rom spi true chip_cells chip_window rom-Faithful spi-Quiet (List ℕ)
      checksum board 0x3f000020 0 0x200000 trusted (55 ∷ []) 1
      (begin_request ∷ advance_request ∷ []) (unfold update_slot_offset in refl) mapped 0x20020
      (inl (omega arith), inr (omega arith))
