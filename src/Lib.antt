-- ===== src/Lib.antt =====
-- Salpa: USB FIDO2 security-key firmware for the ESP32-S2.
--
-- This library models the parts of the firmware that decide what a host, a button and a flash chip
-- may make it do, and proves what holds of them.
--
-- CtapHid (src/ctaphid.rs): the CTAPHID transport. `CtapHid.Protocol` has its constants, commands
-- and events, `CtapHid.State` its state (`Engine` is the code's `CtapHid<N>`; `N` and the feature
-- `usb-signed-update` are the argument `Build`) and shared helpers, `CtapHid.Receive` and
-- `CtapHid.Transmit` its operations under their names in the code (`keepalive` is
-- `queue_keepalive`). A field named `length` in the code is `total` here. `ingest` is cut at its
-- early returns: `interrupt_active` is the block for a busy engine, `start_message` and
-- `begin_message` what follows it, `continue_receive` the body of `ingest_continuation`.
-- A buffer is a list of bytes; `write_at` drops what would lie out of range, where the code
-- panics, and the invariant keeps every copy in range. The loop of `allocate_channel` has fuel 3:
-- of three numbers in a row one is neither reserved nor broadcast. `CtapHid.Frames` writes the
-- packet layout down independently of the code.
--
-- Ota (src/platform/ota.rs): `Ota.Records` is the otadata records and what is derived from the two
-- of them, `Ota.Flash` the operations on flash, cut at `?` by `and_then`. The driver is a parameter:
-- `read` and the rest stand for esp_storage or flash_encryption, `register` for the MMU read, and
-- the argument `encrypted` for the feature `release-flash-encryption`.
--
-- SecurityEpoch (src/platform/security_epoch.rs and security_epoch_transaction.rs):
-- `SecurityEpoch.Policy` is `prepare`, cut into the checks of the state, of each slot, and the change
-- itself; the arrays of two slots are two fields. The loop over the bits of the counter halves the
-- counter where the code moves a mask up. `SecurityEpoch.Transaction` is the one attempt to program
-- the fuses, over a controller (the trait `Backend`) whose state is passed along.
--
-- Presence (src/platform/presence_gate.rs): `Presence.Gate` is the gesture state machine; a poll
-- is a function of the sample, the clock and the cancellation flag.
--
-- SignedImage (src/signed_image.rs): `SignedImage.Format` parses metadata and signature blocks,
-- `SignedImage.Installed` is `verify_installed_slot` over a reader (the trait `ImageReader`), cut at
-- its loops. SHA-256 is the parameter `Sha256`, RSA an operation of the reader. `position | 15` and
-- `value & !(SIGNATURE_SECTOR_SIZE - 1)` are written with division. The loop that hashes has as
-- fuel the bytes to hash, since a turn takes one at least.
--
-- UsbUpdate (src/usb_update.rs): `UsbUpdate.Protocol` has the codes and the platform's interface
-- (the trait `UpdateBackend`), `UsbUpdate.Session` the session and its expiry, `UsbUpdate.Verify`
-- the verification, `UsbUpdate.Updater` the requests. The platform's state is passed along; reading
-- the clock is an operation that may change it, since the time differs from call to call. A
-- function that the code leaves early is cut there: `while_live` is the return on an expired
-- session, `write_refusal` the early returns of `write`, and `finish_verification` goes on in
-- `check_metadata`, `check_block`, `check_signed`, `check_layout` and `activate_target`. Sums that
-- the code leaves unchecked are below the size of a slot. `expected_version` and the versions are
-- lists without the array's padding. The loop of `verify_step` has as fuel the bytes of the step.
--
-- `SecurityEpoch.Plan` is security_epoch_plan.rs, `SecurityEpoch.Qualify` the `qualify` of
-- security_epoch_maintenance.rs, `SecurityEpoch.Maintenance` its requests with the latch of
-- s2_epoch_programmer.rs (`attempted`), and `SecurityEpoch.Preview` is security_epoch_preview.rs. `qualify` is cut into `match_plan` and
-- `requalify`, the closure of `handle` into `run_request`, `with_presence`, `after_presence` and
-- `carry_out`. The plan that the build embeds, the chip's constants and the read of the bootloader are
-- the parameter `Chip`; replies of 64 bytes are lists.
--
-- FlashEncryption (src/platform/flash_encryption.rs): `FlashEncryption.Mapping` has the fixed
-- mappings, `FlashEncryption.Driver` the operations over the ROM and the cache (`Rom`), with `INITIALIZED`
-- a field of `Device`. `read_pages` has as fuel the bytes to read, since a turn reads one at least.
-- `FlashEncryption.Contents` says what is taken of the ROM: `Faithful` is about the plaintext that a
-- mapping shows and about what writing and erasing leave alone; `Programs`, which only
-- `FlashEncryption.Erased` and `FlashEncryption.Written` take, is about what a block written over
-- erased flash and an erased sector hold.
--
-- Esp32S2 (src/platform/usb_update.rs): `Esp32S2.Backend` is the platform of `UsbUpdate` and the flash
-- of `Ota`, over `Rom` and the other functions that the file calls (`Spi`), with and without
-- encryption. Reading in parts has as fuel the bytes; `looping` stands for a model loop that ran out.
--
-- Storage (src/platform/storage_layout.rs and storage.rs): `Storage.Partition` is the driver that
-- littlefs calls; the flash of the build without encryption is the parameter `NorFlash`.
--
-- MemoryProtection (src/platform/memory_protection.rs): `MemoryProtection.Policy` computes the
-- splits, `MemoryProtection.Registers` writes and locks the registers, over a register file as a
-- parameter. A `|` of fields that do not overlap is written as a sum.
--
-- UserPresence (src/platform/s2_user_presence.rs): the button, the LED and the wait for consent. The
-- loop of `confirm` has fuel, one unit for each turn. Many turns may read the same millisecond; where
-- polling takes some time of a finer clock, whose units `now_ms` cuts off, one turn more than the
-- timeout has of those units is enough. Clock, pin and wait hook are `Board`.
--
-- UsbRuntime (src/platform/usb_runtime.rs and src/request_completion.rs): `UsbRuntime.Runtime` polls
-- USB during that wait, with the engine of CtapHid inside; the shared cells are fields of `Runtime`,
-- and `board` makes it the hook of UserPresence. The USB device, the interrupt flag and the clock
-- are the parameter `Usb`. `UsbRuntime.Completion` ends requests.
--
-- VendorCommands (src/platform/vendor_commands.rs): the dispatch of vendor requests to the updater
-- of UsbUpdate, the button and the read-only services; maintenance and preview are its parameters.
--
-- Gestures (src/platform/maintenance_presence.rs and provisioning.rs): two gestures of the button as
-- state machines. Histories of samples are lists, the newest first.
--
-- Base holds Boolean tests, lists with native indices, and byte and word conversions.
-- Tests holds runs at concrete inputs.
--
-- Not modelled: the vendored crates under third_party (other projects' libraries); the file system
-- (littlefs) and its initialisation; run loops, constructors and conversions over third-party
-- crates (dispatch.rs, runtime.rs, usb.rs, the binaries); attestation, identity and the random
-- numbers; the register accesses of s2_epoch_programmer.rs; build.rs, the tools and the scripts.
pub mod Base
pub mod CtapHid
pub mod Esp32S2
pub mod FlashEncryption
pub mod Gestures
pub mod MemoryProtection
pub mod Ota
pub mod Presence
pub mod SecurityEpoch
pub mod SignedImage
pub mod Storage
pub mod Tests
pub mod UsbRuntime
pub mod UsbUpdate
pub mod UserPresence
pub mod VendorCommands
