-- ===== src/Tests/Maintenance.antt =====
-- The requests of src/platform/security_epoch_maintenance.rs on a device that qualifies.
use salpa.Base.{
  ℕ, ◌+◌, ◌%◌, ◌≡◌, refl, ◌⊎◌, true, false, ◌&&◌, none, some, List, [], ◌∷◌, ◌++◌, ◌==◌, ltb, leb,
  if◌then◌else◌, bytes_eq, replicate, take, slice, u32_le_bytes,
}
use salpa.SignedImage.Format.{Sha256, digest}
use salpa.SignedImage.Installed.{ImageReader, verify_installed_slot}
use salpa.Presence.Gate
use salpa.Ota.Records.{ota_crc, encode_with_state, is_selectable}
use salpa.Ota.Flash.{FlashDriver, qualified_layout}
use salpa.Ota.Layout.{entry}
use salpa.UserPresence.Hardware.{Board, confirm_maintenance_user_presence}
use salpa.UsbUpdate.Protocol.{idle, phase_number}
use salpa.SecurityEpoch.Policy.{
  prepare, raise_counter, count_ones, secure_version_raw, free_bits, program_words, has_bit,
  state_refusal, slot_refusal,
}
use salpa.SecurityEpoch.Transaction.{FuseBackend, attempt, new}
use salpa.SecurityEpoch.Plan.{Images}
use salpa.SecurityEpoch.Qualify.{Chip, ok, Qualified, qualify}
use salpa.SecurityEpoch.Maintenance.{Maintenance, handle}
use salpa.SecurityEpoch.Preview as Preview
use salpa.SecurityEpoch.Ordered.{Ordered, programming_needs_consent}
use salpa.SecurityEpoch.Qualified.{Fits, qualify-Fits}
use salpa.Tests.Image.{header}
use salpa.Tests.Epoch.{block0}

abbrev sum : List ℕ → ℕ
sum [] = 0
sum (x ∷ xs) = x + sum xs

-- A checksum in the place of SHA-256, which is not zero on nothing.
abbrev checksum : Sha256 ℕ
checksum = record {
  initial = 7;
  update = λ h xs. (h + sum xs) % 256;
  finalize = λ h. replicate 32 h;
}

abbrev image : List ℕ
image =
    header
    ++ replicate 4016 0
    ++ (0xe7 ∷ 2 ∷ 0 ∷ 0 ∷ replicate 32 141)
    ++ replicate 1160 0
    ++ (66 ∷ 127 ∷ 106 ∷ 168 ∷ replicate 2896 0)

-- The button is down for the six seconds from the first one on; each turn of a wait takes a quarter
-- of a second.
record World : Type 0 where
  time : ℕ
  burns : ℕ
  staged : List ℕ

abbrev reader : ImageReader World
reader = record {
  read = λ b slot at n. (b, some (slice image at (at + n)));
  verify_rsa_pss = λ b key signature digest. (b, some true);
}

abbrev flash : FlashDriver World
unfolding encode_with_state ota_crc
flash = record {
  read = λ b address n. (
    b,
    some (
        take n (
          if address == 0xf000
          then encode_with_state (entry 1 2 0) 2
          else encode_with_state (entry 2 2 0) 2)),
  );
  unlock = λ b. (b, true);
  erase = λ b address n. (b, true);
  write = λ b address bytes. (b, true);
  register = λ b address. (b, 0x8020);
}

abbrev board : Board World
board = record {
  now_ms = λ b. (b, b.time);
  is_low = λ b. (b, leb 1000 b.time && ltb b.time 7000);
  begin_wait = λ b. b;
  poll_wait = λ b. record b { time = b.time + 250 };
  end_wait = λ b. b;
  cancelled = λ b. (b, false);
}

abbrev fuses : FuseBackend World
fuses = record {
  apb_hz = λ b. (b, 80000000);
  idle = λ b. (b, true);
  set_timing = λ b. (b, true);
  refresh = λ b. (b, true);
  snapshot = λ b. (b, record { block0 = block0; repeat_errors = replicate 5 0 });
  clear_staging = λ b. record b { staged = replicate 11 0 };
  staging = λ b. (b, b.staged);
  stage_counter = λ b words. record b { staged = words ++ replicate 3 0 };
  program_block0 = λ b. (record b { burns = b.burns + 1 }, true);
}

abbrev words_le : List ℕ → List ℕ
words_le [] = []
words_le (w ∷ ws) = u32_le_bytes w ++ words_le ws

abbrev scope : List ℕ
scope =
    (82 ∷ 75 ∷ 77 ∷ 80 ∷ 76 ∷ 65 ∷ 78 ∷ 49 ∷ replicate 32 8)
    ++ replicate 32 55
    ++ replicate 32 7
    ++ words_le block0
    ++ replicate 32 141
    ++ (4 ∷ 0 ∷ 0 ∷ 0 ∷ [])

abbrev chip : Chip World
chip = record {
  scope = scope;
  trusted_root = replicate 32 7;
  major_chip_version = 0;
  minor_chip_version = 0;
  base_mac_address = 1 ∷ [];
  apb_hz = 80000000;
  spiflash_read = λ b at n. (b, some (1 ∷ []));
}

abbrev images : Images
images = record { first = replicate 32 141; second = replicate 32 141 }

abbrev world : World
world = record { time = 0; burns = 0; staged = [] }

abbrev qualified : Qualified
qualified = record {
  change = raise_counter block0 4;
  layout = record { running_slot = 1; first_sequence = 1; second_sequence = 2 };
  raw = 0x8005;
}

qualifies :
    (qualify checksum flash false reader fuses board chip world 0x3f000020 (some images)).1
    ≡ ok qualified
unfolding qualify bytes_eq has_bit count_ones secure_version_raw qualified_layout flash
    is_selectable verify_installed_slot prepare state_refusal slot_refusal
qualifies = refl

qualify-Fits_example : Fits checksum flash false reader fuses board chip images qualified
qualify-Fits_example =
    qualify-Fits checksum flash false reader fuses board chip images qualified world 0x3f000020
      qualifies

-- A request to program, for the embedded plan and both images.
abbrev request : List ℕ
request = 0x14 ∷ digest checksum scope ++ replicate 32 141 ++ replicate 32 141

abbrev start : Maintenance World
start = record { hardware = record { gate = none; led = false; board = world }; attempted = false }

programs :
    (handle checksum flash false reader fuses board chip 40 start request 0x3f000020
      idle).0.attempted
    ≡ true
unfolding handle phase_number bytes_eq has_bit count_ones secure_version_raw qualified_layout flash
    is_selectable verify_installed_slot prepare state_refusal slot_refusal
    confirm_maintenance_user_presence Gate.poll Gate.new Gate.ready_for_action attempt new
    raise_counter program_words free_bits
programs = refl

programming_needs_consent_example :
    ((handle checksum flash false reader fuses board chip 40 start request 0x3f000020
        idle).0.attempted
      ≡ false)
    ⊎ Ordered checksum flash false reader fuses board chip 40 start request 0x3f000020 idle
programming_needs_consent_example =
    programming_needs_consent checksum flash false reader fuses board chip 40 start request
      0x3f000020 idle

abbrev contents : Preview.Contents
contents = record {
  layout = qualified.layout;
  image = record {
    secure_version = 4;
    signed_image_bytes = 8192;
    signed_content_digest = replicate 32 141;
  };
}
