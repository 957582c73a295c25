-- ===== src/Tests/Update.antt =====
-- An update over USB, from begin to activation, as in src/usb_update.rs.
use salpa.Base.{
  arith, bytes_eq, ℕ, ◌+◌, is_some, ◌≡◌, refl, sym, ap, true, false, Option, none, some,
  some-injective, List, [], ◌∷◌, ◌++◌, replicate, slice, write_at, u32_le_bytes, ◌==◌,
  if◌then◌else◌,
}
use salpa.SignedImage.Format.{digest, parse_image_metadata, parse_signature_block}
use salpa.UsbUpdate.Protocol.{
  UpdateBackend, UpdateLayout, success, idle, activated, next_sequence, status_number, phase_number,
}
use salpa.UsbUpdate.Session.{Session, UsbUpdater, new, overdue, poll, current_phase, is_live}
use salpa.UsbUpdate.Updater.{handle, is_activated}
use salpa.UsbUpdate.Sequence.{Picks, next_sequence_least}
use salpa.UsbUpdate.Confined.{Keeps, Confined}
use salpa.UsbUpdate.Confined.Requests.{Event, tick, request, run, run-Confined}
use salpa.UsbUpdate.Authentic.{Flash, Approved}
use salpa.UsbUpdate.Authentic.Requests.{activation-Approved}
use salpa.UsbUpdate.Expiry.{NoAuthority, overdue_ends}
use salpa.Tests.Image.{checksum, checksum_streams, image, trusted}
use salpa.Tests.Installed.{Accepted}

-- A device that runs slot 0, with a clock that moves by `pace` when it is read.
pub record Device : Type 0 where
  pub clock : ℕ
  pub pace : ℕ
  pub first : List ℕ
  pub second : List ℕ

abbrev contents : Device → ℕ → List ℕ
contents d slot = if slot == 0 then d.first else d.second

abbrev put : Device → ℕ → ℕ → List ℕ → Device
put d slot at bytes =
    if slot == 0
    then record d { first = write_at at bytes d.first }
    else record d { second = write_at at bytes d.second }

abbrev pub device : UpdateBackend Device
device = record {
  reader = record {
    read = λ d slot at n. (d, some (slice (contents d slot) at (at + n)));
    verify_rsa_pss = λ d key signature bytes. (d, some true);
  };
  now_ms = λ d. (record d { clock = d.clock + d.pace }, d.clock + d.pace);
  layout = λ d. (d, some (record { active_slot = 0; active_sequence = 1; activation_entry = 1 }));
  erase = λ d slot at n. (put d slot at (replicate n 255), true);
  write = λ d slot at bytes. (put d slot at bytes, true);
  activate = λ d slot sequence entry. (d, true);
}

abbrev pub fresh : Device
fresh = record { clock = 0; pace = 1; first = 1 ∷ 2 ∷ 3 ∷ []; second = replicate 8192 0 }

abbrev pub begin_bytes : List ℕ
begin_bytes =
    1 ∷ 1 ∷ u32_le_bytes 8192 ++ digest checksum image ++ u32_le_bytes 4 ++ (3 ∷ 55 ∷ 46 ∷ 49 ∷ [])

abbrev pub begin_request : Event
begin_request = request begin_bytes true

abbrev pub advance_request : Event
advance_request = request (3 ∷ u32_le_bytes 1) false

abbrev write_request : ℕ → ℕ → Event
write_request at n =
    request (2 ∷ u32_le_bytes 1 ++ u32_le_bytes at ++ slice image at (at + n)) false

abbrev upload : List Event
upload =
    begin_request
    ∷ advance_request
    ∷ tick
    ∷ write_request 0 992
    ∷ write_request 992 992
    ∷ write_request 1984 992
    ∷ write_request 2976 992
    ∷ write_request 3968 992
    ∷ write_request 4960 992
    ∷ write_request 5952 992
    ∷ write_request 6944 992
    ∷ write_request 7936 256
    ∷ advance_request
    ∷ []

abbrev updated : UsbUpdater Device (List ℕ)
updated = run checksum device (new fresh trusted (55 ∷ 46 ∷ 48 ∷ []) 3) upload

-- What an updater without a session is taken to hold.
abbrev no_session : Session (List ℕ)
no_session = record {
  started_ms = 0;
  last_progress_ms = 0;
  last_checked_ms = 0;
  id = 0;
  phase = idle;
  target_slot = 0;
  active_slot = 0;
  active_sequence = 0;
  activation_entry = 0;
  target_sequence = 0;
  total = 0;
  expected_hash = [];
  expected_secure_version = 0;
  expected_version = [];
  completed = 0;
  full_hasher = [];
  signed_hasher = [];
  failure = success;
}

activates : current_phase updated ≡ activated
unfolding run handle current_phase new bytes_eq parse_image_metadata parse_signature_block
    status_number phase_number
activates = refl

flash : Flash device contents Accepted
flash = record {
  reads = λ b slot at n bytes e. sym (some-injective _ bytes e);
  verifies = λ b key signature digest e. tt;
  clock = λ b slot. refl;
  layout = λ b slot. refl;
  read = λ b slot from at n. refl;
  verify = λ b slot key signature digest. refl;
  activate = λ b slot target sequence entry. refl;
}

abbrev session_or : Option (Session (List ℕ)) → Session (List ℕ)
session_or none = no_session
session_or (some s) = s

session_or-some : (o : Option (Session (List ℕ))) → is_some o ≡ true → o ≡ some (session_or o)
session_or-some none e = cc
session_or-some (some s) e = refl

abbrev final : Session (List ℕ)
final = session_or updated.session

has_session : is_some updated.session ≡ true
unfolding run handle new bytes_eq parse_image_metadata parse_signature_block
has_session = refl

is_active : is_activated final.phase ≡ true
unfolding run handle new bytes_eq parse_image_metadata parse_signature_block
is_active = refl

activation-Approved_example :
    Approved checksum Accepted trusted 3
      (contents updated.backend final.target_slot)
      final.total
      final.expected_hash
      final.expected_secure_version
      final.expected_version
activation-Approved_example =
    activation-Approved checksum checksum_streams device contents Accepted flash trusted 3 fresh
      (55 ∷ 46 ∷ 48 ∷ []) upload final (session_or-some updated.session has_session) is_active

-- The running slot keeps its bytes.
abbrev Untouched : Device → Type 0
Untouched d = d.first ≡ (1 ∷ 2 ∷ 3 ∷ [])

kept-Untouched : Keeps device 0 Untouched
kept-Untouched = record {
  clock = λ b p. p;
  layout = λ b p. p;
  runs = λ b l p e. ap (λ (x : UpdateLayout). x.active_slot) (sym (some-injective _ l e));
  read = λ b slot at n p. p;
  verify = λ b key sig digest p. p;
  erase = λ b at n l p. p;
  write = λ b at bytes l p. p;
  activate = λ b sequence entry p. p;
}

run-Confined_example : Confined 0 Untouched updated
run-Confined_example =
    run-Confined checksum device 0 Untouched kept-Untouched fresh trusted (55 ∷ 46 ∷ 48 ∷ []) 3
      upload refl

picks : next_sequence 7 1 ≡ some 8
unfolding next_sequence
picks = refl

next_sequence_least_example : (next : ℕ) × Picks 7 1 next
next_sequence_least_example = next_sequence_least 7 1 (omega arith) (omega arith) (omega arith)

-- A device whose clock moves 100 seconds with every reading.
abbrev slow : Device
slow = record { clock = 0; pace = 100000; first = 1 ∷ []; second = 7 ∷ [] }

abbrev waiting : UsbUpdater Device (List ℕ)
waiting = run checksum device (new slow trusted (55 ∷ 46 ∷ 48 ∷ []) 3) (begin_request ∷ tick ∷ [])

waiting_found : is_some waiting.session ≡ true
unfolding run handle new
waiting_found = refl

waiting_live : is_live (session_or waiting.session).phase ≡ true
unfolding run handle new
waiting_live = refl

waiting_late : overdue (session_or waiting.session) (device.now_ms waiting.backend).1 ≡ true
unfolding run handle new overdue
waiting_late = refl

waiting_second : waiting.backend.second ≡ (7 ∷ [])
unfolding run handle new
waiting_second = refl

overdue_ends_example :
    let after =
      run checksum device
        (poll device waiting)
        (advance_request ∷ write_request 0 992 ∷ tick ∷ []) in
    (after.backend.second ≡ (7 ∷ [])) × NoAuthority after.session
overdue_ends_example =
    overdue_ends checksum device (λ d. d.second ≡ (7 ∷ [])) (λ d p. p) waiting
      (session_or waiting.session) (advance_request ∷ write_request 0 992 ∷ tick ∷ [])
      (session_or-some waiting.session waiting_found) waiting_live waiting_late waiting_second
      (refl, (refl, (refl, tt)))
