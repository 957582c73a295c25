-- ===== src/UsbUpdate/Confined.antt =====
-- Which flash the requests of src/usb_update.rs touch: never the slot that runs, and never a byte
-- past the size that `begin` accepted.
pub mod Steps
pub mod Requests
use salpa.Base.{
  ℕ, zero, suc, ◌+◌, ◌-◌, ◌*◌, ◌%◌, ◌≤◌, ◌<◌, ◌≡◌, refl, min, Bool, true, false, not, ◌&&◌, ◌||◌,
  Option, none, some, List, [], ◌∷◌, if-cases, option-cases, ltb-false→le, match_some, arith,
  length, ltb, leb, ◌==◌, u32_checked_add, drop, read_u32_le, byte,
}
use salpa.SignedImage.Format.{Sha256, ota_slot_size, signature_sector_size}
use salpa.UsbUpdate.Protocol.{
  StatusCode, UpdateLayout, UpdateBackend, flash, next_sequence, parse_session_id, verify_step_size,
  parse_operation, Operation, info, begin, write, advance, status, abort, Phase, receiving,
  verifying, erasing, idle, activated, failed, erase_step_size,
}
use salpa.UsbUpdate.Session.{Session, UsbUpdater, Outcome, new, while_live, progress, poll, fail}
use salpa.UsbUpdate.Verify.{verify_step, hash_chunk}
use salpa.UsbUpdate.Updater.{
  conclude, start_session, valid_size, begin_session, write_chunk, write_request, erase_step,
  advance_session, advance_request, write_refusal, status_of, abort_session, run_operation,
  handle_inner, handle, encode_response,
}
use salpa.UsbUpdate.Kept
use salpa.UsbUpdate.Kept.{Quiet, After, while_live-kept, progress-kept, expire-kept}

-- The slots and the image of a session: the target is the slot beside `running`, and the image is
-- of whole sectors and fits it.
pub record SizedAt (running target active total completed : ℕ) : Type 0 where
  pub targets : target ≡ 1 - running
  pub runs : active ≡ running
  pub least : signature_sector_size * 2 ≤ total
  pub fits : total ≤ ota_slot_size
  pub sectors : total % signature_sector_size ≡ 0
  pub within : completed ≤ total

abbrev pub Sized : {H : Type 0} → ℕ → Session H → Type 0
Sized running s = SizedAt running s.target_slot s.active_slot s.total s.completed

-- A predicate on the platform that its operations keep while slot `running` runs: erasing and
-- writing are asked to keep it only in the other slot and inside it.
pub record Keeps {S : Type 0} (back : UpdateBackend S) (running : ℕ) (P : S → Type 0) : Type 0 where
  pub clock : (b : S) → P b → P (back.now_ms b).0
  pub layout : (b : S) → P b → P (back.layout b).0
  pub runs : (b : S) (l : UpdateLayout) → P b → (back.layout b).1 ≡ some l → l.active_slot ≡ running
  pub read : (b : S) (slot at n : ℕ) → P b → P (back.reader.read b slot at n).0
  pub verify :
      (b : S) (key sig digest : List ℕ) → P b → P (back.reader.verify_rsa_pss b key sig digest).0
  pub erase :
      (b : S) (at n : ℕ) → at + n ≤ ota_slot_size → P b → P (back.erase b (1 - running) at n).0
  pub write :
      (b : S) (at : ℕ) (bytes : List ℕ)
      → at + length bytes ≤ ota_slot_size
      → P b
      → P (back.write b (1 - running) at bytes).0
  pub activate :
      (b : S) (sequence entry : ℕ) → P b → P (back.activate b (1 - running) sequence entry).0

abbrev pub SessionSized : {H : Type 0} → ℕ → Option (Session H) → Type 0
SessionSized running none = Unit
SessionSized running (some s) = Sized running s

-- What holds of the updater between requests.
abbrev pub Confined : {S H : Type 0} → ℕ → (S → Type 0) → UsbUpdater S H → Type 0
Confined running P u = P u.backend × SessionSized running u.session
