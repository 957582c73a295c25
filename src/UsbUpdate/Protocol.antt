-- ===== src/UsbUpdate/Protocol.antt =====
-- Constants, codes and the backend interface of src/usb_update.rs.
use salpa.Base.{
  ℕ, ◌+◌, ◌%◌, Bool, ◌||◌, Option, none, some, List, length, ltb, ◌==◌, if◌then◌else◌, read_u32_le,
  u32_checked_add,
}
use salpa.SignedImage.Installed.{ImageReader}

abbrev pub protocol_version : ℕ
protocol_version = 1

abbrev pub max_write_chunk : ℕ
max_write_chunk = 992

abbrev pub erase_step_size : ℕ
erase_step_size = 0x10000

abbrev pub verify_step_size : ℕ
verify_step_size = 0x10000

abbrev pub session_idle_timeout_ms : ℕ
session_idle_timeout_ms = 120000

abbrev pub session_max_lifetime_ms : ℕ
session_max_lifetime_ms = 900000

pub data Operation : Type 0 where
  info begin write advance status abort : Operation

-- `Operation::parse`
unfoldable pub parse_operation : ℕ → Option Operation
parse_operation value =
    if value == 0
    then some info
    else if value == 1
    then some begin
    else if value == 2
    then some write
    else if value == 3
    then some advance
    else if value == 4
    then some status
    else if value == 5
    then some abort
    else none

pub data StatusCode : Type 0 where
  success user_presence_required invalid_request invalid_state session_mismatch : StatusCode
  out_of_order image_size flash hash_mismatch signature rollback version_mismatch : StatusCode
  active_slot_changed session_expired : StatusCode

-- `StatusCode as u8`
unfoldable pub status_number : StatusCode → ℕ
status_number success = 0
status_number user_presence_required = 1
status_number invalid_request = 2
status_number invalid_state = 3
status_number session_mismatch = 4
status_number out_of_order = 5
status_number image_size = 6
status_number flash = 7
status_number hash_mismatch = 8
status_number signature = 9
status_number rollback = 10
status_number version_mismatch = 11
status_number active_slot_changed = 12
status_number session_expired = 13

pub data Phase : Type 0 where
  idle erasing receiving verifying activated failed : Phase

-- `Phase as u8`
unfoldable pub phase_number : Phase → ℕ
phase_number idle = 0
phase_number erasing = 1
phase_number receiving = 2
phase_number verifying = 3
phase_number activated = 4
phase_number failed = 5

pub record UpdateLayout : Type 0 where
  pub active_slot : ℕ
  pub active_sequence : ℕ
  pub activation_entry : ℕ

-- The trait `UpdateBackend`; `none` and `false` are its error.
pub record UpdateBackend (S : Type 0) : Type 0 where
  pub reader : ImageReader S
  pub now_ms : S → S × ℕ
  pub layout : S → S × Option UpdateLayout
  pub erase : S → ℕ → ℕ → ℕ → S × Bool
  pub write : S → ℕ → ℕ → List ℕ → S × Bool
  pub activate : S → ℕ → ℕ → ℕ → S × Bool

unfoldable pub parse_session_id : List ℕ → Option ℕ
parse_session_id request = if length request == 4 then some (read_u32_le request 0) else none

unfoldable pub next_sequence : ℕ → ℕ → Option ℕ
next_sequence current target_slot =
    if current == 0 || ltb 1 target_slot
    then none
    else u32_checked_add current (if current % 2 == (target_slot + 1) % 2 then 2 else 1)
