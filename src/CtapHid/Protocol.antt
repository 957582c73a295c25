-- ===== src/CtapHid/Protocol.antt =====
-- The constants, commands, errors and events of src/ctaphid.rs.
use salpa.Base.{ℕ, ◌+◌, ◌*◌, Bool, true, false, Option, none, some, ◌==◌, ◌≡◌, refl, if◌then◌else◌}

abbrev pub packet_size : ℕ
packet_size = 64

abbrev pub init_payload_size : ℕ
init_payload_size = 57

abbrev pub cont_payload_size : ℕ
cont_payload_size = 59

abbrev pub max_ctaphid_message_size : ℕ
max_ctaphid_message_size = init_payload_size + 128 * cont_payload_size

abbrev pub broadcast_channel : ℕ
broadcast_channel = 0xffff_ffff

abbrev pub reserved_channel : ℕ
reserved_channel = 0

abbrev pub receive_timeout_ms : ℕ
receive_timeout_ms = 550

abbrev pub error_capacity : ℕ
error_capacity = 8

pub data Command : Type 0 where
  ping msg lock init wink cbor cancel keepalive error update : Command

-- `command as u8`
abbrev pub code : Command → ℕ
code ping = 0x01
code msg = 0x03
code lock = 0x04
code init = 0x06
code wink = 0x08
code cbor = 0x10
code cancel = 0x11
code keepalive = 0x3b
code error = 0x3f
code update = 0x51

unfoldable pub from_number : ℕ → Option Command
from_number v =
    if v == 0x01
    then some ping
    else if v == 0x03
    then some msg
    else if v == 0x04
    then some lock
    else if v == 0x06
    then some init
    else if v == 0x08
    then some wink
    else if v == 0x10
    then some cbor
    else if v == 0x11
    then some cancel
    else if v == 0x3b
    then some keepalive
    else if v == 0x3f
    then some error
    else if v == 0x51
    then some update
    else none

abbrev pub is_init : Command → Bool
is_init init = true
is_init _ = false

abbrev pub is_cancel : Command → Bool
is_cancel cancel = true
is_cancel _ = false

pub data TransportError : Type 0 where
  invalid_command invalid_length invalid_sequence timeout channel_busy invalid_channel :
      TransportError

abbrev pub error_code : TransportError → ℕ
error_code invalid_command = 0x01
error_code invalid_length = 0x03
error_code invalid_sequence = 0x04
error_code timeout = 0x05
error_code channel_busy = 0x06
error_code invalid_channel = 0x0b

pub data KeepaliveStatus : Type 0 where
  processing user_presence_needed : KeepaliveStatus

abbrev pub status_code : KeepaliveStatus → ℕ
status_code processing = 0x01
status_code user_presence_needed = 0x02

pub record DeviceVersion : Type 0 where
  pub major : ℕ
  pub minor : ℕ
  pub build : ℕ

pub data Event : Type 0 where
  nothing : Event
  cbor_request : ℕ → ℕ → Event
  update_request : ℕ → ℕ → Event
  cancelled : ℕ → Event

-- `ReplyError` of src/request_completion.rs, which the engine's replies return.
pub data ReplyError : Type 0 where
  no_pending_request response_too_long : ReplyError

-- The command byte of a packet reads back as its command.
pub from_number-code : (c : Command) → from_number (code c) ≡ some c
unfolding from_number
from_number-code ping = refl
from_number-code _ = refl
