-- ===== src/UserPresence/Hardware.antt =====
-- `WemosS2MiniUserHardware` and the user interface of src/platform/s2_user_presence.rs. The clock,
-- the pin and the hook that runs during the wait (the trait `UserPresenceWaitHook`) are parameters.
use salpa.Base.{ℕ, zero, suc, Bool, true, false, not, Option, none, some, if◌then◌else◌}
use salpa.Presence.Gate.{PresenceGate, Poll, Level, pressed, released, ready_for_action}
use salpa.Presence.Gate

pub record Board (S : Type 0) : Type 0 where
  pub now_ms : S → S × ℕ
  pub is_low : S → S × Bool
  pub begin_wait : S → S
  pub poll_wait : S → S
  pub end_wait : S → S
  pub cancelled : S → S × Bool

-- `led` is whether the LED is lit.
pub record UserHardware (S : Type 0) : Type 0 where
  pub gate : Option PresenceGate
  pub led : Bool
  pub board : S

abbrev pub update_user_presence_timeout_ms : ℕ
update_user_presence_timeout_ms = 15000

-- `ui::Status`, as far as the code tells its values apart.
pub data Status : Type 0 where
  idle waiting_for_user_presence other : Status

abbrev pub is_waiting : Status → Bool
is_waiting waiting_for_user_presence = true
is_waiting idle = false
is_waiting other = false

-- `hooked` is whether there is a wait hook.
pub record UserInterface (S : Type 0) : Type 0 where
  pub hardware : UserHardware S
  pub status : Status
  pub hooked : Bool

unfoldable pub new_hardware : {S : Type 0} → S → UserHardware S
new_hardware b = record { gate = none; led = false; board = b }

unfoldable pub new_interface : {S : Type 0} → UserHardware S → Bool → UserInterface S
new_interface hardware hooked = record { hardware = hardware; status = idle; hooked = hooked }

unfoldable pub end_gesture : {S : Type 0} → UserHardware S → UserHardware S
end_gesture h = record h { gate = none; led = false }

unfoldable pub finish_request : {S : Type 0} → UserHardware S → UserHardware S
unfolding end_gesture
finish_request h = end_gesture h

module _ {S : Type 0} (board : Board S) where
  unfoldable pub begin_gesture : UserHardware S → ℕ → Bool → UserHardware S
  begin_gesture h timeout_ms long_hold =
      let (b, now) = board.now_ms h.board in
      record { gate = some (Gate.new now timeout_ms long_hold); led = true; board = b }

  -- What `poll` reads of the clock and the pin.
  unfoldable pub read_pins : S → Bool → S × Poll
  read_pins b cancelled =
      let (b, now) = board.now_ms b in
      let (b, low) = board.is_low b in
      (
        b,
        record {
          sample = some (if low then pressed else released);
          now = now;
          cancelled = cancelled;
        },
      )

  -- `poll`, once the clock and the pin are read.
  unfoldable pub poll_gate : UserHardware S → Poll → UserHardware S × Option Bool
  poll_gate h p = elim h.gate [
    | none ↦ (h, none)
    | some gate ↦
        let (gate, result) = Gate.poll gate p in
        (record h { gate = some gate; led = if ready_for_action gate then true else h.led }, result)
  ]

  unfoldable pub poll : UserHardware S → Bool → UserHardware S × Option Bool
  unfolding read_pins poll_gate
  poll h cancelled =
      let (b, p) = read_pins h.board cancelled in poll_gate (record h { board = b }) p

  -- What one turn of the wait does before the gate sees its sample.
  unfoldable pub turn : S → S × Poll
  unfolding read_pins
  turn b = let (b, cancelled) = board.cancelled (board.poll_wait b) in read_pins b cancelled

  -- The loop of `confirm`; `none` means that the fuel ran out.
  unfoldable pub wait : ℕ → UserHardware S → UserHardware S × Option Bool
  unfolding turn poll_gate
  wait zero h = (h, none)
  wait (suc fuel) h =
      let (b, p) = turn h.board in
      let r = poll_gate (record h { board = b }) p in
      elim r.1 [ some result ↦ (r.0, some result) | none ↦ wait fuel r.0 ]

  unfoldable pub confirm : ℕ → UserHardware S → ℕ → Bool → UserHardware S × Option Bool
  unfolding begin_gesture wait end_gesture
  confirm fuel h timeout_ms long_hold =
      let h = begin_gesture h timeout_ms long_hold in
      let (h, confirmed) = wait fuel (record h { board = board.begin_wait h.board }) in
      (end_gesture (record h { board = board.end_wait h.board }), confirmed)

  unfoldable pub confirm_update_user_presence : ℕ → UserHardware S → UserHardware S × Option Bool
  unfolding confirm
  confirm_update_user_presence fuel h = confirm fuel h update_user_presence_timeout_ms false

  unfoldable pub confirm_maintenance_user_presence :
      ℕ → UserHardware S → UserHardware S × Option Bool
  unfolding confirm
  confirm_maintenance_user_presence fuel h = confirm fuel h 30000 true

  -- `true` is `consent::Level::Normal`, `false` is `consent::Level::None`.
  unfoldable pub check_user_presence : UserInterface S → UserInterface S × Bool
  unfolding poll
  check_user_presence u =
      if not (is_waiting u.status)
      then (u, false)
      else let (b, cancelled) =
          if u.hooked then board.cancelled u.hardware.board else (u.hardware.board, false) in
        let (h, result) = poll (record u.hardware { board = b }) cancelled in
        (record u { hardware = h }, elim result [ none ↦ false | some approved ↦ approved ])

  abbrev pub hook : Bool → (S → S) → UserHardware S → UserHardware S
  hook hooked f h = if hooked then record h { board = f h.board } else h

  unfoldable pub set_status : UserInterface S → Status → UserInterface S
  unfolding begin_gesture end_gesture
  set_status u status =
      let h =
        if is_waiting status
        then hook u.hooked board.begin_wait (begin_gesture u.hardware 30000 false)
        else if is_waiting u.status
        then hook u.hooked board.end_wait (end_gesture u.hardware)
        else u.hardware in
      record u { hardware = h; status = status }

  unfoldable pub status_of : UserInterface S → Status
  status_of u = elim u.hardware.gate [ none ↦ idle | some _ ↦ u.status ]

  unfoldable pub refresh : UserInterface S → UserInterface S
  refresh u =
      if is_waiting u.status
      then record u { hardware = hook u.hooked board.poll_wait u.hardware }
      else u
