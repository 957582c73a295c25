-- ===== src/Gestures/LongHold.antt =====
-- `MaintenancePresence` of src/platform/maintenance_presence.rs: a fresh release, a hold of five
-- seconds, and a release.
use salpa.Base.{
  ℕ, ◌-◌, Bool, true, false, not, ◌&&◌, ◌||◌, Option, none, some, ltb, leb, if◌then◌else◌,
}

abbrev pub debounce_ms : ℕ
debounce_ms = 25

abbrev pub hold_ms : ℕ
hold_ms = 5000

abbrev pub timeout_ms : ℕ
timeout_ms = 30000

pub data State : Type 0 where
  initial_release await_press holding final_release finished : State

pub record MaintenancePresence : Type 0 where
  pub state : State
  pub started : ℕ
  pub changed : ℕ
  pub last_pressed : Bool

unfoldable pub new : Bool → ℕ → MaintenancePresence
new pressed now_ms = record {
  state = initial_release;
  started = now_ms;
  changed = now_ms;
  last_pressed = pressed;
}

abbrev pub is_finished : State → Bool
is_finished finished = true
is_finished _ = false

abbrev pub differs : Bool → Bool → Bool
differs true b = not b
differs false b = b

-- The first test of `poll`.
unfoldable pub gives_up : MaintenancePresence → ℕ → Bool → Bool
gives_up m now_ms cancelled =
    cancelled || ltb now_ms m.changed || leb timeout_ms (now_ms - m.started) || is_finished m.state

unfoldable pub track : MaintenancePresence → Bool → ℕ → MaintenancePresence
track m pressed now_ms =
    if differs pressed m.last_pressed
    then record m { last_pressed = pressed; changed = now_ms }
    else m

-- The state after a sample that has been stable for `stable_ms`, and the answer.
unfoldable pub advance : State → Bool → ℕ → State × Option Bool
advance initial_release pressed stable_ms =
    (if not pressed && leb debounce_ms stable_ms then await_press else initial_release, none)
advance await_press pressed stable_ms =
    (if pressed && leb debounce_ms stable_ms then holding else await_press, none)
advance holding pressed stable_ms = (
  if not pressed then initial_release else if leb hold_ms stable_ms then final_release else holding,
  none,
)
advance final_release pressed stable_ms =
    if not pressed && leb debounce_ms stable_ms
    then (finished, some true)
    else (final_release, none)
advance finished pressed stable_ms = (finished, none)

unfoldable pub poll : MaintenancePresence → Bool → ℕ → Bool → MaintenancePresence × Option Bool
unfolding gives_up track advance
poll m pressed now_ms cancelled =
    if gives_up m now_ms cancelled
    then (record m { state = finished }, some false)
    else let m = track m pressed now_ms in
      let (state, answer) = advance m.state pressed (now_ms - m.changed) in
      (record m { state = state }, answer)
