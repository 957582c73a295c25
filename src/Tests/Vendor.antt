-- ===== src/Tests/Vendor.antt =====
-- Vendor requests of src/platform/vendor_commands.rs, with the button pressed or not.
use salpa.Base.{
  ℕ, suc, ◌+◌, ◌*◌, ◌/◌, ◌≡◌, ◌⊎◌, refl, Bool, true, false, none, some, List, [], ◌∷◌, leb, is_some,
  bytes_eq, arith,
}
use salpa.Presence.Gate
use salpa.UsbUpdate.Session.{UsbUpdater}
use salpa.UsbUpdate.Session as Session
use salpa.UsbUpdate.Updater.{handle}
use salpa.UserPresence.Hardware.{Board, UserHardware, confirm}
use salpa.UserPresence.Confirm.{Approved, Timed, confirm-Approved, confirm_answers}
use salpa.VendorCommands.Dispatch
use salpa.VendorCommands.Dispatch.{
  Services, S2Handlers, Reply, dispatch, answer, diagnostics, s2_handlers,
}
use salpa.VendorCommands.Absent.{NoneBegun}
use salpa.VendorCommands.Consent.{Consented, session_needs_press}
use salpa.Tests.Image.{checksum, trusted}
use salpa.Tests.Update.{Device, device, fresh, begin_bytes}

-- Each turn of a wait takes ten milliseconds; the button is down from `press` on.
record World : Type 0 where
  time : ℕ
  press : ℕ

abbrev board : Board World
board = record {
  now_ms = λ b. (b, b.time);
  is_low = λ b. (b, leb b.press b.time);
  begin_wait = λ b. b;
  poll_wait = λ b. record b { time = b.time + 10 };
  end_wait = λ b. b;
  cancelled = λ b. (b, false);
}

abbrev idle_world : UserHardware World
idle_world = record { gate = none; led = false; board = record { time = 0; press = 200 } }

approves : (confirm board 40 idle_world 15000 false).1 ≡ some true
unfolding confirm Gate.new Gate.poll Gate.ready_for_action
approves = refl

confirm-Approved_example :
    ((confirm board 40 idle_world 15000 false).1 ≡ some true
      → Approved board false idle_world.board (0 + 15000))
    × ((confirm board 40 idle_world 15000 false).0.gate ≡ none)
    × ((confirm board 40 idle_world 15000 false).0.led ≡ false)
confirm-Approved_example = confirm-Approved board 40 idle_world 15000 false

-- A turn takes a quarter of a millisecond here, and four of them in a row may read the same time.
abbrev quick_board : Board World
quick_board = record board {
  now_ms = λ b. (b, b.time / 4);
  poll_wait = λ b. record b { time = b.time + 1 };
}

quarters : World → ℕ
quarters b = b.time

quick_board-Timed : Timed quick_board quarters 4
unfolding quarters
quick_board-Timed = record {
  reads = λ b. (omega arith, omega arith);
  reading = λ b. omega arith;
  sampling = λ b. omega arith;
  begins = λ b. omega arith;
  polls = λ b. omega arith;
  asks = λ b. omega arith;
}

confirm_answers_example :
    (a : Bool) × ((confirm quick_board (suc (50 * 4)) idle_world 50 false).1 ≡ some a)
confirm_answers_example =
    confirm_answers quick_board quarters 4 quick_board-Timed idle_world 50 false

abbrev services : Services World
services = record {
  maintenance = λ h request phase response. record { state = h; response = response; value = none };
  preview = λ h request phase response. record { state = h; response = response; value = none };
  memory_status = [];
  security_status = [];
}

abbrev start : S2Handlers Device (List ℕ) World
start = record { updater = Session.new fresh trusted (55 ∷ 46 ∷ 48 ∷ []) 3; hardware = idle_world }

abbrev begun : Reply (S2Handlers Device (List ℕ) World) ℕ
begun = dispatch (s2_handlers checksum device board services true 40) start begin_bytes []

begins : is_some begun.state.updater.session ≡ true
unfolding dispatch Dispatch.diagnostics Dispatch.update Dispatch.confirm_update handle confirm
    Gate.new Gate.poll Gate.ready_for_action Session.new bytes_eq
begins = refl

session_needs_press_example :
    NoneBegun checksum device start.updater begun.state.updater
    ⊎ Consented checksum device board services true 40 (
        answer
          (s2_handlers checksum device board services true 40)
          begin_bytes
          (diagnostics checksum device board services true 40 start begin_bytes []))
session_needs_press_example =
    session_needs_press checksum device board services true 40 start begin_bytes []
