-- ===== src/UserPresence/Confirm.antt =====
-- What an answer of `confirm` of src/platform/s2_user_presence.rs means, and that it comes.
use salpa.Base.{
  ℕ, zero, suc, ◌+◌, ◌*◌, ◌≤◌, ◌<◌, ◌≡◌, ◌≢◌, refl, ◌∙◌, Bool, true, false, Option, none, some,
  List, [], ◌∷◌, arith, option-cases,
}
use native.Mathlib.Nat.{mul-le-mul_right, add-mul}
use salpa.Presence.Gate.{PresenceGate, Poll, after}
use salpa.Presence.Gate
use salpa.Presence.Gate.History.{Consent}
use salpa.Presence.Gate.Consent.{poll-Consent, poll_in_time}
use salpa.UserPresence.Hardware.{
  Board, UserHardware, begin_gesture, turn, poll_gate, wait, confirm, end_gesture, read_pins,
}

poll_waits :
    (g : PresenceGate) (p : Poll)
    → (Gate.poll g p).1 ≡ none
    → (p.now < g.deadline) × ((Gate.poll g p).0.deadline ≡ g.deadline)
unfolding Gate.poll
poll_waits g p e = ground arith

poll-deadline : (g : PresenceGate) (p : Poll) → (Gate.poll g p).0.deadline ≡ g.deadline
unfolding Gate.poll
poll-deadline g p = ground arith

module _ {S : Type 0} (board : Board S) where
  -- The polls that turns of the wait make from `b` on, the newest first, and the board after them.
  pub data Watched (b : S) : List Poll → S → Type 0 where
    start : Watched b [] b
    next :
        {h : List Poll} (c : S) → Watched b h c → Watched b ((turn board c).1 ∷ h) (turn board c).0

  -- An approval: the turns since `b` made a fresh gesture, which the newest of them completed in time.
  pub record Approved (long : Bool) (b : S) (deadline : ℕ) : Type 0 where
    pub polls : List Poll
    pub last : S
    pub watched : Watched b polls last
    pub consent : Consent long (turn board last).1 polls
    pub live : (turn board last).1.cancelled ≡ false
    pub in_time : (turn board last).1.now < deadline

  module _ (now timeout_ms : ℕ) (long : Bool) (b : S) where
    abbrev waiting : List Poll → Bool → S → UserHardware S
    waiting h led c = record {
      gate = some (after (Gate.new now timeout_ms long) h);
      led = led;
      board = c;
    }

    deadline-le :
        (h : List Poll) → (after (Gate.new now timeout_ms long) h).deadline ≤ now + timeout_ms
    unfolding after Gate.new
    deadline-le [] = omega arith
    deadline-le (p ∷ h) =
        rw (poll-deadline (after (Gate.new now timeout_ms long) h) p) (deadline-le h)

    approval :
        (h : List Poll) (c : S)
        → Watched b h c
        → (Gate.poll (after (Gate.new now timeout_ms long) h) (turn board c).1).1 ≡ some true
        → Approved long b (now + timeout_ms)
    approval h c watched e =
        let p = (turn board c).1 in
        let (live, _, in_time) = poll_in_time (after (Gate.new now timeout_ms long) h) p e in
        record {
          polls = h;
          last = c;
          watched = watched;
          consent = poll-Consent now timeout_ms long h p e;
          live = live;
          in_time = omega (arith, in_time, deadline-le h);
        }

    wait-Approved :
        (fuel : ℕ) (h : List Poll) (led : Bool) (c : S)
        → Watched b h c
        → (wait board fuel (waiting h led c)).1 ≡ some true
        → Approved long b (now + timeout_ms)
    unfolding wait poll_gate after
    wait-Approved zero h led c watched = λ e. cc
    wait-Approved (suc fuel) h led c watched =
        let p = (turn board c).1 in
        option-cases
          (λ (r : UserHardware S × Option Bool).
            r.1 ≡ some true → Approved long b (now + timeout_ms))
          (Gate.poll (after (Gate.new now timeout_ms long) h) p).1
          (λ _. wait-Approved fuel (p ∷ h) _ (turn board c).0 (next c watched))
          (λ a found e. approval h c watched (found ∙ e))

  -- An answer of yes comes from a fresh gesture that the turns of this wait saw, completed before the
  -- deadline and not cancelled; whatever the answer, the gesture is discarded and the LED is off.
  pub confirm-Approved :
      (fuel : ℕ) (hw : UserHardware S) (timeout_ms : ℕ) (long : Bool)
      → let r = confirm board fuel hw timeout_ms long in
        let (b, now) = board.now_ms hw.board in
        (r.1 ≡ some true → Approved long (board.begin_wait b) (now + timeout_ms))
        × (r.0.gate ≡ none)
        × (r.0.led ≡ false)
  unfolding confirm begin_gesture end_gesture after
  confirm-Approved fuel hw timeout_ms long =
      let (b, now) = board.now_ms hw.board in
      (
        wait-Approved now timeout_ms long (board.begin_wait b) fuel [] true (board.begin_wait b)
            start,
        refl,
        refl,
      )

  -- Time in units that are finer than the milliseconds of `now_ms`, `per_ms` of them in each, as
  -- the cycles of the processor are. A reading cuts off what is past a whole millisecond; nothing
  -- turns time back, and polling takes some. A turn may well read the time that the one before it
  -- read.
  pub record Timed (time : S → ℕ) (per_ms : ℕ) : Type 0 where
    pub reads :
        (b : S)
        → ((board.now_ms b).1 * per_ms ≤ time b) × (time b < ((board.now_ms b).1 + 1) * per_ms)
    pub reading : (b : S) → time b ≤ time (board.now_ms b).0
    pub sampling : (b : S) → time b ≤ time (board.is_low b).0
    pub begins : (b : S) → time b ≤ time (board.begin_wait b)
    pub polls : (b : S) → time b < time (board.poll_wait b)
    pub asks : (b : S) → time b ≤ time (board.cancelled b).0

  module _ (time : S → ℕ) (per_ms : ℕ) (timed : Timed time per_ms) where
    -- A turn takes time, and reads a time after it began.
    turn-Timed :
        (b : S) → let t = turn board b in (time b < time t.0) × (time b < (t.1.now + 1) * per_ms)
    unfolding turn read_pins
    turn-Timed b =
        let p = board.poll_wait b in
        let c = (board.cancelled p).0 in
        let n = (board.now_ms c).0 in
        let first = timed.polls b in
        let second = timed.asks p in
        let third = timed.reading c in
        let fourth = timed.sampling n in let shown = (timed.reads c).1 in (omega arith, omega arith)

    module _ (now timeout_ms : ℕ) (long : Bool) where
      wait_answers :
          (fuel : ℕ) (h : List Poll) (led : Bool) (c : S)
          → 0 < fuel
          → (now + timeout_ms) * per_ms < time c + fuel
          → (wait board fuel (waiting now timeout_ms long c h led c)).1 ≢ none
      unfolding wait poll_gate after
      wait_answers zero h led c some_fuel enough = absurd (omega arith)
      wait_answers (suc fuel) h led c some_fuel enough =
          let g = after (Gate.new now timeout_ms long) h in
          let p = (turn board c).1 in
          let (later, shown) = turn-Timed c in
          option-cases (λ (r : UserHardware S × Option Bool). r.1 ≢ none) (Gate.poll g p).1
            (λ silent.
              let early = (poll_waits g p silent).0 in
              let limit = deadline-le now timeout_ms long c h in
              let whole : p.now + 1 ≤ now + timeout_ms = omega arith in
              let scaled : (p.now + 1) * per_ms ≤ (now + timeout_ms) * per_ms =
                mul-le-mul_right per_ms whole in
              wait_answers fuel (p ∷ h) _ (turn board c).0 (omega arith) (omega arith))
            (λ a found e. cc)

  -- Where time is finer than the milliseconds that the clock shows, never turns back, and passes
  -- while the hook polls, `confirm` answers, after as many turns at most as the timeout has of the
  -- finer units, and one.
  pub confirm_answers :
      (time : S → ℕ) (per_ms : ℕ)
      → Timed time per_ms
      → (hw : UserHardware S) (timeout_ms : ℕ) (long : Bool)
      → (answer : Bool) × ((confirm board (suc (timeout_ms * per_ms)) hw timeout_ms long).1
          ≡ some answer)
  unfolding confirm begin_gesture after
  confirm_answers time per_ms timed hw timeout_ms long =
      let (b, now) = board.now_ms hw.board in
      let c = board.begin_wait b in
      let read = (timed.reads hw.board).0 in
      let reading = timed.reading hw.board in
      let begun = timed.begins b in
      let split : (now + timeout_ms) * per_ms ≡ now * per_ms + timeout_ms * per_ms =
        add-mul now timeout_ms per_ms in
      answered _ (
        wait_answers time per_ms timed now timeout_ms long (suc (timeout_ms * per_ms)) [] true c
          (omega arith) (omega arith))
    where
      answered : (o : Option Bool) → o ≢ none → (answer : Bool) × (o ≡ some answer)
      answered none n = absurd (n refl)
      answered (some a) n = (a, refl)
