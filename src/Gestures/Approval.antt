-- ===== src/Gestures/Approval.antt =====
-- The approvals of src/platform/maintenance_presence.rs, and how one poll after another ends.
use salpa.Base.{
  ℕ, ◌+◌, ◌-◌, ◌<◌, ◌≡◌, refl, Bool, true, false, Option, none, some, List, [], ◌∷◌, if-cases,
  if◌then◌else◌, arith, subst, sym, ◌∙◌,
}
use salpa.Gestures.LongHold.{
  MaintenancePresence, State, new, poll, advance, track, gives_up, differs, timeout_ms, is_finished,
  initial_release,
}
use salpa.Gestures.Held.{
  Sample, Reached, begun, waited, Gesture, Sampled, Standing, advance-Good, track-Sampled, fresh,
  Any,
}

record Tracked (m t : MaintenancePresence) (pressed : Bool) (now : ℕ) : Type 0 where
  state : t.state ≡ m.state
  started : t.started ≡ m.started
  changed : t.changed ≡ (if differs pressed m.last_pressed then now else m.changed)
  last_pressed : t.last_pressed ≡ pressed

track-Tracked :
    (m : MaintenancePresence) (pressed : Bool) (now : ℕ)
    → Tracked m (track m pressed now) pressed now
unfolding track
track-Tracked m pressed now = record {
  state = ground arith;
  started = ground arith;
  changed = ground arith;
  last_pressed =
      if-cases (λ (t : MaintenancePresence). t.last_pressed ≡ pressed)
        (differs pressed m.last_pressed) (λ _. refl) (λ same. agree pressed m.last_pressed same);
}
  where
    agree : (a b : Bool) → differs a b ≡ false → b ≡ a
    agree true b e = ground arith
    agree false b e = ground arith

-- What a poll does to what is known of the samples.
abbrev Known : MaintenancePresence → List Sample → Type 0
Known m h = (newest : ℕ) × Standing m.state m.last_pressed m.changed newest h

poll-Known :
    (m : MaintenancePresence) (h : List Sample) (pressed : Bool) (now : ℕ) (cancelled : Bool)
    → Known m h
    → let r = poll m pressed now cancelled in
      let seen = record { pressed = pressed; now = now } ∷ h in
      (r.1 ≡ none → Known r.0 seen) × (r.1 ≡ some true → Gesture seen)
unfolding poll
poll-Known m h pressed now cancelled (newest, k) =
    let seen : List Sample = record { pressed = pressed; now = now } ∷ h in
    let P : MaintenancePresence × Option Bool → Type 0 =
      λ r. (r.1 ≡ none → Known r.0 seen) × (r.1 ≡ some true → Gesture seen) in
    if-cases P (gives_up m now cancelled) (λ _. (λ e. cc, λ e. cc))
      (λ _.
        let t = track m pressed now in
        let facts = track-Tracked m pressed now in
        let sampled =
          subst (λ (s : State). Sampled s pressed t.changed now seen) (sym facts.state)
            (subst (λ (c : ℕ). Sampled m.state pressed c now seen) (sym facts.changed)
              (track-Sampled m.state m.last_pressed pressed m.changed newest now h k)) in
        let good = advance-Good t.state pressed t.changed now seen sampled in
        (
          λ e. (
            now,
            subst
                (λ (l : Bool).
                  Standing (advance t.state pressed (now - t.changed)).0 l t.changed now seen)
                (sym facts.last_pressed) (good.0 e),
          ),
          good.1,
        ))

start_run :
    (pressed : Bool) (started : ℕ)
    → Sampled initial_release pressed started started
        (record { pressed = pressed; now = started } ∷ [])
start_run pressed started = fresh pressed started Any [] tt

reached-Known :
    (started : ℕ) (m : MaintenancePresence) (h : List Sample) → Reached started m h → Known m h
unfolding new
reached-Known started m h (begun pressed) = (started, (start_run pressed started, tt))
reached-Known started m h (waited pressed now cancelled before silent) =
    (poll-Known _ _ pressed now cancelled (reached-Known started _ _ before)).0 silent

poll-started :
    (m : MaintenancePresence) (pressed : Bool) (now : ℕ) (cancelled : Bool)
    → (poll m pressed now cancelled).0.started ≡ m.started
unfolding poll
poll-started m pressed now cancelled =
    if-cases (λ (r : MaintenancePresence × Option Bool). r.0.started ≡ m.started)
      (gives_up m now cancelled) (λ _. refl) (λ _. (track-Tracked m pressed now).started)

reached-started :
    (started : ℕ) (m : MaintenancePresence) (h : List Sample)
    → Reached started m h
    → m.started ≡ started
unfolding new
reached-started started m h (begun pressed) = refl
reached-started started m h (waited pressed now cancelled before silent) =
    poll-started _ pressed now cancelled ∙ reached-started started _ _ before

-- An approval is in time and not cancelled.
poll-live :
    (m : MaintenancePresence) (pressed : Bool) (now : ℕ) (cancelled : Bool)
    → (poll m pressed now cancelled).1 ≡ some true
    → (cancelled ≡ false) × (now < m.started + timeout_ms)
unfolding poll gives_up
poll-live m pressed now cancelled =
    if-cases
      (λ (r : MaintenancePresence × Option Bool).
        r.1 ≡ some true → (cancelled ≡ false) × (now < m.started + timeout_ms))
      (gives_up m now cancelled) (λ _ e. cc) (λ going e. (ground arith, ground arith))

advance-ends :
    (s : State) (p : Bool) (ms : ℕ)
    → (advance s p ms).1 ≡ some true
    → is_finished (advance s p ms).0 ≡ true
unfolding advance
advance-ends s p ms e = ground arith

-- An answer is the last one.
poll-ends :
    (m : MaintenancePresence) (pressed : Bool) (now : ℕ) (cancelled : Bool)
    → (poll m pressed now cancelled).1 ≡ some true
    → is_finished (poll m pressed now cancelled).0.state ≡ true
unfolding poll
poll-ends m pressed now cancelled =
    let t = track m pressed now in
    if-cases
      (λ (r : MaintenancePresence × Option Bool). r.1 ≡ some true → is_finished r.0.state ≡ true)
      (gives_up m now cancelled) (λ _ e. cc)
      (λ _ e. advance-ends t.state pressed (now - t.changed) e)

poll-refuses :
    (m : MaintenancePresence) (pressed : Bool) (now : ℕ) (cancelled : Bool)
    → is_finished m.state ≡ true
    → (poll m pressed now cancelled).1 ≡ some false
unfolding poll gives_up
poll-refuses m pressed now cancelled e = ground arith

-- A poll that approves, whatever the samples before it, ends a gesture: the button was released for
-- the debounce time, later held for five seconds, and at last released for the debounce time; it
-- is not cancelled and comes before the timeout; and whatever is sampled later is refused.
pub approval_needs_hold :
    (started : ℕ) (m : MaintenancePresence) (h : List Sample) (pressed : Bool) (now : ℕ)
    (cancelled : Bool)
    → Reached started m h
    → (poll m pressed now cancelled).1 ≡ some true
    → Gesture (record { pressed = pressed; now = now } ∷ h)
      × (cancelled ≡ false)
      × (now < started + timeout_ms)
      × ((pressed' : Bool) (now' : ℕ) (cancelled' : Bool)
          → (poll (poll m pressed now cancelled).0 pressed' now' cancelled').1 ≡ some false)
approval_needs_hold started m h pressed now cancelled reached e =
    let live = poll-live m pressed now cancelled e in
    let begins = reached-started started m h reached in
    (
      (poll-Known m h pressed now cancelled (reached-Known started m h reached)).1 e,
      live.0,
      subst (λ (t : ℕ). now < t + timeout_ms) begins live.1,
      λ p n c.
          poll-refuses (poll m pressed now cancelled).0 p n c (poll-ends m pressed now cancelled e),
    )
