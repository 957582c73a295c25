-- ===== src/Gestures/Provisioning.antt =====
-- `ProvisioningGesture` of src/platform/provisioning.rs, and what it says of the samples so far.
use salpa.Base.{
  ℕ, ◌-◌, ◌≡◌, refl, Bool, true, false, not, ◌&&◌, ◌||◌, Option, none, some, List, [], ◌∷◌, leb,
  if◌then◌else◌, if-cases, ap, ap₂, sym, ◌∙◌, arith,
}
use salpa.Gestures.Held.{Sample}

pub record ProvisioningGesture : Type 0 where
  pub required_hold_ms : ℕ
  pub release_seen : Bool
  pub pressed_since_ms : Option ℕ

unfoldable pub new : ℕ → ProvisioningGesture
new required_hold_ms = record {
  required_hold_ms = required_hold_ms;
  release_seen = false;
  pressed_since_ms = none;
}

-- `get_or_insert`
abbrev pub or_now : Option ℕ → ℕ → ℕ
or_now none now = now
or_now (some t) now = t

unfoldable pub sample : ProvisioningGesture → Bool → ℕ → ProvisioningGesture × Bool
sample g pressed now_ms =
    if not pressed
    then (record g { release_seen = true; pressed_since_ms = none }, false)
    else if not g.release_seen
    then (g, false)
    else let since = or_now g.pressed_since_ms now_ms in
      (record g { pressed_since_ms = some since }, leb g.required_hold_ms (now_ms - since))

-- The gesture after the samples, of which the first is the newest.
unfoldable pub after : ℕ → List Sample → ProvisioningGesture
unfolding new sample
after required [] = new required
after required (s ∷ ss) = (sample (after required ss) s.pressed s.now).0

-- Whether some sample found the button released.
abbrev pub was_released : List Sample → Bool
was_released [] = false
was_released (s ∷ ss) = not s.pressed || was_released ss

-- Since when a button that is down at `now` was found down at every sample.
abbrev pub down_since : ℕ → List Sample → ℕ
down_since now [] = now
down_since now (s ∷ ss) = if s.pressed then down_since s.now ss else now

-- The same of the samples alone.
abbrev run_start : List Sample → Option ℕ
run_start [] = none
run_start (s ∷ ss) = if s.pressed then some (down_since s.now ss) else none

down_since-run_start : (now : ℕ) (ss : List Sample) → down_since now ss ≡ or_now (run_start ss) now
down_since-run_start now [] = refl
down_since-run_start now (s ∷ ss) = ground arith

record Told (required : ℕ) (h : List Sample) (g : ProvisioningGesture) : Type 0 where
  required_hold : g.required_hold_ms ≡ required
  released : g.release_seen ≡ was_released h
  since : g.pressed_since_ms ≡ (if was_released h then run_start h else none)

seen_run :
    (pressed released : Bool) (since run : Option ℕ) (now d : ℕ)
    → not pressed ≡ false
    → released ≡ true
    → since ≡ (if released then run else none)
    → d ≡ or_now run now
    → some (or_now since now)
      ≡ (if not pressed || released then (if pressed then some d else none) else none)
seen_run true true since run now d p r e f = ap some (ap (λ o. or_now o now) e ∙ sym f)
seen_run true false since run now d p r e f = cc
seen_run false released since run now d p r e f = cc

unseen_run :
    (pressed released : Bool) (since run : Option ℕ) (d : ℕ)
    → not pressed ≡ false
    → released ≡ false
    → since ≡ (if released then run else none)
    → since ≡ (if not pressed || released then (if pressed then some d else none) else none)
unseen_run true true since run d p r e = cc
unseen_run true false since run d p r e = e
unseen_run false released since run d p r e = cc

held_or : (pressed released : Bool) → not pressed ≡ false → released ≡ (not pressed || released)
held_or true released e = refl
held_or false released e = cc

after-Told : (required : ℕ) (h : List Sample) → Told required h (after required h)
unfolding after new sample
after-Told required [] = record { required_hold = refl; released = refl; since = refl }
after-Told required (s ∷ ss) =
    let told = after-Told required ss in
    let g = after required ss in
    let start = down_since-run_start s.now ss in
    if-cases (λ (r : ProvisioningGesture × Bool). Told required (s ∷ ss) r.0) (not s.pressed)
      (λ up. record {
        required_hold = told.required_hold;
        released = ground arith;
        since = ground arith;
      })
      (λ down.
        if-cases (λ (r : ProvisioningGesture × Bool). Told required (s ∷ ss) r.0)
          (not g.release_seen)
          (λ unseen. record {
            required_hold = told.required_hold;
            released = told.released ∙ held_or s.pressed (was_released ss) down;
            since =
                unseen_run s.pressed (was_released ss) _ (run_start ss) (down_since s.now ss) down
                  (ground arith) told.since;
          })
          (λ seen. record {
            required_hold = told.required_hold;
            released = told.released ∙ held_or s.pressed (was_released ss) down;
            since =
                seen_run s.pressed (was_released ss) _ (run_start ss) s.now (down_since s.now ss)
                  down (ground arith) told.since start;
          }))

decides :
    (pressed seen released : Bool) (since run : Option ℕ) (hold required now d : ℕ)
    → seen ≡ released
    → since ≡ (if released then run else none)
    → hold ≡ required
    → d ≡ or_now run now
    → (sample
        (record { required_hold_ms = hold; release_seen = seen; pressed_since_ms = since })
        pressed
        now).1
      ≡ (pressed && released && leb required (now - d))
unfolding sample
decides false seen released since run hold required now d s e r f = refl
decides true false false since run hold required now d s e r f = refl
decides true true true since run hold required now d s e r f =
    ap₂ (λ (h : ℕ) (t : ℕ). leb h (now - t)) r (ap (λ o. or_now o now) e ∙ sym f)
decides true true false since run hold required now d s e r f = cc
decides true false true since run hold required now d s e r f = cc

-- After any samples, a sample confirms exactly if the button is down, some earlier sample found it
-- released, and it was found down at every sample for the required time.
pub sample_lem :
    (required : ℕ) (h : List Sample) (pressed : Bool) (now : ℕ)
    → (sample (after required h) pressed now).1
      ≡ (pressed && was_released h && leb required (now - down_since now h))
unfolding sample
sample_lem required h pressed now =
    let g = after required h in
    let told = after-Told required h in
    decides pressed g.release_seen (was_released h) g.pressed_since_ms (run_start h)
      g.required_hold_ms required now (down_since now h) told.released told.since told.required_hold
      (down_since-run_start now h)
