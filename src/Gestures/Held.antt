-- ===== src/Gestures/Held.antt =====
-- What an approval by src/platform/maintenance_presence.rs says of the samples that led to it.
use salpa.Base.{
  ℕ, ◌+◌, ◌-◌, ◌≤◌, ◌<◌, ◌≡◌, refl, Bool, true, false, Option, none, some, List, [], ◌∷◌, ◌++◌, leb,
  if-cases, if◌then◌else◌, arith, ap,
}
use salpa.Gestures.LongHold.{
  MaintenancePresence, State, initial_release, await_press, holding, final_release, finished, new,
  poll, advance, differs, debounce_ms, hold_ms,
}

pub record Sample : Type 0 where
  pub pressed : Bool
  pub now : ℕ

abbrev pub AllAt : Bool → List Sample → Type 0
AllAt level [] = Unit
AllAt level (s ∷ ss) = (s.pressed ≡ level) × AllAt level ss

-- The time of the oldest sample, the last of the list.
abbrev pub oldest : ℕ → List Sample → ℕ
oldest now [] = now
oldest now (s ∷ ss) = oldest s.now ss

-- The newest samples, up to the one at `newest`, all show `level`, from the time `since` on; before
-- them `Before` held.
pub record Run (level : Bool) (since newest : ℕ) (Before : List Sample → Type 0) (h : List Sample)
    : Type 0 where
  pub others : List Sample
  pub past : List Sample
  pub whole : h ≡ (record { pressed = level; now = newest } ∷ others) ++ past
  pub steady : AllAt level others
  pub starts : oldest newest others ≡ since
  pub before : Before past

-- It held at some sample, this one or an earlier one.
pub record After (P : List Sample → Type 0) (h : List Sample) : Type 0 where
  pub later : List Sample
  pub past : List Sample
  pub whole : h ≡ later ++ past
  pub here : P past

abbrev pub Any : List Sample → Type 0
Any h = Unit

-- A run at `level` of at least `ms`.
abbrev pub Lasting : Bool → ℕ → (List Sample → Type 0) → List Sample → Type 0
Lasting level ms Before h =
    (since : ℕ) × ((newest : ℕ) × (Run level since newest Before h × (since + ms ≤ newest)))

abbrev pub Released : List Sample → Type 0
Released = After (Lasting false debounce_ms Any)

abbrev pub HeldLong : List Sample → Type 0
HeldLong = After (Lasting true hold_ms Released)

-- The gesture: a release, a hold, and the release that ends with the newest sample.
abbrev pub Gesture : List Sample → Type 0
Gesture = Lasting false debounce_ms HeldLong

-- The polls that brought a gesture that began at `started` to its state, none of which answered.
pub data Reached (started : ℕ) : MaintenancePresence → List Sample → Type 0 where
  begun :
      (pressed : Bool)
      → Reached started (new pressed started) (record { pressed = pressed; now = started } ∷ [])
  waited :
      {m : MaintenancePresence} {h : List Sample} (pressed : Bool) (now : ℕ) (cancelled : Bool)
      → Reached started m h
      → (poll m pressed now cancelled).1 ≡ none
      → Reached started
          (poll m pressed now cancelled).0
          (record { pressed = pressed; now = now } ∷ h)

After-later :
    {P : List Sample → Type 0} (s : Sample) (h : List Sample) → After P h → After P (s ∷ h)
After-later s h a = record {
  later = s ∷ a.later;
  past = a.past;
  whole = ap (λ l. s ∷ l) a.whole;
  here = a.here;
}

extend :
    (level : Bool) (since newest now : ℕ) (B : List Sample → Type 0) (h : List Sample)
    → Run level since newest B h
    → Run level since now B (record { pressed = level; now = now } ∷ h)
extend level since newest now B h r = record {
  others = record { pressed = level; now = newest } ∷ r.others;
  past = r.past;
  whole = ap (λ (l : List Sample). record { pressed = level; now = now } ∷ l) r.whole;
  steady = (refl, r.steady);
  starts = r.starts;
  before = r.before;
}

pub fresh :
    (level : Bool) (now : ℕ) (B : List Sample → Type 0) (h : List Sample)
    → B h
    → Run level now now B (record { pressed = level; now = now } ∷ h)
fresh level now B h b = record {
  others = [];
  past = h;
  whole = refl;
  steady = tt;
  starts = refl;
  before = b;
}

-- What a state knows of the samples, the newest of which is at `level`.
abbrev pub Sampled : State → Bool → ℕ → ℕ → List Sample → Type 0
Sampled initial_release level since newest h = Run level since newest Any h
Sampled await_press true since newest h = Run true since newest Released h × Released h
Sampled await_press false since newest h = Run false since newest Any h × Released h
Sampled holding true since newest h = Run true since newest Released h × Released h
Sampled holding false since newest h = Run false since newest Any h
Sampled final_release true since newest h = Run true since newest Any h × HeldLong h
Sampled final_release false since newest h = Run false since newest HeldLong h × HeldLong h
Sampled finished level since newest h = Unit

-- The button is down while a gesture is in the state `Holding`.
abbrev pub Possible : State → Bool → Type 0
Possible holding false = ⊥
Possible _ _ = Unit

abbrev pub Standing : State → Bool → ℕ → ℕ → List Sample → Type 0
Standing state level since newest h = Sampled state level since newest h × Possible state level

abbrev pub Good : Bool → ℕ → ℕ → List Sample → State × Option Bool → Type 0
Good level since newest h r =
    (r.1 ≡ none → Standing r.0 level since newest h) × (r.1 ≡ some true → Gesture h)

weaken :
    (level : Bool) (since newest : ℕ) (B : List Sample → Type 0) (h : List Sample)
    → Run level since newest B h
    → Run level since newest Any h
weaken level since newest B h r = record {
  others = r.others;
  past = r.past;
  whole = r.whole;
  steady = r.steady;
  starts = r.starts;
  before = tt;
}

long_enough : (ms since newest : ℕ) → 0 < ms → leb ms (newest - since) ≡ true → since + ms ≤ newest
long_enough ms since newest some_ms e = ground arith

now_here : (P : List Sample → Type 0) (h : List Sample) → P h → After P h
now_here P h p = record { later = []; past = h; whole = refl; here = p }

pub advance-Good :
    (state : State) (level : Bool) (since newest : ℕ) (h : List Sample)
    → Sampled state level since newest h
    → Good level since newest h (advance state level (newest - since))
unfolding advance
advance-Good initial_release true since newest h k = (λ _. (k, tt), λ e. cc)
advance-Good initial_release false since newest h k =
    if-cases (λ (s : State). Good false since newest h (s, none)) (leb debounce_ms (newest - since))
      (λ stable. (
        λ _. (
          (
            k,
            now_here _ h (since, (newest, (k, long_enough 25 since newest (omega arith) stable))),
          ),
          tt,
        ),
        λ e. cc,
      ))
      (λ _. (λ _. (k, tt), λ e. cc))
advance-Good await_press true since newest h k =
    if-cases (λ (s : State). Good true since newest h (s, none)) (leb debounce_ms (newest - since))
      (λ _. (λ _. (k, tt), λ e. cc)) (λ _. (λ _. (k, tt), λ e. cc))
advance-Good await_press false since newest h k = (λ _. (k, tt), λ e. cc)
advance-Good holding true since newest h k =
    if-cases (λ (s : State). Good true since newest h (s, none)) (leb hold_ms (newest - since))
      (λ stable. (
        λ _. (
          (
            weaken true since newest Released h k.0,
            now_here _ h
                (since, (newest, (k.0, long_enough 5000 since newest (omega arith) stable))),
          ),
          tt,
        ),
        λ e. cc,
      ))
      (λ _. (λ _. (k, tt), λ e. cc))
advance-Good holding false since newest h k = (λ _. (k, tt), λ e. cc)
advance-Good final_release true since newest h k = (λ _. (k, tt), λ e. cc)
advance-Good final_release false since newest h k =
    if-cases (λ (r : State × Option Bool). Good false since newest h r)
      (leb debounce_ms (newest - since))
      (λ stable.
        (λ e. cc, λ _. (since, (newest, (k.0, long_enough 25 since newest (omega arith) stable)))))
      (λ _. (λ _. (k, tt), λ e. cc))
advance-Good finished level since newest h k = (λ _. (tt, tt), λ e. cc)

pub track-Sampled :
    (state : State) (level pressed : Bool) (since newest now : ℕ) (h : List Sample)
    → Standing state level since newest h
    → Sampled state pressed
        (if differs pressed level then now else since)
        now
        (record { pressed = pressed; now = now } ∷ h)
track-Sampled initial_release true true since newest now h k =
    extend true since newest now Any h k.0
track-Sampled initial_release false false since newest now h k =
    extend false since newest now Any h k.0
track-Sampled initial_release true false since newest now h k = fresh false now Any h tt
track-Sampled initial_release false true since newest now h k = fresh true now Any h tt
track-Sampled await_press true true since newest now h k =
    (extend true since newest now Released h k.0.0, After-later _ h k.0.1)
track-Sampled await_press false false since newest now h k =
    (extend false since newest now Any h k.0.0, After-later _ h k.0.1)
track-Sampled await_press true false since newest now h k =
    (fresh false now Any h tt, After-later _ h k.0.1)
track-Sampled await_press false true since newest now h k =
    (fresh true now Released h k.0.1, After-later _ h k.0.1)
track-Sampled holding true true since newest now h k =
    (extend true since newest now Released h k.0.0, After-later _ h k.0.1)
track-Sampled holding true false since newest now h k = fresh false now Any h tt
track-Sampled holding false pressed since newest now h k = absurd k.1
track-Sampled final_release true true since newest now h k =
    (extend true since newest now Any h k.0.0, After-later _ h k.0.1)
track-Sampled final_release false false since newest now h k =
    (extend false since newest now HeldLong h k.0.0, After-later _ h k.0.1)
track-Sampled final_release true false since newest now h k =
    (fresh false now HeldLong h k.0.1, After-later _ h k.0.1)
track-Sampled final_release false true since newest now h k =
    (fresh true now Any h tt, After-later _ h k.0.1)
track-Sampled finished level pressed since newest now h k = tt
