-- ===== src/Presence/Gate/History.antt =====
-- The history of a gesture of src/platform/presence_gate.rs, and what the gate keeps of it.
use salpa.Base.{
  ℕ, ◌+◌, ◌≤◌, Bool, true, false, Option, none, some, List, ◌∷◌, if◌then◌else◌, arith, ◌≡◌, refl,
}
use salpa.Presence.Gate.{
  Level, released, pressed, uncertain, fault, Phase, initial_release, await_press, final_release,
  finished, PresenceGate, Poll, level_eq, track,
}

-- A run of polls, back from the newest, whose samples are all `l` (a missing sample does not break
-- it), begun at time `s` when `P` held of the polls before.
pub data Held (l : Level) (P : List Poll → Type 0) (s : ℕ) : List Poll → Type 0 where
  first : (p : Poll) {h : List Poll} → p.sample ≡ some l → p.now ≡ s → P h → Held l P s (p ∷ h)
  more : (p : Poll) {h : List Poll} → p.sample ≡ some l → Held l P s h → Held l P s (p ∷ h)
  gap : (p : Poll) {h : List Poll} → p.sample ≡ none → Held l P s h → Held l P s (p ∷ h)

abbrev pub Anything : List Poll → Type 0
Anything h = Unit

-- The button has been seen released for 30 ms.
pub data Armed : List Poll → Type 0 where
  arm :
      (p : Poll) {h : List Poll} (s : ℕ)
      → Held released Anything s (p ∷ h)
      → s + 30 ≤ p.now
      → Armed (p ∷ h)
  later : (p : Poll) {h : List Poll} → Armed h → Armed (p ∷ h)

-- After that it has been held down for five seconds, and no noise has been seen since.
pub data Primed : List Poll → Type 0 where
  prime :
      (p : Poll) {h : List Poll} (s : ℕ)
      → Held pressed Armed s (p ∷ h)
      → s + 5000 ≤ p.now
      → Primed (p ∷ h)
  later : (p : Poll) {h : List Poll} → ¬ (p.sample ≡ some uncertain) → Primed h → Primed (p ∷ h)

-- The gesture that the newest poll completes, for a short press and for a long hold.
abbrev pub Consent : Bool → Poll → List Poll → Type 0
Consent false p h = (s : ℕ) × Held pressed Armed s (p ∷ h) × (s + 30 ≤ p.now)
Consent true p h = (s : ℕ) × Held released Primed s (p ∷ h) × (s + 30 ≤ p.now)

-- What the gate's phase, last level and time of change say about the polls.
abbrev pub Seen : Phase → Level → ℕ → List Poll → Type 0
Seen initial_release released s h = Held released Anything s h
Seen initial_release _ s h = Unit
Seen await_press pressed s h = Armed h × Held pressed Armed s h
Seen await_press _ s h = Armed h
Seen final_release released s h = Primed h × Held released Primed s h
Seen final_release _ s h = Primed h
Seen finished _ s h = Unit

pub record Inv (long : Bool) (g : PresenceGate) (h : List Poll) : Type 0 where
  pub seen : Seen g.phase g.last_level g.since h
  pub since_le : g.since ≤ g.last_poll
  pub release_time : g.release_ms ≡ 30
  pub press_time : g.press_ms ≡ (if long then 5000 else 30)
  pub kind : g.long_hold ≡ long
  pub hold_only : g.phase ≡ final_release → long ≡ true

-- A missing sample extends every run.
pub Seen-gap :
    (ph : Phase) (l : Level) (s : ℕ) (p : Poll) (h : List Poll)
    → p.sample ≡ none
    → Seen ph l s h
    → Seen ph l s (p ∷ h)
Seen-gap initial_release released s p h e k = Held.gap p e k
Seen-gap initial_release _ s p h e k = tt
Seen-gap await_press pressed s p h e k = (Armed.later p k.0, Held.gap p e k.1)
Seen-gap await_press _ s p h e k = Armed.later p k
Seen-gap final_release released s p h e k = (Primed.later p (λ q. cc) k.0, Held.gap p e k.1)
Seen-gap final_release _ s p h e k = Primed.later p (λ q. cc) k
Seen-gap finished l s p h e k = tt

pub Seen-Armed : (l : Level) (s : ℕ) (h : List Poll) → Seen await_press l s h → Armed h
Seen-Armed pressed s h k = k.0
Seen-Armed _ s h k = k

pub Seen-Primed : (l : Level) (s : ℕ) (h : List Poll) → Seen final_release l s h → Primed h
Seen-Primed released s h k = k.0
Seen-Primed _ s h k = k

abbrev pub since_of : Level → Level → ℕ → ℕ → ℕ
since_of new_level old s now = if level_eq new_level old then s else now

pub track-eq :
    (k l : Level) (g : PresenceGate) (now : ℕ)
    → track (record g { last_level = l }) k now
      ≡ record g { last_level = k; since = since_of k l g.since now }
unfolding track
track-eq k l g now = ground arith

abbrev pub Quiet : Phase → Level → Type 0
Quiet final_release uncertain = ⊥
Quiet _ fault = ⊥
Quiet _ _ = Unit

-- A sample extends the run of its own level, or begins one.
pub Seen-track :
    (ph : Phase) (k l : Level) (s : ℕ) (p : Poll) (h : List Poll)
    → Quiet ph k
    → p.sample ≡ some k
    → Seen ph l s h
    → Seen ph k (since_of k l s p.now) (p ∷ h)
Seen-track initial_release released released s p h q e v = Held.more p e v
Seen-track initial_release released _ s p h q e v = Held.first p e refl tt
Seen-track initial_release _ l s p h q e v = tt
Seen-track await_press pressed pressed s p h q e v = (Armed.later p v.0, Held.more p e v.1)
Seen-track await_press pressed l s p h q e v =
    (Armed.later p (Seen-Armed l s h v), Held.first p e refl (Seen-Armed l s h v))
Seen-track await_press _ l s p h q e v = Armed.later p (Seen-Armed l s h v)
Seen-track final_release released released s p h q e v =
    (Primed.later p (λ q. cc) v.0, Held.more p e v.1)
Seen-track final_release released l s p h q e v =
    (Primed.later p (λ q. cc) (Seen-Primed l s h v), Held.first p e refl (Seen-Primed l s h v))
Seen-track final_release uncertain l s p h q e v = absurd q
Seen-track final_release pressed l s p h q e v = Primed.later p (λ q. cc) (Seen-Primed l s h v)
Seen-track final_release fault l s p h q e v = absurd q
Seen-track finished k l s p h q e v = tt

pub rephase :
    {long : Bool} {g : PresenceGate} {h : List Poll} (ph : Phase)
    → Inv long g h
    → Seen ph g.last_level g.since h
    → (ph ≡ final_release → long ≡ true)
    → Inv long (record g { phase = ph }) h
rephase ph v s only = record {
  seen = s;
  since_le = v.since_le;
  release_time = v.release_time;
  press_time = v.press_time;
  kind = v.kind;
  hold_only = only;
}

abbrev pub Outcome : Bool → Poll → List Poll → PresenceGate × Option Bool → Type 0
Outcome long p h (g, r) = Inv long g (p ∷ h) × (r ≡ some true → Consent long p h)
