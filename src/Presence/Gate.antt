-- ===== src/Presence/Gate.antt =====
-- `PresenceGate` of src/platform/presence_gate.rs. Times are `u64` milliseconds; the one sum,
-- the deadline, saturates.
pub mod History
pub mod Consent
use salpa.Base.{
  ℕ, ◌+◌, ◌-◌, min, Bool, true, false, ◌&&◌, ◌||◌, not, Option, none, some, ltb, leb, List, [], ◌∷◌,
  if◌then◌else◌, arith, ◌≡◌, refl,
}

pub data Level : Type 0 where
  released pressed uncertain fault : Level

pub data Phase : Type 0 where
  initial_release await_press final_release finished : Phase

pub record PresenceGate : Type 0 where
  pub phase : Phase
  pub deadline : ℕ
  pub last_poll : ℕ
  pub last_level : Level
  pub since : ℕ
  pub release_ms : ℕ
  pub press_ms : ℕ
  pub long_hold : Bool

abbrev pub level_eq : Level → Level → Bool
level_eq released released = true
level_eq pressed pressed = true
level_eq uncertain uncertain = true
level_eq fault fault = true
level_eq _ _ = false

abbrev pub is_finished : Phase → Bool
is_finished finished = true
is_finished _ = false

unfoldable pub ready_for_action : PresenceGate → Bool
ready_for_action g = elim g.phase [ await_press ↦ true | _ ↦ false ]

-- `u64::MAX`
abbrev pub u64_max : ℕ
u64_max = 18446744073709551615

unfoldable pub new : ℕ → ℕ → Bool → PresenceGate
new now timeout_ms long_hold = record {
  phase = initial_release;
  deadline = min (now + timeout_ms) u64_max;
  last_poll = now;
  last_level = uncertain;
  since = now;
  release_ms = 30;
  press_ms = if long_hold then 5000 else 30;
  long_hold = long_hold;
}

-- One call of `poll`: its sample, its clock and whether the wait was cancelled.
pub record Poll : Type 0 where
  pub sample : Option Level
  pub now : ℕ
  pub cancelled : Bool

pub finish : PresenceGate → PresenceGate
finish g = record g { phase = finished }

-- `if level != self.last_level { … }`
pub track : PresenceGate → Level → ℕ → PresenceGate
track g level now =
    if level_eq level g.last_level then g else record g { last_level = level; since = now }

-- The last `match`, with its guards, for a level that is neither a fault nor uncertain.
pub act : Phase → Level → ℕ → PresenceGate → PresenceGate × Option Bool
act initial_release released stable g =
    if leb g.release_ms stable then (record g { phase = await_press }, none) else (g, none)
act await_press pressed stable g =
    if leb g.press_ms stable
    then (if g.long_hold
        then (record g { phase = final_release }, none)
        else (record g { phase = finished }, some true))
    else (g, none)
act final_release released stable g =
    if leb g.release_ms stable then (record g { phase = finished }, some true) else (g, none)
act _ level stable g = (g, none)

-- Noise never counts as part of the hold or of the final release.
pub unsettle : PresenceGate → PresenceGate
unsettle g = elim g.phase [ final_release ↦ record g { phase = initial_release } | _ ↦ g ]

pub settle : PresenceGate → Level → ℕ → PresenceGate × Option Bool
settle g uncertain now = (unsettle g, none)
settle g level now = act g.phase level (now - g.since) g

-- The part of `poll` below `self.last_poll = now`.
pub observe : PresenceGate → Option Level → ℕ → PresenceGate × Option Bool
observe g none now = (g, none)
observe g (some fault) now = (finish g, some false)
observe g (some level) now = settle (track g level now) level now

unfoldable pub poll : PresenceGate → Poll → PresenceGate × Option Bool
unfolding finish track act unsettle settle observe
poll g p =
    if p.cancelled || ltb p.now g.last_poll || leb g.deadline p.now || is_finished g.phase
    then (finish g, some false)
    else observe (record g { last_poll = p.now }) p.sample p.now

-- The gate after a list of polls, the newest first.
unfoldable pub after : PresenceGate → List Poll → PresenceGate
after g [] = g
after g (p ∷ h) = (poll (after g h) p).0
