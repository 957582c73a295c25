-- ===== src/Tests/Presence.antt =====
-- The gate of src/platform/presence_gate.rs at work.
use salpa.Base.{ℕ, ◌≤◌, ◌<◌, ◌≡◌, refl, true, false, none, some, List, [], ◌∷◌}
use salpa.Presence.Gate.{Level, released, pressed, Poll, new, poll, after}
use salpa.Presence.Gate.History.{Consent}
use salpa.Presence.Gate.Consent.{poll-Consent, poll_once, poll_in_time}

abbrev at : Level → ℕ → Poll
at l t = record { sample = some l; now = t; cancelled = false }

-- The newest poll comes first.
abbrev short_history : List Poll
short_history = at pressed 160 ∷ at released 140 ∷ at released 100 ∷ []

approves : (poll (after (new 90 15000 false) short_history) (at pressed 190)).1 ≡ some true
unfolding poll after new
approves = refl

too_short : (poll (after (new 90 15000 false) short_history) (at pressed 189)).1 ≡ none
unfolding poll after new
too_short = refl

poll-Consent_example : Consent false (at pressed 190) short_history
poll-Consent_example = poll-Consent 90 15000 false short_history (at pressed 190) approves

poll_once_example :
    (poll (poll (after (new 90 15000 false) short_history) (at pressed 190)).0 (at pressed 200)).1
    ≡ some false
poll_once_example =
    poll_once (after (new 90 15000 false) short_history) (at pressed 190) (at pressed 200) approves

poll_in_time_example :
    let g = after (new 90 15000 false) short_history in
    ((at pressed 190).cancelled ≡ false) × (g.last_poll ≤ 190) × (190 < g.deadline)
poll_in_time_example =
    poll_in_time (after (new 90 15000 false) short_history) (at pressed 190) approves
