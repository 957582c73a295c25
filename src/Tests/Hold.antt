-- ===== src/Tests/Hold.antt =====
-- A hold of the button, as src/platform/maintenance_presence.rs samples it.
use salpa.Base.{ℕ, ◌+◌, ◌≡◌, ◌<◌, refl, Bool, true, false, some, List, [], ◌∷◌}
use salpa.Gestures.LongHold.{MaintenancePresence, new, poll}
use salpa.Gestures.Held.{Sample, Reached, begun, waited, Gesture}
use salpa.Gestures.Provisioning as Provisioning
use salpa.Gestures.Approval.{approval_needs_hold}

abbrev at : Bool → ℕ → Sample
at pressed now = record { pressed = pressed; now = now }

-- Released, held from 40 ms to 5100 ms, and released.
abbrev samples : List Sample
samples = at false 5200 ∷ at true 5100 ∷ at true 100 ∷ at true 40 ∷ at false 30 ∷ at false 0 ∷ []

abbrev after : List Sample → MaintenancePresence
after [] = new false 0
after (s ∷ []) = new s.pressed s.now
after (s ∷ t ∷ ts) = (poll (after (t ∷ ts)) s.pressed s.now false).0

sampled : Reached 0 (after samples) samples
unfolding poll new
sampled =
    waited false 5200 false
      (waited true 5100 false
        (waited true 100 false
          (waited true 40 false (waited false 30 false (begun false) refl) refl) refl)
        refl)
      refl

approves : (poll (after samples) false 5300 false).1 ≡ some true
unfolding poll new
approves = refl

approval_needs_hold_example :
    Gesture (at false 5300 ∷ samples)
    × (false ≡ false)
    × (5300 < 0 + 30000)
    × ((pressed : Bool) (now : ℕ) (cancelled : Bool)
        → (poll (poll (after samples) false 5300 false).0 pressed now cancelled).1 ≡ some false)
approval_needs_hold_example =
    approval_needs_hold 0 (after samples) samples false 5300 false sampled approves

-- Released at 30 ms, down from 40 ms on.
sample_lem_example :
    (Provisioning.sample
      (Provisioning.after 5000 (at true 100 ∷ at true 40 ∷ at false 30 ∷ []))
      true
      5040).1
    ≡ true
sample_lem_example =
    Provisioning.sample_lem 5000 (at true 100 ∷ at true 40 ∷ at false 30 ∷ []) true 5040
