-- ===== src/Presence/Gate/Consent.antt =====
-- What an approval of the gate of src/platform/presence_gate.rs means: a fresh release and then a
-- press, each without a break and long enough, in the polls that the gate has seen.
use salpa.Base.{
  ℕ, ◌-◌, ◌≤◌, ◌<◌, Bool, true, false, ◌||◌, Option, none, some, ltb, leb, List, [], ◌∷◌, arith,
  ◌≡◌, refl, if-cases, leb→le, sym, ◌∙◌,
}
use salpa.Presence.Gate.{
  Level, released, pressed, uncertain, fault, Phase, initial_release, await_press, final_release,
  finished, PresenceGate, Poll, is_finished, new, finish, act, unsettle, settle, observe, poll,
  after,
}
use salpa.Presence.Gate.History.{
  Armed, Primed, Consent, Inv, Seen-gap, since_of, track-eq, Quiet, Seen-track, rephase, Outcome,
}

waits :
    {long : Bool} {p : Poll} {h : List Poll} {g : PresenceGate}
    → Inv long g (p ∷ h)
    → Outcome long p h (g, none)
waits v = (v, λ e. cc)

agreed :
    {long : Bool} (p : Poll) (h : List Poll) (g : PresenceGate)
    → Inv long g (p ∷ h)
    → Consent long p h
    → Outcome long p h (record g { phase = finished }, some true)
agreed p h g v c = (rephase finished v tt (λ q. cc), λ e. c)

module _ {long : Bool} (g : PresenceGate) (p : Poll) {h : List Poll} where
  -- The end of the initial release.
  arms :
      Inv long (record g { phase = initial_release; last_level = released }) (p ∷ h)
      → Outcome long p h (
          act initial_release released
            (p.now - g.since)
            (record g { phase = initial_release; last_level = released }))
  unfolding act
  arms v =
      if-cases (Outcome long p h) (leb g.release_ms (p.now - g.since))
        (λ e. waits (
          rephase await_press v (Armed.arm p g.since v.seen (omega (arith, leb→le _ _ e)))
            (λ q. cc)))
        (λ e. waits v)

  -- The end of the press.
  presses :
      Inv long (record g { phase = await_press; last_level = pressed }) (p ∷ h)
      → Outcome long p h (
          act await_press pressed
            (p.now - g.since)
            (record g { phase = await_press; last_level = pressed }))
  unfolding act
  presses v =
      if-cases (Outcome long p h) (leb g.press_ms (p.now - g.since))
        (λ e.
          if-cases (Outcome long p h) g.long_hold
            (λ b.
              waits (rephase final_release v (long_press (leb→le _ _ e) b) (λ q. sym v.kind ∙ b)))
            (λ b. agreed p h base v (short_press (leb→le _ _ e) b)))
        (λ e. waits v)
    where
      base : PresenceGate
      base = record g { phase = await_press; last_level = pressed }

      long_press : g.press_ms ≤ p.now - g.since → g.long_hold ≡ true → Primed (p ∷ h)
      long_press le b = Primed.prime p g.since v.seen.1 (ground arith)

      short_press : g.press_ms ≤ p.now - g.since → g.long_hold ≡ false → Consent long p h
      short_press le b =
          let e : long ≡ false = sym v.kind ∙ b in rw e (g.since, v.seen.1, ground arith)

  -- The end of the final release.
  finishes :
      Inv long (record g { phase = final_release; last_level = released }) (p ∷ h)
      → Outcome long p h (
          act final_release released
            (p.now - g.since)
            (record g { phase = final_release; last_level = released }))
  unfolding act
  finishes v =
      if-cases (Outcome long p h) (leb g.release_ms (p.now - g.since))
        (λ e.
          agreed p h base v (
            rw (v.hold_only refl) (g.since, v.seen.1, omega (arith, v.release_time, leb→le _ _ e))))
        (λ e. waits v)
    where
      base : PresenceGate
      base = record g { phase = final_release; last_level = released }

abbrev at_level : Phase → Level → PresenceGate → PresenceGate
at_level ph k g = record g { phase = ph; last_level = k }

act-Outcome :
    {long : Bool} (ph : Phase) (k : Level) (g : PresenceGate) (p : Poll) (h : List Poll)
    → Inv long (at_level ph k g) (p ∷ h)
    → Outcome long p h (act ph k (p.now - g.since) (at_level ph k g))
unfolding act
act-Outcome initial_release released g p h v = arms g p v
act-Outcome initial_release _ g p h v = waits v
act-Outcome await_press pressed g p h v = presses g p v
act-Outcome await_press _ g p h v = waits v
act-Outcome final_release released g p h v = finishes g p v
act-Outcome final_release _ g p h v = waits v
act-Outcome finished k g p h v = waits v

-- The gate when the sample `k` has been noted.
abbrev noted : PresenceGate → Level → ℕ → PresenceGate
noted g k now = record g { last_level = k; since = since_of k g.last_level g.since now }

Inv-noted :
    {long : Bool} (g : PresenceGate) (k : Level) (p : Poll) (h : List Poll)
    → Quiet g.phase k
    → p.sample ≡ some k
    → g.last_poll ≤ p.now
    → Inv long g h
    → Inv long (noted (record g { last_poll = p.now }) k p.now) (p ∷ h)
Inv-noted g k p h q e le v = record {
  seen = Seen-track g.phase k g.last_level g.since p h q e v.seen;
  since_le = ground (arith, v.since_le);
  release_time = v.release_time;
  press_time = v.press_time;
  kind = v.kind;
  hold_only = v.hold_only;
}

Quiet-released : (ph : Phase) → Quiet ph released
Quiet-released final_release = tt
Quiet-released _ = tt

Quiet-pressed : (ph : Phase) → Quiet ph pressed
Quiet-pressed final_release = tt
Quiet-pressed _ = tt

-- Noise sends the final release back to the beginning, and leaves the other phases.
Inv-unsettle :
    {long : Bool} (ph : Phase) (g : PresenceGate) (p : Poll) (h : List Poll)
    → p.sample ≡ some uncertain
    → g.last_poll ≤ p.now
    → Inv long (record g { phase = ph }) h
    → Inv long
        (unsettle (noted (record g { phase = ph; last_poll = p.now }) uncertain p.now))
        (p ∷ h)
unfolding unsettle
Inv-unsettle final_release g p h e le v = record {
  seen = tt;
  since_le = ground (arith, v.since_le);
  release_time = v.release_time;
  press_time = v.press_time;
  kind = v.kind;
  hold_only = λ q. cc;
}
Inv-unsettle initial_release g p h e le v =
    Inv-noted (record g { phase = initial_release }) uncertain p h tt e le v
Inv-unsettle await_press g p h e le v =
    Inv-noted (record g { phase = await_press }) uncertain p h tt e le v
Inv-unsettle finished g p h e le v =
    Inv-noted (record g { phase = finished }) uncertain p h tt e le v

Inv-finish :
    {long : Bool} (g : PresenceGate) (p : Poll) (h : List Poll)
    → Inv long g h
    → Inv long (finish g) (p ∷ h)
unfolding finish
Inv-finish g p h v = record {
  seen = tt;
  since_le = v.since_le;
  release_time = v.release_time;
  press_time = v.press_time;
  kind = v.kind;
  hold_only = λ q. cc;
}

observe-Outcome :
    {long : Bool} (o : Option Level) (g : PresenceGate) (p : Poll) (h : List Poll)
    → p.sample ≡ o
    → g.last_poll ≤ p.now
    → Inv long g h
    → Outcome long p h (observe (record g { last_poll = p.now }) o p.now)
unfolding observe settle
observe-Outcome none g p h e le v = waits (record {
  seen = Seen-gap g.phase g.last_level g.since p h e v.seen;
  since_le = omega (arith, v.since_le);
  release_time = v.release_time;
  press_time = v.press_time;
  kind = v.kind;
  hold_only = v.hold_only;
})
observe-Outcome (some fault) g p h e le v = (
  Inv-finish (record g { last_poll = p.now }) p h
      (record {
        seen = v.seen;
        since_le = omega (arith, v.since_le);
        release_time = v.release_time;
        press_time = v.press_time;
        kind = v.kind;
        hold_only = v.hold_only;
      }),
  λ q. cc,
)
observe-Outcome (some uncertain) g p h e le v =
    rw (track-eq uncertain g.last_level (record g { last_poll = p.now }) p.now)
      (waits (Inv-unsettle g.phase g p h e le v))
observe-Outcome (some released) g p h e le v =
    rw (track-eq released g.last_level (record g { last_poll = p.now }) p.now) (
      act-Outcome g.phase released (noted (record g { last_poll = p.now }) released p.now) p h
        (Inv-noted g released p h (Quiet-released g.phase) e le v))
observe-Outcome (some pressed) g p h e le v =
    rw (track-eq pressed g.last_level (record g { last_poll = p.now }) p.now) (
      act-Outcome g.phase pressed (noted (record g { last_poll = p.now }) pressed p.now) p h
        (Inv-noted g pressed p h (Quiet-pressed g.phase) e le v))

abbrev refused : PresenceGate → Poll → Bool
refused g p = p.cancelled || ltb p.now g.last_poll || leb g.deadline p.now || is_finished g.phase

poll-Outcome :
    {long : Bool} (g : PresenceGate) (p : Poll) (h : List Poll)
    → Inv long g h
    → Outcome long p h (poll g p)
unfolding poll
poll-Outcome {long} g p h v =
    if-cases (Outcome long p h) (refused g p) (λ e. (Inv-finish g p h v, λ q. cc))
      (λ e. observe-Outcome p.sample g p h refl (ground (arith, e)) v)

after-Inv :
    (now timeout_ms : ℕ) (long : Bool) (h : List Poll)
    → Inv long (after (new now timeout_ms long) h) h
unfolding after new
after-Inv now timeout_ms long [] = record {
  seen = tt;
  since_le = omega arith;
  release_time = refl;
  press_time = refl;
  kind = refl;
  hold_only = λ q. cc;
}
after-Inv now timeout_ms long (p ∷ h) =
    (poll-Outcome (after (new now timeout_ms long) h) p h (after-Inv now timeout_ms long h)).0

-- An approval by a gate that has seen the polls `h` (the newest first) since it was made completes
-- a fresh gesture: for a short press, after at least 30 ms of release without a break, at least
-- 30 ms of press without a break; for a long hold at least 5 s of press after the release, and
-- then, with no uncertain sample in between, 30 ms of release.
pub poll-Consent :
    (now timeout_ms : ℕ) (long : Bool) (h : List Poll) (p : Poll)
    → (poll (after (new now timeout_ms long) h) p).1 ≡ some true
    → Consent long p h
poll-Consent now timeout_ms long h p =
    (poll-Outcome (after (new now timeout_ms long) h) p h (after-Inv now timeout_ms long h)).1

-- A gate answers once: after a poll that answered, every poll is answered by `Some(false)`, so an
-- approval is given at most once.
pub poll_once :
    (g : PresenceGate) (p q : Poll) {b : Bool}
    → (poll g p).1 ≡ some b
    → (poll (poll g p).0 q).1 ≡ some false
unfolding poll
poll_once g p q e = ground arith

-- A poll approves only if the wait was not cancelled, the clock did not run backwards and the
-- deadline is still ahead.
pub poll_in_time :
    (g : PresenceGate) (p : Poll)
    → (poll g p).1 ≡ some true
    → (p.cancelled ≡ false) × (g.last_poll ≤ p.now) × (p.now < g.deadline)
unfolding poll
poll_in_time g p e = ground arith
