-- ===== src/SecurityEpoch/Attempt.antt =====
-- What one attempt of src/platform/security_epoch_transaction.rs may do to the fuses.
use salpa.Base.{
  ℕ, ◌≡◌, refl, ◌⊎◌, inl, inr, Bool, true, not, none, some, is_some, List, ◌==◌, bytes_eq,
  bytes_eq→eq, replicate, not-false, if-cases, option-cases, arith,
}
use salpa.SecurityEpoch.Policy.{PreparedChange, program_words, recheck_before, verify_after}
use salpa.SecurityEpoch.Transaction.{
  Snapshot, FuseBackend, already_attempted, Result, check_before, check_after, staged_words,
  program, recheck, check_staged, stage, preflight, attempt, new,
}

-- A predicate that every operation but programming keeps.
pub record Idle {S : Type 0} (fuses : FuseBackend S) (P : S → Type 0) : Type 0 where
  pub apb_hz : (b : S) → P b → P (fuses.apb_hz b).0
  pub idle : (b : S) → P b → P (fuses.idle b).0
  pub set_timing : (b : S) → P b → P (fuses.set_timing b).0
  pub refresh : (b : S) → P b → P (fuses.refresh b).0
  pub snapshot : (b : S) → P b → P (fuses.snapshot b).0
  pub clear_staging : (b : S) → P b → P (fuses.clear_staging b)
  pub staging : (b : S) → P b → P (fuses.staging b).0
  pub stage_counter : (b : S) (words : List ℕ) → P b → P (fuses.stage_counter b words)

-- The checks that come before programming: the staging area held exactly the planned words, and
-- then the fuses were as planned for, without coding errors.
pub record Checked {S : Type 0} (fuses : FuseBackend S) (c : PreparedChange) : Type 0 where
  pub at_staging : S
  pub staged : (fuses.staging at_staging).1 ≡ staged_words c
  pub at_snapshot : S
  pub unchanged : (fuses.snapshot at_snapshot).1.block0 ≡ c.before
  pub sound : (fuses.snapshot at_snapshot).1.repeat_errors ≡ replicate 5 0

check_before-none :
    (c : PreparedChange) (seen : Snapshot)
    → check_before c seen ≡ none
    → (seen.block0 ≡ c.before) × (seen.repeat_errors ≡ replicate 5 0)
unfolding check_before recheck_before
check_before-none c seen e = (bytes_eq→eq _ _ (ground arith), bytes_eq→eq _ _ (ground arith))

check_after-none :
    (c : PreparedChange) (programmed cleared refreshed : Bool) (after : Snapshot)
    → check_after c programmed cleared refreshed after ≡ none
    → (after.block0 ≡ c.after) × (after.repeat_errors ≡ replicate 5 0) × (programmed ≡ true)
unfolding check_after verify_after
check_after-none c programmed cleared refreshed after e =
    (bytes_eq→eq _ _ (ground arith), bytes_eq→eq _ _ (ground arith), ground arith)

module _ {S : Type 0} (fuses : FuseBackend S) (c : PreparedChange) (Before After : S → Type 0)
    (before : Idle fuses Before) (after : Idle fuses After)
    (programs : (b : S) → Checked fuses c → Before b → After (fuses.program_block0 b).0) where
  -- What success has read back.
  abbrev pub Settled : Type 0
  Settled =
      (b : S) × ((fuses.snapshot b).1.block0 ≡ c.after)
      × ((fuses.snapshot b).1.repeat_errors ≡ replicate 5 0)

  abbrev Ends : S × Result → Type 0
  Ends r = (Before r.0 × (is_some r.1 ≡ true)) ⊎ (After r.0 × (r.1 ≡ none → Settled))

  program-Ends : (b : S) → Checked fuses c → Before b → Ends (program fuses c b)
  unfolding program
  program-Ends b checked p =
      let b1 = (fuses.program_block0 b).0 in
      let b2 = fuses.clear_staging b1 in
      let b3 = (fuses.staging b2).0 in
      let b4 = (fuses.refresh b3).0 in
      inr (
        after.snapshot b4
            (after.refresh b3 (after.staging b2 (after.clear_staging b1 (programs b checked p)))),
        λ e. let found = check_after-none c _ _ _ _ e in (b4, found.0, found.1),
      )

  recheck-Ends :
      (b at : S) → (fuses.staging at).1 ≡ staged_words c → Before b → Ends (recheck fuses c b)
  unfolding recheck
  recheck-Ends b at staged p =
      let p = before.snapshot b p in
      option-cases Ends (check_before c (fuses.snapshot b).1)
        (λ e.
          let found = check_before-none c (fuses.snapshot b).1 e in
          program-Ends _
            (record {
              at_staging = at;
              staged = staged;
              at_snapshot = b;
              unchanged = found.0;
              sound = found.1;
            })
            p)
        (λ x e. inl (before.clear_staging _ p, refl))

  check_staged-Ends : (b : S) → Before b → Ends (check_staged fuses c b)
  unfolding check_staged
  check_staged-Ends b p =
      let p = before.staging b p in
      if-cases Ends (not (bytes_eq (fuses.staging b).1 (staged_words c)))
        (λ e. inl (before.clear_staging _ p, refl))
        (λ same.
          let p' = before.idle _ p in
          if-cases Ends (not (fuses.idle (fuses.staging b).0).1)
            (λ e. inl (before.clear_staging _ p', refl))
            (λ e. recheck-Ends _ b (bytes_eq→eq _ _ (not-false _ same)) p'))

  stage-Ends : (b : S) → Before b → Ends (stage fuses c b)
  unfolding stage
  stage-Ends b p =
      let p = before.staging _ (before.clear_staging b p) in
      if-cases Ends (not (bytes_eq (fuses.staging (fuses.clear_staging b)).1 (replicate 11 0)))
        (λ e. inl (p, refl)) (λ e. check_staged-Ends _ (before.stage_counter _ (program_words c) p))

  preflight-Ends : (b : S) → Before b → Ends (preflight fuses c b)
  unfolding preflight
  preflight-Ends b p =
      let b1 = (fuses.apb_hz b).0 in
      let p1 = before.apb_hz b p in
      let b2 = (fuses.idle b1).0 in
      let p2 = before.idle b1 p1 in
      let b3 = (fuses.set_timing b2).0 in
      let p3 = before.set_timing b2 p2 in
      let b4 = (fuses.refresh b3).0 in
      let p4 = before.refresh b3 p3 in
      let p5 = before.snapshot b4 p4 in
      if-cases Ends (not ((fuses.apb_hz b).1 == 80000000)) (λ e. inl (p1, refl))
        (λ e.
          if-cases Ends (not (fuses.idle b1).1) (λ e. inl (p2, refl))
            (λ e.
              if-cases Ends (not (fuses.set_timing b2).1) (λ e. inl (p3, refl))
                (λ e.
                  if-cases Ends (not (fuses.refresh b3).1) (λ e. inl (p4, refl))
                    (λ e.
                      option-cases Ends (check_before c (fuses.snapshot b4).1)
                        (λ e. stage-Ends _ p5) (λ x e. inl (p5, refl))))))

  -- An attempt on a new transaction programs the fuses at most once, and only after the staging
  -- area read back the planned words and the fuses the planned state: a predicate that all other
  -- operations keep still holds, and the attempt failed, or the predicate that programming turns it
  -- into holds, and success means that the fuses read back as planned without coding errors. Any
  -- later attempt fails and touches nothing.
  pub attempt_once :
      (b : S) (other : PreparedChange)
      → Before b
      → let (t, result) = attempt fuses (new fuses b) c in
        ((Before t.backend × (is_some result ≡ true))
          ⊎ (After t.backend × (result ≡ none → Settled)))
        × (attempt fuses t other ≡ (t, some already_attempted))
  unfolding attempt new
  attempt_once b other p = (preflight-Ends b p, refl)
