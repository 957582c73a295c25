-- ===== src/SecurityEpoch/Transaction.antt =====
-- `Transaction::attempt` of src/platform/security_epoch_transaction.rs: one attempt to program the
-- counter. The fuse controller is a parameter, whose operations may change its state.
use salpa.Base.{
  ℕ, Bool, true, false, not, Option, none, some, List, ◌++◌, ◌==◌, if◌then◌else◌, bytes_eq,
  replicate,
}
use salpa.SecurityEpoch.Policy.{
  PlanError, PreparedChange, Plan, granted, refused, program_words, recheck_before, verify_after,
}

pub record Snapshot : Type 0 where
  pub block0 : List ℕ
  pub repeat_errors : List ℕ

-- The trait `Backend`.
pub record FuseBackend (S : Type 0) : Type 0 where
  pub apb_hz : S → S × ℕ
  pub idle : S → S × Bool
  pub set_timing : S → S × Bool
  pub refresh : S → S × Bool
  pub snapshot : S → S × Snapshot
  pub clear_staging : S → S
  pub staging : S → S × List ℕ
  pub stage_counter : S → List ℕ → S
  pub program_block0 : S → S × Bool

pub data TransactionError : Type 0 where
  already_attempted clock busy timing refresh_failed coding : TransactionError
  state : PlanError → TransactionError
  staging_failed program_failed : TransactionError

-- `TransactionError::status_code`
unfoldable pub transaction_status : TransactionError → ℕ
transaction_status already_attempted = 1
transaction_status clock = 2
transaction_status busy = 3
transaction_status timing = 4
transaction_status refresh_failed = 5
transaction_status coding = 6
transaction_status (state _) = 7
transaction_status staging_failed = 8
transaction_status program_failed = 9

-- `Result<(), TransactionError>`: `none` is `Ok(())`.
abbrev pub Result : Type 0
Result = Option TransactionError

abbrev pub plan_error : Plan Unit → Result
plan_error (granted _) = none
plan_error (refused e) = some (state e)

unfoldable pub check_before : PreparedChange → Snapshot → Result
unfolding recheck_before
check_before c seen =
    if not (bytes_eq seen.repeat_errors (replicate 5 0))
    then some coding
    else plan_error (recheck_before c seen.block0)

-- The checks after programming, in the order of the code.
unfoldable pub check_after : PreparedChange → Bool → Bool → Bool → Snapshot → Result
unfolding verify_after
check_after c programmed cleared refreshed after =
    if not cleared
    then some staging_failed
    else if not refreshed
    then some refresh_failed
    else if not (bytes_eq after.repeat_errors (replicate 5 0))
    then some coding
    else elim (verify_after c after.block0) [
      | refused e ↦ some (state e)
      | granted _ ↦ if not programmed then some program_failed else none
    ]

-- `expected`: the words to program and three check words of zero.
abbrev pub staged_words : PreparedChange → List ℕ
staged_words c = program_words c ++ replicate 3 0

pub record Transaction (S : Type 0) : Type 0 where
  pub backend : S
  pub attempted : Bool

module _ {S : Type 0} (fuses : FuseBackend S) where
  unfoldable pub new : S → Transaction S
  new b = record { backend = b; attempted = false }

  -- From the one physical call on.
  unfoldable pub program : PreparedChange → S → S × Result
  unfolding check_after
  program c b =
      let (b, programmed) = fuses.program_block0 b in
      let b = fuses.clear_staging b in
      let (b, words) = fuses.staging b in
      let (b, refreshed) = fuses.refresh b in
      let (b, after) = fuses.snapshot b in
      (b, check_after c programmed (bytes_eq words (replicate 11 0)) refreshed after)

  -- An error between staging and programming.
  abbrev pub give_up : S → TransactionError → S × Result
  give_up b e = (fuses.clear_staging b, some e)

  unfoldable pub recheck : PreparedChange → S → S × Result
  unfolding check_before program
  recheck c b =
      let (b, seen) = fuses.snapshot b in
      elim (check_before c seen) [ some e ↦ give_up b e | none ↦ program c b ]

  -- The value `staged`, and what follows it.
  unfoldable pub check_staged : PreparedChange → S → S × Result
  unfolding recheck
  check_staged c b =
      let (b, words) = fuses.staging b in
      if not (bytes_eq words (staged_words c))
      then give_up b staging_failed
      else let (b, quiet) = fuses.idle b in if not quiet then give_up b busy else recheck c b

  unfoldable pub stage : PreparedChange → S → S × Result
  unfolding check_staged
  stage c b =
      let b = fuses.clear_staging b in
      let (b, words) = fuses.staging b in
      if not (bytes_eq words (replicate 11 0))
      then (b, some staging_failed)
      else check_staged c (fuses.stage_counter b (program_words c))

  unfoldable pub preflight : PreparedChange → S → S × Result
  unfolding check_before stage
  preflight c b =
      let (b, hz) = fuses.apb_hz b in
      if not (hz == 80000000)
      then (b, some clock)
      else let (b, quiet) = fuses.idle b in
        if not quiet
        then (b, some busy)
        else let (b, timed) = fuses.set_timing b in
          if not timed
          then (b, some timing)
          else let (b, refreshed) = fuses.refresh b in
            if not refreshed
            then (b, some refresh_failed)
            else let (b, seen) = fuses.snapshot b in
              elim (check_before c seen) [ some e ↦ (b, some e) | none ↦ stage c b ]

  unfoldable pub attempt : Transaction S → PreparedChange → Transaction S × Result
  unfolding preflight
  attempt t c =
      if t.attempted
      then (t, some already_attempted)
      else let (b, result) = preflight c t.backend in
        (record { backend = b; attempted = true }, result)
