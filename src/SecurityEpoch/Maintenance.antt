-- ===== src/SecurityEpoch/Maintenance.antt =====
-- The requests of src/platform/security_epoch_maintenance.rs, and `attempt` of
-- src/platform/s2_epoch_programmer.rs.
use salpa.Base.{
  ℕ, ◌/◌, ◌%◌, Bool, true, not, ◌||◌, Option, none, some, List, [], ◌∷◌, ◌++◌, ◌==◌, if◌then◌else◌,
  byte, replicate, u32_le_bytes,
}
use salpa.SignedImage.Format.{Sha256, digest}
use salpa.SignedImage.Installed.{ImageReader}
use salpa.Ota.Records.{QualifiedLayout}
use salpa.Ota.Flash.{FlashDriver}
use salpa.UserPresence.Hardware.{Board, UserHardware, confirm_maintenance_user_presence}
use salpa.UsbUpdate.Protocol.{Phase, idle, phase_number}
use salpa.SecurityEpoch.Policy.{PreparedChange, count_ones}
use salpa.SecurityEpoch.Transaction.{
  Snapshot, FuseBackend, Transaction, already_attempted, transaction_status,
}
use salpa.SecurityEpoch.Transaction as Transaction
use salpa.SecurityEpoch.Plan.{Images, requested_images}
use salpa.SecurityEpoch.Qualify.{
  Error, Qualified, same_layout, Chip, qualify, bad_request, busy, bad_plan, bad_image, no_presence,
  failed_transaction, binding, cancelled, err, ok, err,
}

abbrev pub inspect : ℕ
inspect = 0x13

abbrev pub program : ℕ
program = 0x14

abbrev pub rehearse : ℕ
rehearse = 0x15

abbrev pub is_idle : Phase → Bool
is_idle phase = phase_number phase == phase_number idle

-- `error as u8`
unfoldable pub error_code : Error → ℕ
error_code bad_request = 1
error_code busy = 2
error_code bad_plan = 3
error_code bad_image = 4
error_code no_presence = 5
error_code failed_transaction = 6
error_code binding = 7
error_code cancelled = 8

-- `attempted` is the static of s2_epoch_programmer.rs, one latch per boot.
pub record Maintenance (S : Type 0) : Type 0 where
  pub hardware : UserHardware S
  pub attempted : Bool

-- What the reply tells of a request that was carried out.
pub record Reported : Type 0 where
  pub target : ℕ
  pub delta : ℕ
  pub layout : QualifiedLayout
  pub raw : ℕ

-- How a request ends: with an error and byte 5 of the reply, or carried out. `waiting` is a wait
-- of the model that ran out of fuel.
pub data Outcome : Type 0 where
  rejected : Error → ℕ → Outcome
  carried_out : Reported → Outcome
  waiting : Outcome

module _ {S H : Type 0} (sha : Sha256 H) (flash : FlashDriver S) (encrypted : Bool)
    (reader : ImageReader S) (fuses : FuseBackend S) (board : Board S) (chip : Chip S) where
  -- `attempt` of s2_epoch_programmer.rs.
  unfoldable pub attempt : Maintenance S → PreparedChange → Maintenance S × Transaction.Result
  attempt m c =
      if m.attempted
      then (m, some already_attempted)
      else let (t, result) = Transaction.attempt fuses (Transaction.new fuses m.hardware.board) c in
        (record { hardware = record m.hardware { board = t.backend }; attempted = true }, result)

  abbrev pub report : Qualified → Reported
  report q = record {
    target = q.change.target_epoch;
    delta = q.change.delta;
    layout = q.layout;
    raw = q.raw;
  }

  -- The request, once it is qualified.
  unfoldable pub carry_out : Maintenance S → List ℕ → Qualified → Maintenance S × Outcome
  unfolding attempt
  carry_out m request q =
      if byte request 0 == program
      then (let (m, result) = attempt m q.change in
          elim result [
            | some e ↦ (m, rejected failed_transaction (transaction_status e))
            | none ↦ (m, carried_out (report q))
          ])
      else (m, carried_out (report q))

  abbrev pub on_board : Maintenance S → S → Maintenance S
  on_board m s = record m { hardware = record m.hardware { board = s } }

  -- After the approval: the second qualification, and the last look at the hook.
  unfoldable pub after_presence :
      Maintenance S → List ℕ → ℕ → Images → Qualified → Maintenance S × Outcome
  unfolding qualify same_layout carry_out
  after_presence m request descriptor images before =
      let (s, qualified) =
        qualify sha flash encrypted reader fuses board chip m.hardware.board descriptor
          (some images) in
      elim qualified [
        | err e ↦ (on_board m s, rejected e 0)
        | ok again ↦
            if not (same_layout before.layout again.layout)
            then (on_board m s, rejected binding 0)
            else let (s, stop) = board.cancelled (board.poll_wait s) in
              if stop
              then (on_board m s, rejected cancelled 0)
              else carry_out (on_board m s) request again
      ]

  unfoldable pub with_presence :
      ℕ → Maintenance S → List ℕ → ℕ → Images → Qualified → Maintenance S × Outcome
  unfolding after_presence
  with_presence fuel m request descriptor images before =
      let (h, approved) = confirm_maintenance_user_presence board fuel m.hardware in
      let m = record m { hardware = h } in
      elim approved [
        | none ↦ (m, waiting)
        | some answer ↦
            if not answer
            then (m, rejected no_presence 0)
            else after_presence m request descriptor images before
      ]

  -- The closure of `handle`.
  unfoldable pub run_request : ℕ → Maintenance S → List ℕ → ℕ → Phase → Maintenance S × Outcome
  unfolding requested_images qualify with_presence carry_out
  run_request fuel m request descriptor phase =
      if not (is_idle phase)
      then (m, rejected busy 0)
      else elim (requested_images request (digest sha chip.scope)) [
        | none ↦ (m, rejected bad_request 0)
        | some expected ↦
            let (s, qualified) =
              qualify sha flash encrypted reader fuses board chip m.hardware.board descriptor
                expected in
            elim qualified [
              | err e ↦ (on_board m s, rejected e 0)
              | ok first ↦ elim expected [
                | none ↦ carry_out (on_board m s) request first
                | some images ↦ with_presence fuel (on_board m s) request descriptor images first
              ]
            ]
      ]

  -- The reply of 64 bytes; `none` is a wait that ran out of fuel.
  unfoldable pub encode : List ℕ → Outcome → Option (List ℕ)
  unfolding error_code
  encode request waiting = none
  encode request (rejected e code) = some (82 ∷ 75 ∷ 77 ∷ 49 ∷ error_code e ∷ code ∷ replicate 58 0)
  encode request (carried_out r) = some (
      82
      ∷ 75
      ∷ 77
      ∷ 49
      ∷ 0
      ∷ r.target
      ∷ r.layout.running_slot
      ∷ count_ones 16 r.raw
      ∷ (digest sha chip.scope
          ++ u32_le_bytes r.layout.first_sequence
          ++ u32_le_bytes r.layout.second_sequence
          ++ u32_le_bytes chip.apb_hz
          ++ (r.raw % 256
              ∷ r.raw / 256 % 256
              ∷ r.delta % 256
              ∷ r.delta / 256 % 256
              ∷ byte request 0
              ∷ replicate 7 0)))

  -- `none` is a request for somebody else.
  unfoldable pub handle :
      ℕ → Maintenance S → List ℕ → ℕ → Phase → Maintenance S × Option (Option (List ℕ))
  unfolding run_request encode
  handle fuel m [] descriptor phase = (m, none)
  handle fuel m (first ∷ others) descriptor phase =
      let request = first ∷ others in
      if not (first == inspect || first == program || first == rehearse)
      then (m, none)
      else let (m, outcome) = run_request fuel m request descriptor phase in
        (m, some (encode request outcome))
