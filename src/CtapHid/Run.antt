-- ===== src/CtapHid/Run.antt =====
-- Any use of the engine of src/ctaphid.rs: its public operations in any order, by any host.
use salpa.Base.{ℕ, List, [], ◌∷◌, AllBytes}
use salpa.CtapHid.Protocol.{DeviceVersion, KeepaliveStatus}
use salpa.CtapHid.State.{Build, Engine, new}
use salpa.CtapHid.Receive.{ingest_report, expire}
use salpa.CtapHid.Transmit.{reply, queue_keepalive, packet_sent}
use salpa.CtapHid.Invariant.{IsBuild, IsValid, new-IsValid}
use salpa.CtapHid.Invariant.Receiving.{ingest_report-IsValid, expire-IsValid}
use salpa.CtapHid.Invariant.Sending.{queue_keepalive-IsValid, reply-IsValid, packet_sent-IsValid}

-- What the firmware's loop does with the engine.
pub data Input : Type 0 where
  report : List ℕ → ℕ → Input
  tick : ℕ → Input
  answer : List ℕ → Input
  wait : KeepaliveStatus → Input
  sent : Input

unfoldable pub step : Build → Engine → Input → Engine
unfolding ingest_report expire reply queue_keepalive packet_sent
step b e (report r now_ms) = (ingest_report b e r now_ms).1
step b e (tick now_ms) = expire e now_ms
step b e (answer payload) = (reply b e payload).1
step b e (wait status) = (queue_keepalive e status).1
step b e sent = packet_sent e

unfoldable pub run : Build → Engine → List Input → Engine
unfolding step
run b e [] = e
run b e (i ∷ is) = run b (step b e i) is

-- Reports are made of bytes.
abbrev pub IsInput : Input → Type 0
IsInput (report r now_ms) = AllBytes r
IsInput _ = Unit

abbrev pub AreInputs : List Input → Type 0
AreInputs [] = Unit
AreInputs (i ∷ is) = IsInput i × AreInputs is

pub step-IsValid :
    {b : Build} (e : Engine) (i : Input)
    → IsBuild b
    → IsInput i
    → IsValid b e
    → IsValid b (step b e i)
unfolding step
step-IsValid e (report r now_ms) w k v = ingest_report-IsValid e r now_ms w v k
step-IsValid e (tick now_ms) w k v = expire-IsValid e now_ms v
step-IsValid e (answer payload) w k v = reply-IsValid e payload v
step-IsValid e (wait status) w k v = queue_keepalive-IsValid e status v
step-IsValid e sent w k v = packet_sent-IsValid e w v

pub run_from-IsValid :
    {b : Build} (e : Engine) (is : List Input)
    → IsBuild b
    → AreInputs is
    → IsValid b e
    → IsValid b (run b e is)
unfolding run
run_from-IsValid e [] w k v = v
run_from-IsValid {b} e (i ∷ is) w k v =
    run_from-IsValid (step b e i) is w k.1 (step-IsValid e i w k.0 v)

-- Whatever reports arrive and whatever the firmware does, in any order, an engine that `new` made
-- keeps its invariant: buffers of the full size, at most one of reception, request and
-- transmission, counters in step with the sequence numbers and inside the message, a message no
-- longer than the buffer, and an error queue without gaps that names each channel once.
pub run-IsValid :
    (b : Build) (version : DeviceVersion) (capabilities : ℕ) (is : List Input)
    → IsBuild b
    → AreInputs is
    → IsValid b (run b (new b version capabilities) is)
run-IsValid b version capabilities is w k =
    run_from-IsValid (new b version capabilities) is w k (new-IsValid b version capabilities)
