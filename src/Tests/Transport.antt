-- ===== src/Tests/Transport.antt =====
-- The engine of src/ctaphid.rs at work.
use salpa.Base.{
  ℕ, ◌≡◌, refl, ◌⊎◌, true, none, some, List, [], ◌∷◌, ◌++◌, arith, replicate, set, take,
}
use salpa.CtapHid.Protocol.{
  init, cbor, error, timeout, channel_busy, DeviceVersion, nothing, error_code,
}
use salpa.CtapHid.State.{
  Build, PendingError, Engine, new, queue_error, active_channel, allocate_channel, is_allocated,
  has_error,
}
use salpa.CtapHid.Receive.{ingest, ingest_with_interruption}
use salpa.CtapHid.Transmit.{initial_packet, next_packet, packet_sent}
use salpa.CtapHid.Invariant.{IsValid}
use salpa.CtapHid.Run.{Input, report, tick, sent, run, run-IsValid}
use salpa.CtapHid.Frames.{frames, init_frame}
use salpa.CtapHid.Frames.Start.{feed}
use salpa.CtapHid.Frames.Receiving.{Delivered, feed-frames}
use salpa.CtapHid.Frames.Packets.{drain}
use salpa.CtapHid.Frames.Sending.{sent_all, drain-frames}
use salpa.CtapHid.Errors.{queued, enqueue, errors_refine_queue}
use salpa.CtapHid.Arbitration.{Undisturbed, interruption_noticed, ingest-other}

abbrev pub small_build : Build
small_build = record { capacity = 128; signed_update = true }

abbrev version : DeviceVersion
version = record { major = 0; minor = 1; build = 0 }

abbrev fresh : Engine
fresh = new small_build version 12

-- INIT on the broadcast channel with a nonce.
abbrev init_packet : List ℕ
init_packet = init_frame 0xffff_ffff init 8 (replicate 8 0x5a)

abbrev inputs : List Input
inputs = report init_packet 0 ∷ sent ∷ report (7 ∷ []) 5 ∷ tick 1000 ∷ []

channel_allocated : (run small_build fresh inputs).last_channel ≡ 1
unfolding run new active_channel allocate_channel
channel_allocated = refl

run-IsValid_example : IsValid small_build (run small_build fresh inputs)
run-IsValid_example = run-IsValid small_build version 12 inputs (omega arith) (omega arith)

-- An engine on which channel 1 is allocated.
abbrev pub served : Engine
served = record {
  request = replicate 128 0;
  response = replicate 128 0;
  receive = none;
  app_request = none;
  transmit = none;
  keepalive = none;
  errors = replicate 8 none;
  last_channel = 1;
  version = version;
  capabilities = 12;
}

abbrev message : List ℕ
message = replicate 60 7 ++ replicate 60 9

served-IsValid : IsValid small_build served
served-IsValid = ground arith

feed-frames_example :
    Delivered small_build 1 cbor message (feed small_build served (λ n. n) (frames 1 cbor message))
unfolding is_allocated
feed-frames_example =
    feed-frames message refl refl (omega arith) (omega arith) (omega arith) served (λ n. n)
      served-IsValid (refl, refl, refl) refl

abbrev sending : Engine
sending = record served {
  response = message ++ replicate 8 0;
  transmit =
      some (record { channel = 1; command = cbor; total = 120; offset = 0; next_sequence = 0 });
}

drain-frames_example :
    drain 121 sending ≡ (frames 1 cbor (take 120 sending.response), sent_all sending)
drain-frames_example =
    drain-frames sending
      (record { channel = 1; command = cbor; total = 120; offset = 0; next_sequence = 0 })
      (refl, refl) refl refl refl (omega arith) (omega arith)

abbrev pub working : Engine
working = record served { app_request = some (record { channel = 1; command = cbor; total = 3 }) }

pub working-IsValid : IsValid small_build working
working-IsValid = ground arith

-- INIT on the channel of the pending request.
abbrev pub resync : List ℕ
resync = init_frame 1 init 8 (replicate 8 0x11)

interruption_noticed_example :
    let ((event, interrupted), e') = ingest_with_interruption small_build working resync 5 in
    (interrupted ≡ true)
    ⊎ ((e'.app_request ≡ some (record { channel = 1; command = cbor; total = 3 }))
        × (e'.request ≡ working.request))
interruption_noticed_example =
    interruption_noticed small_build working (record { channel = 1; command = cbor; total = 3 })
      resync 5 working-IsValid refl

ingest-other_example :
    ((ingest small_build working init_packet 5).0 ≡ nothing)
    × Undisturbed working (ingest small_build working init_packet 5).1
unfolding active_channel
ingest-other_example = ingest-other small_build working 1 init_packet 5 refl (omega arith)

abbrev late : PendingError
late = record { channel = 1; error = timeout }

abbrev failing : Engine
failing = record served { errors = some late ∷ replicate 7 none }

errors_refine_queue_example :
    (next_packet failing ≡ some (set (initial_packet 1 error 1) 7 (error_code timeout)))
    × (queued (packet_sent failing).errors ≡ [])
    × (queued (queue_error failing 2 channel_busy).errors
        ≡ enqueue (record { channel = 2; error = channel_busy }) (late ∷ []))
unfolding has_error
errors_refine_queue_example =
    errors_refine_queue small_build failing late [] 2 channel_busy (ground arith) refl
