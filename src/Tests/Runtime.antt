-- ===== src/Tests/Runtime.antt =====
-- A wait of src/platform/usb_runtime.rs while the host sends a packet on another channel.
use salpa.Base.{
  ℕ, ◌+◌, ◌≡◌, ◌≤◌, ◌↔◌, refl, Bool, true, false, none, some, List, [], ◌∷◌, AllBytes, if-cases,
  subst, ap, leb, arith, if◌then◌else◌,
}
use salpa.Presence.Gate
use salpa.CtapHid.Protocol.{cbor}
use salpa.CtapHid.State.{active_channel, zeroize, queue_error, has_error, fill_slot}
use salpa.CtapHid.Receive.{ingest_report, expire}
use salpa.CtapHid.Transmit.{next_packet, packet_sent, queue_keepalive, reply}
use salpa.CtapHid.Frames.{init_frame}
use salpa.UserPresence.Hardware.{UserHardware, confirm}
use salpa.UsbRuntime.Runtime.{
  Usb, Received, report, no_report, broken, accepted, Runtime, new, board,
}
use salpa.UsbRuntime.Completion.{complete_cbor, ok, succeeded, interrupted}
use salpa.UsbRuntime.Completed.{complete_cbor_lem}
use salpa.UsbRuntime.Consented.{consent_for_request}
use salpa.Tests.Transport.{small_build, working, working-IsValid}

-- The button is down from 200 ms on; each polling takes ten milliseconds. The host is heard once.
record Wire : Type 0 where
  time : ℕ
  heard : Bool

abbrev foreign : List ℕ
foreign = init_frame 2 cbor 1 (7 ∷ [])

abbrev usb : Usb Wire
usb = record {
  poll = λ s. (record s { time = s.time + 10 }, true);
  receive = λ s. (record s { heard = true }, if s.heard then no_report else report foreign);
  send = λ s packet. (s, accepted);
  interrupt = λ s. s;
  now_ms = λ s. (s, s.time);
}

foreign-AllBytes : AllBytes foreign
foreign-AllBytes = ground arith

abbrev bytes_of : Received → List ℕ
bytes_of (report r) = r
bytes_of no_report = []
bytes_of broken = []

hears : (s : Wire) (r : List ℕ) → (usb.receive s).1 ≡ report r → AllBytes r
hears s r =
    if-cases (λ (x : Received). x ≡ report r → AllBytes r) s.heard (λ _ e. cc)
      (λ _ e. subst AllBytes (ap bytes_of e) foreign-AllBytes)

abbrev waiting : UserHardware (Runtime Wire)
waiting = record {
  gate = none;
  led = false;
  board = new (record { time = 0; heard = false }) working;
}

abbrev now_ms : Wire → Wire × ℕ
now_ms s = (s, s.time)

abbrev is_low : Wire → Wire × Bool
is_low s = (s, leb 200 s.time)

approves : (confirm (board small_build usb now_ms is_low) 40 waiting 15000 false).1 ≡ some true
unfolding confirm Gate.poll Gate.new board next_packet expire new ingest_report active_channel
    queue_error has_error fill_slot packet_sent queue_keepalive
approves = refl

consent_for_request_example :
    let h = (confirm (board small_build usb now_ms is_low) 40 waiting 15000 false).0 in
    (h.board.ctaphid.app_request ≡ some (record { channel = 1; command = cbor; total = 3 }))
    × (h.board.ctaphid.request ≡ working.request)
unfolding new
consent_for_request_example =
    consent_for_request small_build usb
      (record { fits_init = omega arith; fits_sequence = omega arith }) hears
      (record { channel = 1; command = cbor; total = 3 }) working.request now_ms is_low 40 waiting
      15000 false working-IsValid refl refl approves

complete_cbor_lem_example :
    let r = complete_cbor (reply small_build) working true (0 ∷ 1 ∷ []) in
    ((r.result ≡ ok succeeded) ↔ ((true ≡ true) × (true ≡ true) × (2 ≤ 128) × (true ≡ true)))
    × ((r.result ≡ ok interrupted) ↔ (true ≡ false))
    × (r.state.app_request ≡ none)
    × (r.response ≡ zeroize (0 ∷ 1 ∷ []))
complete_cbor_lem_example = complete_cbor_lem small_build working true (0 ∷ 1 ∷ [])
