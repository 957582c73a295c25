-- ===== src/UsbRuntime/Runtime.antt =====
-- `UsbRuntime` of src/platform/usb_runtime.rs. The USB device, the interrupt flag and the clock are
-- parameters.
use salpa.Base.{
  ℕ, Bool, true, false, not, Option, none, some, List, ltb, if◌then◌else◌, u32_wrapping_sub,
}
use salpa.CtapHid.Protocol.{ReplyError, Event, nothing, user_presence_needed}
use salpa.CtapHid.State.{Build, Engine}
use salpa.CtapHid.State as State
use salpa.CtapHid.Receive.{ingest_report, expire, request_payload}
use salpa.CtapHid.Transmit.{reply, queue_keepalive, next_packet, packet_sent}
use salpa.UserPresence.Hardware.{Board}

abbrev pub keepalive_interval_ms : ℕ
keepalive_interval_ms = 100

-- What `receive` returns: a report, none, or an error.
pub data Received : Type 0 where
  report : List ℕ → Received
  no_report broken : Received

-- What `send` returns.
pub data Sending : Type 0 where
  accepted would_block refused : Sending

-- `interrupt` raises the flag, where there is one.
pub record Usb (S : Type 0) : Type 0 where
  pub poll : S → S × Bool
  pub receive : S → S × Received
  pub send : S → List ℕ → S × Sending
  pub interrupt : S → S
  pub now_ms : S → S × ℕ

pub record Runtime (S : Type 0) : Type 0 where
  pub usb : S
  pub ctaphid : Engine
  pub last_keepalive_ms : ℕ
  pub presence_cancelled : Bool

unfoldable pub new : {S : Type 0} → S → Engine → Runtime S
new usb ctaphid = record {
  usb = usb;
  ctaphid = ctaphid;
  last_keepalive_ms = 0;
  presence_cancelled = false;
}

unfoldable pub copy_request : {S : Type 0} → Runtime S → Option (List ℕ)
copy_request r = request_payload r.ctaphid

module _ {S : Type 0} (build : Build) (usb : Usb S) where
  -- `reply_cbor` and `reply_update`.
  unfoldable pub reply_cbor : Runtime S → List ℕ → Option ReplyError × Runtime S
  reply_cbor r response =
      let (result, e) = reply build r.ctaphid response in (result, record r { ctaphid = e })

  unfoldable pub cancel_presence : Runtime S → Runtime S
  cancel_presence r = record r { usb = usb.interrupt r.usb; presence_cancelled = true }

  unfoldable pub transport_error : Runtime S → Runtime S
  unfolding cancel_presence
  transport_error r = cancel_presence (record r { ctaphid = State.transport_error r.ctaphid })

  -- One report, from `poll_at`.
  unfoldable pub take_report : Runtime S → List ℕ → ℕ → Event × Runtime S
  unfolding cancel_presence
  take_report r bytes now_ms =
      let ((event, interrupted), e) = ingest_report build r.ctaphid bytes now_ms in
      let r = record r { ctaphid = e } in (event, if interrupted then cancel_presence r else r)

  -- What `receive` returned.
  unfoldable pub handle_received : Received → Runtime S → ℕ → Event × Runtime S
  unfolding transport_error take_report
  handle_received (report bytes) r now_ms = take_report r bytes now_ms
  handle_received no_report r now_ms = (nothing, r)
  handle_received broken r now_ms = (nothing, transport_error r)

  unfoldable pub receive_report : Runtime S → ℕ → Event × Runtime S
  unfolding handle_received
  receive_report r now_ms =
      let (s, got) = usb.receive r.usb in handle_received got (record r { usb = s }) now_ms

  -- What `send` returned.
  unfoldable pub handle_sent : Sending → Runtime S → Bool × Runtime S
  unfolding transport_error
  handle_sent accepted r = (true, record r { ctaphid = packet_sent r.ctaphid })
  handle_sent would_block r = (true, r)
  handle_sent refused r = (false, transport_error r)

  unfoldable pub send_packet : Runtime S → List ℕ → Bool × Runtime S
  unfolding handle_sent
  send_packet r packet =
      let (s, result) = usb.send r.usb packet in handle_sent result (record r { usb = s })

  unfoldable pub send_pending : Runtime S → Bool × Runtime S
  unfolding send_packet
  send_pending r = elim (next_packet r.ctaphid) [
    | none ↦ (true, r)
    | some packet ↦ send_packet r packet
  ]

  -- The part of `poll_at` before the requests expire.
  unfoldable pub poll_usb : Runtime S → ℕ → Event × Runtime S
  unfolding receive_report
  poll_usb r now_ms =
      let (s, ready) = usb.poll r.usb in
      let r = record r { usb = s } in if ready then receive_report r now_ms else (nothing, r)

  unfoldable pub poll_at : Runtime S → ℕ → Event × Runtime S
  unfolding poll_usb send_pending
  poll_at r now_ms =
      let (event, r) = poll_usb r now_ms in
      let (sent, r) = send_pending (record r { ctaphid = expire r.ctaphid now_ms }) in
      (if sent then event else nothing, r)

  unfoldable pub poll : Runtime S → Event × Runtime S
  unfolding poll_at
  poll r = let (s, now_ms) = usb.now_ms r.usb in poll_at (record r { usb = s }) now_ms

  unfoldable pub begin_wait : Runtime S → Runtime S
  begin_wait r =
      let (s, now_ms) = usb.now_ms r.usb in
      record r { usb = s; last_keepalive_ms = now_ms; presence_cancelled = false }

  unfoldable pub keep_alive : Runtime S → ℕ → Runtime S
  keep_alive r now_ms =
      if not (ltb (u32_wrapping_sub now_ms r.last_keepalive_ms) keepalive_interval_ms)
      then record r {
        ctaphid = (queue_keepalive r.ctaphid user_presence_needed).1;
        last_keepalive_ms = now_ms;
      }
      else r

  unfoldable pub poll_wait : Runtime S → Runtime S
  unfolding keep_alive poll_at
  poll_wait r =
      let (s, now_ms) = usb.now_ms r.usb in
      (poll_at (keep_alive (record r { usb = s }) now_ms) now_ms).1

  unfoldable pub cancelled : Runtime S → Runtime S × Bool
  cancelled r = (r, r.presence_cancelled)

  -- The board whose wait polls USB: the clock and the pin of the button are `now_ms` and `is_low`.
  unfoldable pub board : (S → S × ℕ) → (S → S × Bool) → Board (Runtime S)
  unfolding begin_wait poll_wait cancelled
  board now_ms is_low = record {
    now_ms = λ r. (let (s, now) = now_ms r.usb in (record r { usb = s }, now));
    is_low = λ r. (let (s, low) = is_low r.usb in (record r { usb = s }, low));
    begin_wait = begin_wait;
    poll_wait = poll_wait;
    end_wait = λ r. r;
    cancelled = cancelled;
  }
