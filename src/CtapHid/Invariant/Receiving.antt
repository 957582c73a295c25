-- ===== src/CtapHid/Invariant/Receiving.antt =====
-- Every operation of the receiving half of src/ctaphid.rs keeps the invariant.
use salpa.Base.{
  ℕ, ◌+◌, ◌-◌, ◌%◌, ◌≤◌, ◌<◌, min, ◌≡◌, ◌≢◌, refl, Bool, none, some, List, ◌&&◌, ◌||◌, not, arith,
  length, ◌==◌, ltb, if-cases, option-cases, u32_wrapping_sub, length-write_at, u32_mod, AllBytes,
  byte-lt, bit_and, slice, write_at, byte,
}
use salpa.CtapHid.Protocol.{
  Command, from_number, is_init, is_cancel, invalid_command, invalid_length, invalid_sequence,
  channel_busy, timeout, Event,
}
use salpa.CtapHid.State.{
  Build, ReceiveState, Engine, active_channel, abort_transaction, cancel_application_request,
  queue_error,
}
use salpa.CtapHid.Receive.{
  clear_request, continue_receive, ingest_continuation, length_of, channel_of, begin_message,
  start_message, interrupt_active, ingest, ingest_with_interruption, ingest_report, expire,
}
use salpa.CtapHid.Invariant.{
  IsBuild, IsValid, Idle, buffers-IsValid, queue_error-IsValid, abort_transaction-IsValid,
  transport_error-IsValid,
}
use salpa.CtapHid.Invariant.Dispatching.{
  clear_request-IsValid, reject-IsValid, Valid, dispatch-IsValid,
}

-- The end of a reception leaves no transaction.
stop_receive :
    {b : Build} (e : Engine) (r : ReceiveState)
    → IsValid b e
    → e.receive ≡ some r
    → IsValid b (record e { receive = none }) × Idle (record e { receive = none })
stop_receive e r v i = ground arith

-- The message so far is stored, and its counters are in step.
store-IsValid :
    {b : Build} (e : Engine) (r : ReceiveState) (part : List ℕ) (count now_ms : ℕ)
    → IsBuild b
    → IsValid b e
    → e.receive ≡ some r
    → count ≡ min (r.total - r.received) 59
    → r.received + count ≢ r.total
    → IsValid b (record e {
      request = write_at r.received part e.request;
      receive = some (record r {
        received = r.received + count;
        next_sequence = (r.next_sequence + 1) % 256;
        last_activity_ms = now_ms;
      });
    })
store-IsValid e r part count now_ms w v i p q =
    ground (arith, length-write_at r.received part e.request)

continue_receive-IsValid :
    {b : Build} (e : Engine) (r : ReceiveState) (channel : ℕ) (packet : List ℕ) (now_ms : ℕ)
    → IsBuild b
    → IsValid b e
    → e.receive ≡ some r
    → channel < u32_mod
    → IsValid b (continue_receive b e r channel packet now_ms).1
unfolding continue_receive
continue_receive-IsValid {b} e r channel packet now_ms w v i c =
    if-cases (Valid b) (not (channel == r.channel)) (λ h. v)
      (λ h.
        if-cases (Valid b) (not (byte packet 4 == r.next_sequence))
          (λ k. reject-IsValid (record e { receive = none }) channel invalid_sequence stopped.0)
          (λ k.
            if-cases (Valid b) (r.received + count == r.total)
              (λ l.
                dispatch-IsValid
                  (record e { request = write_at r.received part e.request; receive = none })
                  r.channel r.command r.total w
                  (buffers-IsValid (record e { receive = none }) _ _ stopped.0
                    (length-write_at r.received part e.request) refl)
                  stopped.1 (ground (arith, v.receiving)) (ground arith))
              (λ l. store-IsValid e r part count now_ms w v i refl (ground arith))))
  where
    count : ℕ
    count = min (r.total - r.received) 59

    part : List ℕ
    part = slice packet 5 (5 + count)

    stopped : IsValid b (record e { receive = none }) × Idle (record e { receive = none })
    stopped = stop_receive e r v i

begin_message-IsValid :
    {b : Build} (e : Engine) (channel : ℕ) (command : Command) (total : ℕ) (packet : List ℕ)
    (now_ms : ℕ)
    → IsBuild b
    → IsValid b e
    → Idle e
    → channel < u32_mod
    → IsValid b (begin_message b e channel command total packet now_ms).1
unfolding begin_message
begin_message-IsValid {b} e channel command total packet now_ms w v i c =
    if-cases (Valid b) (ltb b.capacity total) (λ h. too_long)
      (λ h.
        if-cases (Valid b)
          ((is_init command && not (total == 8)) || (is_cancel command && not (total == 0)))
          (λ k. too_long)
          (λ k.
            if-cases (Valid b) (ltb 57 total) (λ l. waiting (ground arith) (ground arith))
              (λ l. dispatch-IsValid stored channel command total w valid i (ground arith) c)))
  where
    part : List ℕ
    part = slice packet 7 (7 + min total 57)

    stored : Engine
    stored = record e { request = write_at 0 part e.request }

    too_long : IsValid b (queue_error e channel invalid_length)
    too_long = queue_error-IsValid e channel invalid_length v

    valid : IsValid b stored
    valid = buffers-IsValid e _ e.response v (length-write_at 0 part e.request) refl

    waiting :
        57 < total
        → total ≤ b.capacity
        → IsValid b (record stored {
          receive = some (record {
            channel = channel;
            command = command;
            total = total;
            received = 57;
            next_sequence = 0;
            last_activity_ms = now_ms;
          });
        })
    waiting l t = ground (arith, valid)

start_message-IsValid :
    {b : Build} (e : Engine) (channel number : ℕ) (packet : List ℕ) (now_ms : ℕ)
    → IsBuild b
    → IsValid b e
    → Idle e
    → channel < u32_mod
    → IsValid b (start_message b e channel number packet now_ms).1
unfolding start_message
start_message-IsValid {b} e channel number packet now_ms w v i c =
    option-cases (Valid b) (from_number number)
      (λ k. queue_error-IsValid (clear_request e) channel invalid_command cleared)
      (λ command k.
        begin_message-IsValid (clear_request e) channel command (length_of packet) packet now_ms w
          cleared i c)
  where
    cleared : IsValid b (clear_request e)
    cleared = clear_request-IsValid e v

cancel-IsValid : {b : Build} (e : Engine) → IsValid b e → IsValid b (cancel_application_request e).1
unfolding cancel_application_request
cancel-IsValid e v = ground arith

interrupt_active-IsValid :
    {b : Build} (e : Engine) (active channel number : ℕ) (packet : List ℕ) (now_ms : ℕ)
    → IsBuild b
    → IsValid b e
    → channel < u32_mod
    → IsValid b (interrupt_active b e active channel number packet now_ms).1
unfolding interrupt_active abort_transaction
interrupt_active-IsValid {b} e active channel number packet now_ms w v c =
    if-cases (Valid b) (number == 0x11 && not (channel == active)) (λ h. v)
      (λ h.
        if-cases (Valid b) (not (channel == active))
          (λ k. queue_error-IsValid e channel channel_busy v)
          (λ k.
            if-cases (Valid b) (number == 0x06)
              (λ l.
                start_message-IsValid (abort_transaction e) channel number packet now_ms w aborted
                  (refl, refl, refl) c)
              (λ l.
                if-cases (Valid b) (number == 0x11)
                  (λ m.
                    if-cases (Valid b) (not (length_of packet == 0))
                      (λ n. queue_error-IsValid e channel invalid_length v)
                      (λ n. cancel-IsValid e v))
                  (λ m.
                    queue_error-IsValid (abort_transaction e) channel invalid_sequence aborted))))
  where
    aborted : IsValid b (abort_transaction e)
    aborted = abort_transaction-IsValid e v

ingest_continuation-IsValid :
    {b : Build} (e : Engine) (channel : ℕ) (packet : List ℕ) (now_ms : ℕ)
    → IsBuild b
    → IsValid b e
    → channel < u32_mod
    → IsValid b (ingest_continuation b e channel packet now_ms).1
unfolding ingest_continuation
ingest_continuation-IsValid {b} e channel packet now_ms w v c =
    option-cases (Valid b) e.receive (λ i. v)
      (λ r i. continue_receive-IsValid e r channel packet now_ms w v i c)

-- An engine with no active channel has no transaction.
active_channel-Idle : (e : Engine) → active_channel e ≡ none → Idle e
unfolding active_channel
active_channel-Idle e h = ground arith

channel_of-lt : (p : List ℕ) → AllBytes p → channel_of p < u32_mod
channel_of-lt p h = omega (arith, byte-lt p 0 h, byte-lt p 1 h, byte-lt p 2 h, byte-lt p 3 h)

-- A packet of bytes, whatever it says and whenever it comes, leaves a valid engine valid.
pub ingest-IsValid :
    {b : Build} (e : Engine) (packet : List ℕ) (now_ms : ℕ)
    → IsBuild b
    → IsValid b e
    → AllBytes packet
    → IsValid b (ingest b e packet now_ms).1
unfolding ingest
ingest-IsValid {b} e packet now_ms w v h =
    if-cases (Valid b) (bit_and (byte packet 4) 0x80 == 0)
      (λ k. ingest_continuation-IsValid e (channel_of packet) packet now_ms w v c)
      (λ k.
        option-cases (Valid b) (active_channel e)
          (λ i.
            start_message-IsValid e (channel_of packet) number packet now_ms w v
              (active_channel-Idle e i) c)
          (λ a i. interrupt_active-IsValid e a (channel_of packet) number packet now_ms w v c))
  where
    c : channel_of packet < u32_mod
    c = channel_of-lt packet h

    number : ℕ
    number = bit_and (byte packet 4) 0x7f

-- So does a report of any length, with the check for an interruption.
pub ingest_report-IsValid :
    {b : Build} (e : Engine) (report : List ℕ) (now_ms : ℕ)
    → IsBuild b
    → IsValid b e
    → AllBytes report
    → IsValid b (ingest_report b e report now_ms).1
unfolding ingest_report ingest_with_interruption
ingest_report-IsValid {b} e report now_ms w v h =
    if-cases (λ (r : (Event × Bool) × Engine). IsValid b r.1) (length report == 64)
      (λ k. ingest-IsValid e report now_ms w v h) (λ k. (transport_error-IsValid e v).0)

pub expire-IsValid :
    {b : Build} (e : Engine) (now_ms : ℕ) → IsValid b e → IsValid b (expire e now_ms)
unfolding expire
expire-IsValid {b} e now_ms v =
    option-cases (IsValid b) e.receive (λ i. v)
      (λ r i.
        if-cases (IsValid b) (ltb 550 (u32_wrapping_sub now_ms r.last_activity_ms))
          (λ k.
            reject-IsValid (record e { receive = none }) r.channel timeout (stop_receive e r v i).0)
          (λ k. v))
