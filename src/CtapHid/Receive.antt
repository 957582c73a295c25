-- ===== src/CtapHid/Receive.antt =====
-- The receiving half of src/ctaphid.rs: `ingest_report`, `ingest`, continuation packets, dispatch.
use salpa.Base.{
  ℕ, ◌+◌, ◌-◌, ◌%◌, ◌*◌, min, Bool, true, false, ◌&&◌, ◌||◌, not, Option, none, some, List, ◌==◌,
  ltb, is_some, if◌then◌else◌, length, take, slice, write_at, set, byte, u32_from_be, u32_be_bytes,
  u32_wrapping_sub, bit_and,
}
use salpa.CtapHid.Protocol.{
  Command, ping, init, cbor, cancel, update, code, from_number, is_init, is_cancel, TransportError,
  invalid_command, invalid_length, invalid_sequence, timeout, channel_busy, invalid_channel, Event,
  nothing, cbor_request, update_request, cancelled, packet_size, init_payload_size,
  cont_payload_size, broadcast_channel, reserved_channel, receive_timeout_ms,
}
use salpa.CtapHid.State.{
  Build, ReceiveState, Engine, zeroize, is_special, is_allocated, allocate_channel, active_channel,
  abort_transaction, transport_error, cancel_application_request, start_transmit, queue_error,
}

abbrev pub clear_request : Engine → Engine
clear_request e = record e { request = zeroize e.request }

-- The branches that clear the request, queue an error and report nothing.
abbrev pub reject : Engine → ℕ → TransportError → Event × Engine
reject e channel err = (nothing, queue_error (clear_request e) channel err)

-- The response to INIT: nonce, assigned channel, protocol version, device version, capabilities.
unfoldable pub init_response : Engine → ℕ → List ℕ
init_response e assigned =
    let r = write_at 0 (take 8 e.request) (zeroize e.response) in
    let r = write_at 8 (u32_be_bytes assigned) r in
    let r = set r 12 2 in
    let r = set r 13 e.version.major in
    let r = set r 14 e.version.minor in let r = set r 15 e.version.build in set r 16 e.capabilities

abbrev pub answer_init : ℕ → ℕ × Engine → Event × Engine
answer_init channel (assigned, e) = (
  nothing,
  start_transmit (record e { response = init_response e assigned; request = zeroize e.request })
      channel init 17,
)

unfoldable pub dispatch_init : Engine → ℕ → ℕ → Event × Engine
unfolding init_response start_transmit
dispatch_init e channel total =
    if channel == reserved_channel
    then reject e channel invalid_channel
    else if not (total == 8)
    then reject e channel invalid_length
    else if channel == broadcast_channel
    then answer_init channel (allocate_channel e)
    else if is_allocated e channel
    then answer_init channel (channel, e)
    else reject e channel invalid_channel

-- The `match` of `dispatch` for a message on an allocated channel.
unfoldable pub dispatch_command : Build → Engine → ℕ → Command → ℕ → Event × Engine
unfolding start_transmit
dispatch_command b e channel ping total = (
  nothing,
  start_transmit
      (record e {
        response = write_at 0 (take total e.request) (zeroize e.response);
        request = zeroize e.request;
      })
      channel ping total,
)
dispatch_command b e channel cbor total = (
  cbor_request channel total,
  record e { app_request = some (record { channel = channel; command = cbor; total = total }) },
)
dispatch_command b e channel update total =
    if b.signed_update
    then (
      update_request channel total,
      record e {
        app_request = some (record { channel = channel; command = update; total = total });
      },
    )
    else reject e channel invalid_command
dispatch_command b e channel cancel total = (nothing, clear_request e)
dispatch_command b e channel _ total = reject e channel invalid_command

unfoldable pub dispatch : Build → Engine → ℕ → Command → ℕ → Event × Engine
unfolding dispatch_init dispatch_command
dispatch b e channel command total =
    if is_init command
    then dispatch_init e channel total
    else if is_special channel || not (is_allocated e channel)
    then reject e channel invalid_channel
    else dispatch_command b e channel command total

-- `ingest_continuation` for the message being received.
unfoldable pub continue_receive : Build → Engine → ReceiveState → ℕ → List ℕ → ℕ → Event × Engine
unfolding dispatch
continue_receive b e r channel packet now_ms =
    if not (channel == r.channel)
    then (nothing, e)
    else if not (byte packet 4 == r.next_sequence)
    then reject (record e { receive = none }) channel invalid_sequence
    else let count = min (r.total - r.received) cont_payload_size in
      let e = record e { request = write_at r.received (slice packet 5 (5 + count)) e.request } in
      let r = record r {
        received = r.received + count;
        next_sequence = (r.next_sequence + 1) % 256;
        last_activity_ms = now_ms;
      } in
      if r.received == r.total
      then dispatch b (record e { receive = none }) r.channel r.command r.total
      else (nothing, record e { receive = some r })

unfoldable pub ingest_continuation : Build → Engine → ℕ → List ℕ → ℕ → Event × Engine
ingest_continuation b e channel packet now_ms = elim e.receive [
  | none ↦ (nothing, e)
  | some r ↦ continue_receive b e r channel packet now_ms
]

abbrev pub channel_of : List ℕ → ℕ
channel_of p = u32_from_be (byte p 0) (byte p 1) (byte p 2) (byte p 3)

abbrev pub length_of : List ℕ → ℕ
length_of p = byte p 5 * 256 + byte p 6

-- The part of `ingest` below `self.request.zeroize()`, for a known command.
unfoldable pub begin_message : Build → Engine → ℕ → Command → ℕ → List ℕ → ℕ → Event × Engine
unfolding dispatch
begin_message b e channel command total packet now_ms =
    if ltb b.capacity total
    then (nothing, queue_error e channel invalid_length)
    else if (is_init command && not (total == 8)) || (is_cancel command && not (total == 0))
    then (nothing, queue_error e channel invalid_length)
    else let copied = min total init_payload_size in
      let e = record e { request = write_at 0 (slice packet 7 (7 + copied)) e.request } in
      if ltb init_payload_size total
      then (
        nothing,
        record e {
          receive = some (record {
            channel = channel;
            command = command;
            total = total;
            received = init_payload_size;
            next_sequence = 0;
            last_activity_ms = now_ms;
          });
        },
      )
      else dispatch b e channel command total

unfoldable pub start_message : Build → Engine → ℕ → ℕ → List ℕ → ℕ → Event × Engine
unfolding from_number begin_message
start_message b e channel number packet now_ms =
    let e = clear_request e in
    elim (from_number number) [
      | none ↦ (nothing, queue_error e channel invalid_command)
      | some command ↦ begin_message b e channel command (length_of packet) packet now_ms
    ]

-- The block of `ingest` for an engine whose channel `active` is busy.
unfoldable pub interrupt_active : Build → Engine → ℕ → ℕ → ℕ → List ℕ → ℕ → Event × Engine
unfolding start_message
interrupt_active b e active channel number packet now_ms =
    if number == code cancel && not (channel == active)
    then (nothing, e)
    else if not (channel == active)
    then (nothing, queue_error e channel channel_busy)
    else if number == code init
    then start_message b (abort_transaction e) channel number packet now_ms
    else if number == code cancel
    then (if not (length_of packet == 0)
        then (nothing, queue_error e channel invalid_length)
        else (let (taken, e') = cancel_application_request e in
            ((if taken then cancelled channel else nothing), e')))
    else (nothing, queue_error (abort_transaction e) channel invalid_sequence)

unfoldable pub ingest : Build → Engine → List ℕ → ℕ → Event × Engine
unfolding interrupt_active start_message ingest_continuation
ingest b e packet now_ms =
    let channel = channel_of packet in
    let number = bit_and (byte packet 4) 0x7f in
    if bit_and (byte packet 4) 0x80 == 0
    then ingest_continuation b e channel packet now_ms
    else elim (active_channel e) [
      | some active ↦ interrupt_active b e active channel number packet now_ms
      | none ↦ start_message b e channel number packet now_ms
    ]

abbrev pub is_cancelled : Event → Bool
is_cancelled (cancelled _) = true
is_cancelled _ = false

unfoldable pub ingest_with_interruption : Build → Engine → List ℕ → ℕ → (Event × Bool) × Engine
unfolding ingest
ingest_with_interruption b e packet now_ms =
    let (event, e') = ingest b e packet now_ms in
    let interrupted =
      (is_some e.app_request && not (is_some e'.app_request)) || is_cancelled event in
    ((event, interrupted), e')

unfoldable pub ingest_report : Build → Engine → List ℕ → ℕ → (Event × Bool) × Engine
unfolding ingest_with_interruption transport_error
ingest_report b e report now_ms =
    if length report == packet_size
    then ingest_with_interruption b e report now_ms
    else ((nothing, true), transport_error e)

unfoldable pub request_payload : Engine → Option (List ℕ)
request_payload e = elim e.app_request [ none ↦ none | some q ↦ some (take q.total e.request) ]

unfoldable pub expire : Engine → ℕ → Engine
expire e now_ms = elim e.receive [
  | none ↦ e
  | some r ↦
      if ltb receive_timeout_ms (u32_wrapping_sub now_ms r.last_activity_ms)
      then queue_error (clear_request (record e { receive = none })) r.channel timeout
      else e
]
