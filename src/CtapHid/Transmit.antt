-- ===== src/CtapHid/Transmit.antt =====
-- The sending half of src/ctaphid.rs: replies, keepalives, `next_packet` and `packet_sent`.
use salpa.Base.{
  ℕ, ◌+◌, ◌-◌, ◌%◌, min, Bool, true, false, Option, none, some, List, [], ◌∷◌, ◌++◌, ltb, leb, ◌==◌,
  if◌then◌else◌, length, take, slice, write_at, set, replicate, u32_be_bytes, u16_be_bytes, bit_or,
  is_some,
}
use salpa.CtapHid.Protocol.{
  Command, keepalive, error, code, invalid_length, KeepaliveStatus, error_code, status_code,
  ReplyError, no_pending_request, response_too_long, packet_size, init_payload_size,
  cont_payload_size,
}
use salpa.CtapHid.State.{
  Build, TransmitState, PendingError, Engine, zeroize, start_transmit, queue_error,
}

-- `reply_cbor` and `reply_update` are both this `reply`.
unfoldable pub reply : Build → Engine → List ℕ → Option ReplyError × Engine
unfolding start_transmit
reply b e payload = elim e.app_request [
  | none ↦ (some no_pending_request, e)
  | some q ↦
      let e = record e { app_request = none; request = zeroize e.request } in
      if ltb b.capacity (length payload)
      then (some response_too_long, queue_error e q.channel invalid_length)
      else (
        none,
        start_transmit (record e { response = write_at 0 payload (zeroize e.response) }) q.channel
            q.command (length payload),
      )
]

unfoldable pub queue_keepalive : Engine → KeepaliveStatus → Bool × Engine
queue_keepalive e status = elim e.app_request [
  | none ↦ (false, e)
  | some q ↦ (true, record e { keepalive = some (q.channel, status) })
]

unfoldable pub initial_packet : ℕ → Command → ℕ → List ℕ
initial_packet channel command total =
    let p = write_at 0 (u32_be_bytes channel) (replicate packet_size 0) in
    let p = set p 4 (bit_or (code command) 0x80) in write_at 5 (u16_be_bytes total) p

unfoldable pub transmit_packet : List ℕ → TransmitState → List ℕ
transmit_packet response t =
    let p = write_at 0 (u32_be_bytes t.channel) (replicate packet_size 0) in
    if t.offset == 0
    then (let p = set p 4 (bit_or (code t.command) 0x80) in
        let p = write_at 5 (u16_be_bytes t.total) p in
        write_at 7 (take (min t.total init_payload_size) response) p)
    else (let p = set p 4 t.next_sequence in
        let count = min (t.total - t.offset) cont_payload_size in
        write_at 5 (slice response t.offset (t.offset + count)) p)

abbrev pub first_error : List (Option PendingError) → Option PendingError
first_error [] = none
first_error (x ∷ xs) = x

unfoldable pub next_packet : Engine → Option (List ℕ)
unfolding initial_packet transmit_packet
next_packet e = elim (first_error e.errors) [
  | some x ↦ some (set (initial_packet x.channel error 1) 7 (error_code x.error))
  | none ↦ elim e.keepalive [
    | some (channel, status) ↦
        some (set (initial_packet channel keepalive 1) 7 (status_code status))
    | none ↦ elim e.transmit [ none ↦ none | some t ↦ some (transmit_packet e.response t) ]
  ]
]

-- `errors.rotate_left(1)`, and then the last slot is emptied.
abbrev pub drop_first : List (Option PendingError) → List (Option PendingError)
drop_first [] = []
drop_first (x ∷ xs) = xs ++ (none ∷ [])

-- The number of bytes of the current packet of a transmission.
abbrev pub packet_count : TransmitState → ℕ
packet_count t =
    if t.offset == 0
    then min t.total init_payload_size
    else min (t.total - t.offset) cont_payload_size

unfoldable pub advance_transmit : Engine → TransmitState → Engine
advance_transmit e t =
    let offset = t.offset + packet_count t in
    if leb t.total offset
    then record e { transmit = none; response = zeroize e.response }
    else record e {
      transmit = some (record t {
        offset = offset;
        next_sequence =
            if ltb init_payload_size offset then (t.next_sequence + 1) % 256 else t.next_sequence;
      });
    }

unfoldable pub packet_sent : Engine → Engine
unfolding advance_transmit
packet_sent e =
    if is_some (first_error e.errors)
    then record e { errors = drop_first e.errors }
    else if is_some e.keepalive
    then record e { keepalive = none }
    else elim e.transmit [ none ↦ e | some t ↦ advance_transmit e t ]
