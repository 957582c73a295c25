-- ===== src/CtapHid/Frames/Continuing.antt =====
-- One continuation packet of a message, in src/ctaphid.rs.
use salpa.Base.{
  ℕ, ◌+◌, ◌-◌, ◌*◌, ◌%◌, ◌≤◌, ◌<◌, min, ◌≡◌, true, false, none, some, List, arith, length, ◌==◌,
  ltb, take, drop, write_at, bit_and, bit_and_top, u32_mod, length-take, length-drop, take-write_at,
  take-add, take-length-take, match_some, u32_be_round,
}
use salpa.CtapHid.Protocol.{Command, nothing}
use salpa.CtapHid.State.{Build, ReceiveState, Engine, is_allocated}
use salpa.CtapHid.Receive.{dispatch, continue_receive, ingest_continuation, ingest}
use salpa.CtapHid.Frames.{cont_frame}
use salpa.CtapHid.Frames.Start.{frame_part}

-- The engine has received the first `57 + 59 * k` bytes of a message, and more are to come.
pub record Partial (b : Build) (channel : ℕ) (c : Command) (message : List ℕ) (k : ℕ) (e : Engine)
    (r : ReceiveState) : Type 0 where
  pub current : e.receive ≡ some r
  pub on : r.channel ≡ channel
  pub kind : r.command ≡ c
  pub whole : r.total ≡ length message
  pub so_far : r.received ≡ 57 + 59 * k
  pub sequence : r.next_sequence ≡ k
  pub unfinished : r.received < length message
  pub full : length e.request ≡ b.capacity
  pub kept : take r.received e.request ≡ take r.received message
  pub allocated : is_allocated e channel ≡ true

pub ingest-cont :
    (b : Build) (e : Engine) (r : ReceiveState) (channel k now_ms : ℕ) (part : List ℕ)
    → e.receive ≡ some r
    → channel < u32_mod
    → k < 128
    → ingest b e (cont_frame channel k part) now_ms
      ≡ continue_receive b e r channel (cont_frame channel k part) now_ms
unfolding ingest ingest_continuation
ingest-cont b e r channel k now_ms part i h t =
    rw (low, u32_be_round channel h) (match_some e.receive _ _ i)
  where
    below : ltb k 128 ≡ true
    below = ground arith

    low : bit_and k 0x80 ≡ 0
    low = rw (bit_and_top k (omega arith), below)

module _ (b : Build) (channel : ℕ) (c : Command) (message : List ℕ) (k : ℕ) (e : Engine)
    (r : ReceiveState) (now_ms : ℕ) (p : Partial b channel c message k e r)
    (fits : length message ≤ b.capacity) (small : k < 128) where
  abbrev pub rest : List ℕ
  rest = drop r.received message

  abbrev pub count : ℕ
  count = min (r.total - r.received) 59

  abbrev pub frame : List ℕ
  frame = cont_frame channel k (take 59 rest)

  -- The request buffer with the next part.
  abbrev pub longer : Engine
  longer = record e { request = write_at r.received (take 59 rest) e.request }

  pub length-rest : length rest ≡ r.total - r.received
  length-rest = omega (arith, length-drop {0} r.received message, p.whole)

  pub count-rest : count ≡ min 59 (length rest)
  count-rest = omega (arith, length-rest)

  pub longer_kept : take (r.received + count) longer.request ≡ take (r.received + count) message
  longer_kept = rw (
    same,
    take-write_at r.received (take 59 rest) e.request bound,
    p.kept,
    take-add r.received _ message,
    take_rest,
  )
    where
      same : r.received + count ≡ r.received + length (take 59 rest)
      same = omega (arith, length-take {0} 59 rest, count-rest)

      bound : r.received + length (take 59 rest) ≤ length e.request
      bound = omega (arith, length-take {0} 59 rest, length-rest, p.full, p.whole, p.unfinished)

      take_rest : take (length (take 59 rest)) rest ≡ take 59 rest
      take_rest = take-length-take 59 rest

  not_other : (channel == r.channel) ≡ true
  not_other = ground (arith, p.on)

  in_order : (k == r.next_sequence) ≡ true
  in_order = ground (arith, p.sequence)

  -- The frame that completes the message starts its dispatch.
  pub continue_last :
      r.received + count ≡ length message
      → continue_receive b e r channel frame now_ms
        ≡ dispatch b (record longer { receive = none }) channel c (length message)
  unfolding continue_receive
  continue_last h =
      let done : (r.received + count == r.total) ≡ true = ground (arith, p.whole) in
      rw (not_other, in_order, frame_part 59 5 rest count count-rest, done, p.on, p.kind, p.whole)

  pub continue_more :
      r.received + 59 < length message
      → continue_receive b e r channel frame now_ms ≡ (
        nothing,
        record longer {
          receive = some (record r {
            received = r.received + count;
            next_sequence = (r.next_sequence + 1) % 256;
            last_activity_ms = now_ms;
          });
        },
      )
  unfolding continue_receive
  continue_more h =
      let open_still : (r.received + count == r.total) ≡ false = ground (arith, p.whole) in
      rw (not_other, in_order, frame_part 59 5 rest count count-rest, open_still)
