-- ===== src/CtapHid/Frames/Sending.antt =====
-- The engine of src/ctaphid.rs sends a reply as its frames, in order and to the end.
use salpa.Base.{
  ℕ, zero, suc, ◌+◌, ◌-◌, ◌*◌, ◌≤◌, ◌<◌, min, ◌≡◌, ◌∙◌, refl, ap, none, some, List, arith, length,
  take, drop, drop-add, drop-length, length-take, length-drop,
}
use native.Mathlib.Decide.{dec_lt}
use salpa.CtapHid.State.{TransmitState, Engine, zeroize}
use salpa.CtapHid.Transmit.{advance_transmit}
use salpa.CtapHid.Frames.{cont_frames, cont_frames-nil, cont_frames-step, frames}
use salpa.CtapHid.Frames.Packets.{
  drain, Quiet, next_packet-Quiet, packet_sent-Quiet, drain-done, first_packet, later_packet,
  next_state, advance_last, advance_more, drain_step,
}

-- The engine when its transmission is over.
abbrev pub sent_all : Engine → Engine
sent_all e = record e { transmit = none; response = zeroize e.response }

-- The transmission `t` of `e` is in a continuation packet's turn, with `n` packets left at most.
record Continues (n : ℕ) (e : Engine) (t : TransmitState) : Type 0 where
  quiet : Quiet e
  current : e.transmit ≡ some t
  stored : t.total ≤ length e.response
  short : t.total ≤ 7609
  in_step : t.offset ≡ 57 + 59 * t.next_sequence
  unfinished : t.offset < t.total
  enough : t.total - t.offset ≤ n

abbrev rest_of : Engine → TransmitState → List ℕ
rest_of e t = drop t.offset (take t.total e.response)

length-rest_of :
    (e : Engine) (t : TransmitState)
    → t.total ≤ length e.response
    → length (rest_of e t) ≡ t.total - t.offset
length-rest_of e t h =
    omega (
      arith,
      length-drop {0} t.offset (take t.total e.response),
      length-take {0} t.total e.response,
    )

drain_rest :
    (n : ℕ) (e : Engine) (t : TransmitState)
    → Continues n e t
    → drain n e ≡ (cont_frames n t.channel t.next_sequence (rest_of e t), sent_all e)
drain_rest zero e t c = absurd (omega (arith, c.unfinished, c.enough))
drain_rest (suc n) e t c =
    rw
      (cont_frames-step n t.channel t.next_sequence (rest_of e t)
        (omega (arith, length-rest_of e t c.stored, c.unfinished)))
      (drain_step n e _ _ _
        (next_packet-Quiet e t c.quiet c.current
          ∙ ap some (later_packet e.response t (omega (arith, c.in_step))))
        (rw (packet_sent-Quiet e t c.quiet c.current) (elim (dec_lt (t.offset + 59) t.total) [
          | yes h ↦ rw (advance_more e t (pos c) (late c) h (omega (arith, c.short, c.in_step))) (
              drain_rest n (record e { transmit = some (next_state t) }) (next_state t) (next h)
              ∙ ap (λ l. (cont_frames n t.channel (t.next_sequence + 1) l, sent_all e)) (shift h))
          | no h ↦ rw (
            advance_last e t (pos c) (omega arith),
            drain-done n (sent_all e) c.quiet refl,
            drop-length 59 (rest_of e t) (omega (arith, length-rest_of e t c.stored)),
            cont_frames-nil,
          )
        ])))
  where
    pos : Continues (suc n) e t → 0 < t.offset
    pos c = omega (arith, c.in_step)

    late : Continues (suc n) e t → 57 ≤ t.offset
    late c = omega (arith, c.in_step)

    next :
        t.offset + 59 < t.total
        → Continues n (record e { transmit = some (next_state t) }) (next_state t)
    next h = record {
      quiet = c.quiet;
      current = refl;
      stored = c.stored;
      short = c.short;
      in_step = omega (arith, c.in_step);
      unfinished = omega (arith, c.in_step);
      enough = omega (arith, c.enough);
    }

    shift : t.offset + 59 < t.total → rest_of e (next_state t) ≡ drop 59 (rest_of e t)
    shift h =
        let m : t.offset + min (t.total - t.offset) 59 ≡ t.offset + 59 = omega arith in
        rw m (drop-add t.offset 59 (take t.total e.response))

advance_short :
    (e : Engine) (t : TransmitState)
    → t.offset ≡ 0
    → t.total ≤ 57
    → advance_transmit e t ≡ sent_all e
unfolding advance_transmit
advance_short e t o h = ground arith

advance_first :
    (e : Engine) (t : TransmitState)
    → t.offset ≡ 0
    → 57 < t.total
    → advance_transmit e t ≡ record e { transmit = some (record t { offset = 57 }) }
unfolding advance_transmit
advance_first e t o h = ground arith

drain_after_first :
    (e : Engine) (t : TransmitState)
    → Quiet e
    → t.offset ≡ 0
    → t.next_sequence ≡ 0
    → t.total ≤ length e.response
    → t.total ≤ 7609
    → drain t.total (advance_transmit e t)
      ≡ (cont_frames t.total t.channel 0 (drop 57 (take t.total e.response)), sent_all e)
drain_after_first e t q o s l m = elim (dec_lt 57 t.total) [
  | yes h ↦ rw (advance_first e t o h) (
      drain_rest t.total (record e { transmit = some (record t { offset = 57 }) })
        (record t { offset = 57 })
        (record {
          quiet = q;
          current = refl;
          stored = l;
          short = m;
          in_step = omega arith;
          unfinished = h;
          enough = omega arith;
        })
      ∙ ap (λ k. (cont_frames t.total t.channel k (drop 57 (take t.total e.response)), sent_all e))
          s)
  | no h ↦ rw (
    advance_short e t o (omega arith),
    drain-done t.total (sent_all e) q refl,
    drop-length 57 (take t.total e.response) (omega (arith, length-take {0} t.total e.response)),
    cont_frames-nil,
  )
]

-- A reply that the engine has stored goes out as exactly the frames of its message, in order, with
-- nothing left after them, within one packet more than the message has bytes. The engine is then
-- free again, and the reply is erased from it.
pub drain-frames :
    (e : Engine) (t : TransmitState)
    → Quiet e
    → e.transmit ≡ some t
    → t.offset ≡ 0
    → t.next_sequence ≡ 0
    → t.total ≤ length e.response
    → t.total ≤ 7609
    → drain (suc t.total) e ≡ (frames t.channel t.command (take t.total e.response), sent_all e)
unfolding frames
drain-frames e t q i o s l m =
    drain_step t.total e _ _ _
      (rw len (next_packet-Quiet e t q i ∙ ap some (first_packet e.response t o)))
      (rw (packet_sent-Quiet e t q i, len) (drain_after_first e t q o s l m))
  where
    len : length (take t.total e.response) ≡ t.total
    len = omega (arith, length-take {0} t.total e.response)
