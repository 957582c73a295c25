-- ===== src/CtapHid/Frames/Packets.antt =====
-- The packets that src/ctaphid.rs sends for a reply, one at a time.
use salpa.Base.{
  ℕ, zero, suc, ◌+◌, ◌-◌, ◌≤◌, ◌<◌, min, ◌≡◌, ◌≢◌, refl, false, none, some, List, [], ◌∷◌, arith,
  ◌==◌, take, drop, take-take, drop-take, bit_or,
}
use native.Mathlib.Nat.{min_comm}
use salpa.CtapHid.Protocol.{Command, code}
use salpa.CtapHid.State.{TransmitState, Engine, zeroize}
use salpa.CtapHid.Transmit.{
  first_error, transmit_packet, next_packet, advance_transmit, packet_sent,
}
use salpa.CtapHid.Frames.{init_frame, cont_frame}

-- Send every packet that is ready, `n` at most.
pub drain : ℕ → Engine → List (List ℕ) × Engine
drain zero e = ([], e)
drain (suc n) e = elim (next_packet e) [
  | none ↦ ([], e)
  | some p ↦ let (ps, e') = drain n (packet_sent e) in (p ∷ ps, e')
]

-- Nothing stands before the transmission in the queue.
abbrev pub Quiet : Engine → Type 0
Quiet e = (first_error e.errors ≡ none) × (e.keepalive ≡ none)

pub next_packet-Quiet :
    (e : Engine) (t : TransmitState)
    → Quiet e
    → e.transmit ≡ some t
    → next_packet e ≡ some (transmit_packet e.response t)
unfolding next_packet
next_packet-Quiet e t q i = ground arith

pub packet_sent-Quiet :
    (e : Engine) (t : TransmitState)
    → Quiet e
    → e.transmit ≡ some t
    → packet_sent e ≡ advance_transmit e t
unfolding packet_sent
packet_sent-Quiet e t q i = ground arith

pub next_packet-none : (e : Engine) → Quiet e → e.transmit ≡ none → next_packet e ≡ none
unfolding next_packet
next_packet-none e q i = ground arith

pub drain-done : (n : ℕ) (e : Engine) → Quiet e → e.transmit ≡ none → drain n e ≡ ([], e)
unfolding drain
drain-done zero e q i = refl
drain-done (suc n) e q i = rw (next_packet-none e q i, drain)

pub code_top : (c : Command) → bit_or (code c) 0x80 ≡ code c + 128
code_top Command.ping = refl
code_top _ = refl

pub first_packet :
    (response : List ℕ) (t : TransmitState)
    → t.offset ≡ 0
    → transmit_packet response t
      ≡ init_frame t.channel t.command t.total (take 57 (take t.total response))
unfolding transmit_packet
first_packet response t o =
    rw (o, take-take 57 t.total response, min_comm 57 t.total, code_top t.command)

pub later_packet :
    (response : List ℕ) (t : TransmitState)
    → t.offset ≢ 0
    → transmit_packet response t
      ≡ cont_frame t.channel t.next_sequence (take 59 (drop t.offset (take t.total response)))
unfolding transmit_packet
later_packet response t o = rw (
  nonzero,
  part,
  drop-take t.offset t.total response,
  take-take 59 (t.total - t.offset) (drop t.offset response),
  min_comm 59 (t.total - t.offset),
)
  where
    nonzero : (t.offset == 0) ≡ false
    nonzero = ground arith

    part : t.offset + min (t.total - t.offset) 59 - t.offset ≡ min (t.total - t.offset) 59
    part = omega arith

abbrev pub next_state : TransmitState → TransmitState
next_state t = record t {
  offset = t.offset + min (t.total - t.offset) 59;
  next_sequence = t.next_sequence + 1;
}

pub advance_last :
    (e : Engine) (t : TransmitState)
    → 0 < t.offset
    → t.total ≤ t.offset + 59
    → advance_transmit e t ≡ record e { transmit = none; response = zeroize e.response }
unfolding advance_transmit
advance_last e t o h = ground arith

pub advance_more :
    (e : Engine) (t : TransmitState)
    → 0 < t.offset
    → 57 ≤ t.offset
    → t.offset + 59 < t.total
    → t.next_sequence < 255
    → advance_transmit e t ≡ record e { transmit = some (next_state t) }
unfolding advance_transmit
advance_more e t o p h s = ground arith

pub drain_step :
    (n : ℕ) (e : Engine) (p : List ℕ) (ps : List (List ℕ)) (e' : Engine)
    → next_packet e ≡ some p
    → drain n (packet_sent e) ≡ (ps, e')
    → drain (suc n) e ≡ (p ∷ ps, e')
unfolding drain
drain_step n e p ps e' h k = rw (h, drain, k)
