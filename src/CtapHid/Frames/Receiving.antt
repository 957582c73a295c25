-- ===== src/CtapHid/Frames/Receiving.antt =====
-- The engine of src/ctaphid.rs hands the application exactly the message that arrives in frames.
use salpa.Base.{
  ℕ, zero, suc, ◌+◌, ◌-◌, ◌%◌, ◌≤◌, ◌<◌, min, ◌≡◌, ◌∙◌, refl, sym, ap, true, false, none, some,
  List, [], ◌∷◌, arith, length, take, drop, write_at, u32_mod, drop-add, drop-length, length-take,
  length-drop, length-write_at, take-write_at, take-length,
}
use native.Mathlib.Decide.{dec_lt}
use native.Mathlib.Nat.{zero-add}
use salpa.CtapHid.Protocol.{Command, Event, nothing}
use salpa.CtapHid.State.{
  Build, ReceiveState, Engine, zeroize, length-zeroize, is_special, is_allocated,
}
use salpa.CtapHid.Receive.{dispatch, request_payload}
use salpa.CtapHid.Invariant.{IsBuild, IsValid, Idle}
use salpa.CtapHid.Frames.{cont_frames, cont_frames-nil, cont_frames-step, frames}
use salpa.CtapHid.Frames.Start.{
  feed, OnlyLast, for_application, announcement, pending, dispatch-pending, ingest-init,
  first_request, begin_short, begin_long,
}
use salpa.CtapHid.Frames.Continuing.{
  Partial, ingest-cont, longer_kept, continue_last, continue_more,
}

-- One announcement, at the end, and the message in the application's hands.
pub record Delivered (b : Build) (channel : ℕ) (c : Command) (message : List ℕ)
    (out : List Event × Engine) : Type 0 where
  pub events : OnlyLast (announcement c channel (length message)) out.0
  pub payload : request_payload out.1 ≡ some message

quiet_then :
    (x : Event) {y : Event} (ys : List Event) → y ≡ nothing → OnlyLast x ys → OnlyLast x (y ∷ ys)
quiet_then x [] h k = absurd k
quiet_then x (z ∷ zs) h k = (h, k)

-- The state after a continuation frame that is not the last.
abbrev next_receive : ReceiveState → ℕ → ReceiveState
next_receive r now_ms = record r {
  received = r.received + min (r.total - r.received) 59;
  next_sequence = (r.next_sequence + 1) % 256;
  last_activity_ms = now_ms;
}

abbrev next_engine : Engine → ReceiveState → List ℕ → ℕ → Engine
next_engine e r message now_ms = record e {
  request = write_at r.received (take 59 (drop r.received message)) e.request;
  receive = some (next_receive r now_ms);
}

module _ {b : Build} {channel : ℕ} {c : Command} (message : List ℕ)
    (application : for_application b c ≡ true) (usable : is_special channel ≡ false)
    (in_range : channel < u32_mod) (fits : length message ≤ b.capacity) (w : IsBuild b) where
  dispatched :
      (e : Engine)
      → is_allocated e channel ≡ true
      → take (length message) e.request ≡ message
      → (dispatch b e channel c (length message) ≡ (
        announcement c channel (length message),
        record e { app_request = some (pending channel c (length message)) },
      ))
        × (request_payload (record e { app_request = some (pending channel c (length message)) })
            ≡ some message)
  unfolding request_payload
  dispatched e a k =
      (dispatch-pending b e channel c (length message) application usable a, ap some k)

  quietly :
      (evs : List Event) (e : Engine)
      → Delivered b channel c message (evs, e)
      → Delivered b channel c message (nothing ∷ evs, e)
  quietly evs e d = record { events = quiet_then _ evs refl d.events; payload = d.payload }

  rest-Delivered :
      (n k : ℕ) (clock : ℕ → ℕ) (e : Engine) (r : ReceiveState)
      → Partial b channel c message k e r
      → length message - r.received ≤ n
      → Delivered b channel c message
          (feed b e clock (cont_frames n channel k (drop r.received message)))
  unfolding feed is_allocated
  rest-Delivered zero k clock e r p h = absurd (omega (arith, p.unfinished))
  rest-Delivered (suc n) k clock e r p h =
      rw
        (
          cont_frames-step n channel k (drop r.received message)
              (omega (arith, length-drop {0} r.received message, p.unfinished)),
          ingest-cont b e r channel k (clock 0) (take 59 (drop r.received message)) p.current
              in_range small,
        )
        (elim (dec_lt (r.received + 59) (length message)) [
          | yes m ↦
              rw (continue_more b channel c message k e r (clock 0) p fits small m, shift m)
                (quietly _ _ (
                  rest-Delivered n (k + 1) (λ i. clock (suc i)) (next_engine e r message (clock 0))
                    (next_receive r (clock 0)) (next m) (omega (arith, p.whole))))
          | no m ↦
              rw
                (
                  continue_last b channel c message k e r (clock 0) p fits small (whole m),
                  (dispatched (ended m) p.allocated (kept m)).0,
                  drop-length 59 (drop r.received message)
                      (omega (arith, length-drop {0} r.received message)),
                  cont_frames-nil n channel (k + 1),
                )
                (record { events = refl; payload = (dispatched (ended m) p.allocated (kept m)).1 })
        ])
    where
      small : k < 128
      small = omega (arith, p.so_far, p.unfinished, fits, w.fits_sequence)

      whole :
          ¬ (r.received + 59 < length message)
          → r.received + min (r.total - r.received) 59 ≡ length message
      whole m = omega (arith, p.whole, p.unfinished)

      ended : ¬ (r.received + 59 < length message) → Engine
      ended m = record e {
        request = write_at r.received (take 59 (drop r.received message)) e.request;
        receive = none;
      }

      kept :
          (m : ¬ (r.received + 59 < length message))
          → take (length message) (ended m).request ≡ message
      kept m =
          (rw (whole m) at (longer_kept b channel c message k e r (clock 0) p fits small))
          ∙ take-length message (length message) (omega arith)

      shift :
          r.received + 59 < length message
          → drop 59 (drop r.received message) ≡ drop (next_receive r (clock 0)).received message
      shift m =
          let q : r.received + min (r.total - r.received) 59 ≡ r.received + 59 =
            omega (arith, p.whole) in
          rw q (sym (drop-add r.received 59 message))

      next :
          r.received + 59 < length message
          → Partial b channel c message
              (k + 1)
              (next_engine e r message (clock 0))
              (next_receive r (clock 0))
      next m = record {
        current = refl;
        on = p.on;
        kind = p.kind;
        whole = p.whole;
        so_far = omega (arith, p.whole, p.so_far);
        sequence = omega (arith, p.sequence);
        unfinished = omega (arith, p.whole);
        full = length-write_at r.received (take 59 (drop r.received message)) e.request ∙ p.full;
        kept = longer_kept b channel c message k e r (clock 0) p fits small;
        allocated = p.allocated;
      }

  -- A message in frames, on an allocated channel of an idle engine: every packet but the last is
  -- taken in silence, the last one announces the message, and the application then reads exactly
  -- the bytes that were sent.
  pub feed-frames :
      (e : Engine) (clock : ℕ → ℕ)
      → IsValid b e
      → Idle e
      → is_allocated e channel ≡ true
      → Delivered b channel c message (feed b e clock (frames channel c message))
  unfolding feed frames is_allocated
  feed-frames e clock v i a =
      rw
        (ingest-init b e channel c (length message) (clock 0) (take 57 message) i in_range
          (omega (arith, fits, w.fits_sequence)))
        (elim (dec_lt 57 (length message)) [
          | yes m ↦ rw (begin_long b e channel c message (clock 0) application fits m) (
              quietly _ _ (
                rest-Delivered (length message) 0 (λ n. clock (suc n)) started first (begun m)
                  (omega arith)))
          | no m ↦
              rw
                (
                  begin_short b e channel c message (clock 0) application fits (omega arith),
                  (dispatched stored a (kept m)).0,
                  drop-length 57 message (omega arith),
                  cont_frames-nil (length message) channel 0,
                )
                (record { events = refl; payload = (dispatched stored a (kept m)).1 })
        ])
    where
      first : ReceiveState
      first = record {
        channel = channel;
        command = c;
        total = length message;
        received = 57;
        next_sequence = 0;
        last_activity_ms = clock 0;
      }

      stored : Engine
      stored = record e { request = first_request e message }

      started : Engine
      started = record stored { receive = some first }

      room : length (take 57 message) ≤ length (zeroize e.request)
      room = omega (arith, length-zeroize e.request, v.request_full, length-take {0} 57 message)

      prefix : take (length (take 57 message)) (first_request e message) ≡ take 57 message
      prefix =
          rw zero-add at
            (take-write_at 0 (take 57 message) (zeroize e.request) (omega (arith, room)))

      kept : ¬ (57 < length message) → take (length message) (first_request e message) ≡ message
      kept m =
          let q : length (take 57 message) ≡ length message =
            omega (arith, length-take {0} 57 message) in
          (rw q at prefix) ∙ take-length message 57 (omega arith)

      begun : 57 < length message → Partial b channel c message 0 started first
      begun m = record {
        current = refl;
        on = refl;
        kind = refl;
        whole = refl;
        so_far = refl;
        sequence = refl;
        unfinished = m;
        full =
            length-write_at 0 (take 57 message) (zeroize e.request)
            ∙ length-zeroize e.request
            ∙ v.request_full;
        kept =
            let q : length (take 57 message) ≡ 57 = omega (arith, length-take {0} 57 message) in
            rw q at prefix;
        allocated = a;
      }
