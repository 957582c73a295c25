-- ===== src/CtapHid/Frames/Start.antt =====
-- The first frame of a message: what `ingest` of src/ctaphid.rs makes of it.
use salpa.Base.{
  ℕ, suc, ◌+◌, ◌-◌, ◌*◌, ◌/◌, ◌%◌, ◌≤◌, ◌<◌, min, ◌≡◌, refl, Bool, true, false, none, some, List,
  [], ◌∷◌, arith, length, ltb, take, slice, write_at, replicate, bit_and, u32_mod, length-take,
  length-replicate, take-write_at, u32_be_round,
}
use native.Mathlib.Nat.{zero-add}
use salpa.CtapHid.Protocol.{
  Command, cbor, update, code, is_init, is_cancel, Event, nothing, cbor_request, update_request,
}
use salpa.CtapHid.State.{
  Build, AppRequest, Engine, zeroize, is_special, is_allocated, active_channel,
}
use salpa.CtapHid.Receive.{clear_request, dispatch, length_of, begin_message, start_message, ingest}
use salpa.CtapHid.Invariant.{Idle}
use salpa.CtapHid.Frames.{pad, init_frame}

-- Ingest one packet after another, the n-th at time `clock n`; the events in order.
unfoldable pub feed : Build → Engine → (ℕ → ℕ) → List (List ℕ) → List Event × Engine
feed b e clock [] = ([], e)
feed b e clock (p ∷ ps) =
    let (event, e') = ingest b e p (clock 0) in
    let (events, e'') = feed b e' (λ n. clock (suc n)) ps in (event ∷ events, e'')

-- No event but the last.
abbrev pub OnlyLast : Event → List Event → Type 0
OnlyLast x [] = ⊥
OnlyLast x (y ∷ []) = y ≡ x
OnlyLast x (y ∷ z ∷ zs) = (y ≡ nothing) × OnlyLast x (z ∷ zs)

-- The commands whose messages go to the application, and the event that announces one.
abbrev pub for_application : Build → Command → Bool
for_application b cbor = true
for_application b update = b.signed_update
for_application b _ = false

abbrev pub announcement : Command → ℕ → ℕ → Event
announcement update = update_request
announcement _ = cbor_request

abbrev pub pending : ℕ → Command → ℕ → AppRequest
pending channel command total = record { channel = channel; command = command; total = total }

pub dispatch-pending :
    (b : Build) (e : Engine) (channel : ℕ) (c : Command) (total : ℕ)
    → for_application b c ≡ true
    → is_special channel ≡ false
    → is_allocated e channel ≡ true
    → dispatch b e channel c total
      ≡ (announcement c channel total, record e { app_request = some (pending channel c total) })
unfolding dispatch
dispatch-pending b e channel cbor total a s k = rw (s, k)
dispatch-pending b e channel update total a s k = rw (s, k, a)
dispatch-pending b e channel _ total a s k = cc

code-top : (c : Command) → bit_and (code c + 128) 0x80 ≡ 128
code-top Command.ping = refl
code-top _ = refl

code-low : (c : Command) → bit_and (code c + 128) 0x7f ≡ code c
code-low Command.ping = refl
code-low _ = refl

app_not_special :
    (b : Build) (c : Command)
    → for_application b c ≡ true
    → (is_init c ≡ false) × (is_cancel c ≡ false)
app_not_special b cbor h = (refl, refl)
app_not_special b _ h = ground arith

active_channel-none : (e : Engine) → Idle e → active_channel e ≡ none
unfolding active_channel
active_channel-none e i = ground arith

-- A padded part reads back whole.
take-pad : (n : ℕ) (xs : List ℕ) → length xs ≤ n → take (length xs) (pad n xs) ≡ xs
take-pad n xs h = rw zero-add at (
    take-write_at 0 xs (replicate n 0) (omega (arith, length-replicate {0} n (let z : ℕ = 0 in z))))

start_message-code :
    (b : Build) (e : Engine) (channel : ℕ) (c : Command) (packet : List ℕ) (now_ms : ℕ)
    → start_message b e channel (code c) packet now_ms
      ≡ begin_message b (clear_request e) channel c (length_of packet) packet now_ms
unfolding start_message
start_message-code b e channel Command.ping packet now_ms = refl
start_message-code b e channel _ packet now_ms = refl

pub ingest-init :
    (b : Build) (e : Engine) (channel : ℕ) (c : Command) (total now_ms : ℕ) (part : List ℕ)
    → Idle e
    → channel < u32_mod
    → total < 65536
    → ingest b e (init_frame channel c total part) now_ms
      ≡ begin_message b (clear_request e) channel c total (init_frame channel c total part) now_ms
unfolding ingest
ingest-init b e channel c total now_ms part i h t = rw (
  code-top c,
  active_channel-none e i,
  code-low c,
  start_message-code,
  u32_be_round channel h,
  size,
)
  where
    size : total / 256 % 256 * 256 + total % 256 ≡ total
    size = omega arith

-- The payload of a frame.
pub frame_part :
    (n off : ℕ) (rest : List ℕ) (count : ℕ)
    → count ≡ min n (length rest)
    → take (off + count - off) (pad n (take n rest)) ≡ take n rest
frame_part n off rest count h =
    rw size (take-pad n (take n rest) (omega (arith, length-take {0} n rest)))
  where
    size : off + count - off ≡ length (take n rest)
    size = omega (arith, length-take {0} n rest)

abbrev pub first_request : Engine → List ℕ → List ℕ
first_request e message = write_at 0 (take 57 message) (zeroize e.request)

module _ (b : Build) (e : Engine) (channel : ℕ) (c : Command) (message : List ℕ) (now_ms : ℕ)
    (application : for_application b c ≡ true) (fits : length message ≤ b.capacity) where
  abbrev pub first_frame : List ℕ
  first_frame = init_frame channel c (length message) (take 57 message)

  first_part :
      (count : ℕ)
      → count ≡ min (length message) 57
      → slice first_frame 7 (7 + count) ≡ take 57 message
  first_part count h = frame_part 57 7 message count (omega arith)

  pub begin_short :
      length message ≤ 57
      → begin_message b (clear_request e) channel c (length message) first_frame now_ms
        ≡ dispatch b (record e { request = first_request e message }) channel c (length message)
  unfolding begin_message
  begin_short h =
      let (i, k) = app_not_special b c application in
      let fits' : ltb b.capacity (length message) ≡ false = ground arith in
      let short : ltb 57 (length message) ≡ false = ground arith in
      rw (fits', i, k, short, first_part (min (length message) 57) refl)

  pub begin_long :
      57 < length message
      → begin_message b (clear_request e) channel c (length message) first_frame now_ms ≡ (
        nothing,
        record e {
          request = first_request e message;
          receive = some (record {
            channel = channel;
            command = c;
            total = length message;
            received = 57;
            next_sequence = 0;
            last_activity_ms = now_ms;
          });
        },
      )
  unfolding begin_message
  begin_long h =
      let (i, k) = app_not_special b c application in
      let fits' : ltb b.capacity (length message) ≡ false = ground arith in
      let long : ltb 57 (length message) ≡ true = ground arith in
      rw (fits', i, k, long, first_part (min (length message) 57) refl)
