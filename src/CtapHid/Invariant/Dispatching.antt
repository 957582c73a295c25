-- ===== src/CtapHid/Invariant/Dispatching.antt =====
-- The invariant through what src/ctaphid.rs does with a complete message.
use salpa.Base.{
  ℕ, ◌≤◌, ◌<◌, ◌≡◌, true, false, ◌||◌, not, arith, length, ◌==◌, if-cases, length-replicate,
  length-write_at, length-set, u32_mod, take, write_at,
}
use salpa.CtapHid.Protocol.{
  Command, ping, init, cbor, cancel, update, is_init, TransportError, invalid_command,
  invalid_length, invalid_channel, Event, broadcast_channel, reserved_channel,
}
use salpa.CtapHid.State.{
  Build, Engine, zeroize, is_special, is_allocated, next_channel, allocate_channel,
}
use salpa.CtapHid.Receive.{
  clear_request, reject, init_response, answer_init, dispatch_init, dispatch_command, dispatch,
}
use salpa.CtapHid.Invariant.{
  IsBuild, IsValid, Idle, buffers-IsValid, queue_error-IsValid, start_transmit-IsValid,
}

-- The loop of `allocate_channel` ends by its own test within three rounds, at a usable number.
pub next_channel_usable :
    (last : ℕ)
    → last < u32_mod
    → (is_special (next_channel 3 last) ≡ false) × (next_channel 3 last < u32_mod)
unfolding next_channel
next_channel_usable last h = ground arith

pub clear_request-IsValid : {b : Build} (e : Engine) → IsValid b e → IsValid b (clear_request e)
clear_request-IsValid e v = grind (arith, length-replicate)

pub reject-IsValid :
    {b : Build} (e : Engine) (c : ℕ) (x : TransportError) → IsValid b e → IsValid b (reject e c x).1
reject-IsValid e c x v = queue_error-IsValid (clear_request e) c x (clear_request-IsValid e v)

pub length-init_response :
    (e : Engine) (assigned : ℕ) → length (init_response e assigned) ≡ length e.response
unfolding init_response
length-init_response e assigned = simp (length-set, length-write_at, length-replicate)

pub answer_init-IsValid :
    {b : Build} (channel assigned : ℕ) (e : Engine)
    → IsBuild b
    → IsValid b e
    → Idle e
    → IsValid b (answer_init channel (assigned, e)).1
answer_init-IsValid {b} channel assigned e w v i =
    start_transmit-IsValid
      (record e { response = init_response e assigned; request = zeroize e.request }) channel init
      17
      (buffers-IsValid e _ _ v (length-replicate (length e.request) 0)
        (length-init_response e assigned))
      i.0 i.1 w.fits_init

pub allocate_channel-IsValid :
    {b : Build} (e : Engine)
    → IsValid b e
    → Idle e
    → IsValid b (allocate_channel e).1 × Idle (allocate_channel e).1
unfolding allocate_channel
allocate_channel-IsValid {b} e v i = (
  record {
    request_full = v.request_full;
    response_full = v.response_full;
    slots = v.slots;
    packed = v.packed;
    receiving = v.receiving;
    serving = rw i.1 tt;
    sending = v.sending;
    alone = v.alone;
    last_in_range = (next_channel_usable e.last_channel v.last_in_range).1;
  },
  i,
)

-- A result whose engine is valid.
abbrev pub Valid : Build → Event × Engine → Type 0
Valid b r = IsValid b r.1

pub dispatch_init-IsValid :
    {b : Build} (e : Engine) (channel total : ℕ)
    → IsBuild b
    → IsValid b e
    → Idle e
    → IsValid b (dispatch_init e channel total).1
unfolding dispatch_init
dispatch_init-IsValid {b} e channel total w v i =
    if-cases P (channel == reserved_channel) (λ h. refuse invalid_channel)
      (λ h.
        if-cases P (not (total == 8)) (λ h. refuse invalid_length)
          (λ h.
            if-cases P (channel == broadcast_channel)
              (λ h.
                let (v', i') = allocate_channel-IsValid e v i in
                answer_init-IsValid channel (allocate_channel e).0 (allocate_channel e).1 w v' i')
              (λ h.
                if-cases P (is_allocated e channel)
                  (λ h. answer_init-IsValid channel channel e w v i)
                  (λ h. refuse invalid_channel))))
  where
    P : Event × Engine → Type 0
    P = Valid b

    refuse : (x : TransportError) → P (reject e channel x)
    refuse x = reject-IsValid e channel x v

pub dispatch_command-IsValid :
    {b : Build} (e : Engine) (channel : ℕ) (command : Command) (total : ℕ)
    → IsValid b e
    → Idle e
    → total ≤ b.capacity
    → is_special channel ≡ false
    → is_allocated e channel ≡ true
    → channel < u32_mod
    → IsValid b (dispatch_command b e channel command total).1
unfolding dispatch_command is_allocated
dispatch_command-IsValid e channel ping total v i t s a c =
    start_transmit-IsValid
      (record e {
        response = write_at 0 (take total e.request) (zeroize e.response);
        request = zeroize e.request;
      })
      channel ping total
      (buffers-IsValid e _ _ v (length-replicate (length e.request) 0)
        (simp (length-write_at, length-replicate)))
      i.0 i.1 t
dispatch_command-IsValid e channel cbor total v i t s a c = ground arith
dispatch_command-IsValid e channel update total v i t s a c =
    ground (arith, reject-IsValid e channel invalid_command v)
dispatch_command-IsValid e channel cancel total v i t s a c = clear_request-IsValid e v
dispatch_command-IsValid e channel _ total v i t s a c = reject-IsValid e channel invalid_command v

pub dispatch-IsValid :
    {b : Build} (e : Engine) (channel : ℕ) (command : Command) (total : ℕ)
    → IsBuild b
    → IsValid b e
    → Idle e
    → total ≤ b.capacity
    → channel < u32_mod
    → IsValid b (dispatch b e channel command total).1
unfolding dispatch
dispatch-IsValid {b} e channel command total w v i t c =
    if-cases (Valid b) (is_init command) (λ h. dispatch_init-IsValid e channel total w v i)
      (λ h.
        if-cases (Valid b) (is_special channel || not (is_allocated e channel))
          (λ k. reject-IsValid e channel invalid_channel v)
          (λ k.
            dispatch_command-IsValid e channel command total v i t (ground arith) (ground arith) c))
