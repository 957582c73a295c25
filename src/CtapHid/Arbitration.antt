-- ===== src/CtapHid/Arbitration.antt =====
-- Who may interrupt a transaction of the engine of src/ctaphid.rs, and what the application is told.
use salpa.Base.{
  ℕ, ◌≡◌, ◌≢◌, ◌∙◌, refl, sym, ◌⊎◌, inl, inr, true, false, ◌&&◌, ◌||◌, not, none, some, List, arith,
  ltb, ◌==◌, if◌then◌else◌, if-cases, option-cases, bit_and, byte,
}
use mathlib.Core.Option.{some-injective}
use salpa.CtapHid.Protocol.{
  TransportError, invalid_channel, invalid_length, channel_busy, invalid_sequence, code, init,
  Event, nothing, cancelled,
}
use salpa.CtapHid.State.{
  Build, ReceiveState, AppRequest, Engine, active_channel, abort_transaction, queue_error,
  allocate_channel, is_allocated, cancel_application_request,
}
use salpa.CtapHid.Receive.{
  reject, clear_request, dispatch_init, dispatch, begin_message, start_message, continue_receive,
  ingest_continuation, channel_of, length_of, interrupt_active, ingest, ingest_with_interruption,
}
use salpa.CtapHid.Invariant.{IsValid}

-- Everything but the error queue.
pub record Undisturbed (e e' : Engine) : Type 0 where
  pub request : e'.request ≡ e.request
  pub response : e'.response ≡ e.response
  pub receive : e'.receive ≡ e.receive
  pub app_request : e'.app_request ≡ e.app_request
  pub transmit : e'.transmit ≡ e.transmit
  pub keepalive : e'.keepalive ≡ e.keepalive
  pub last_channel : e'.last_channel ≡ e.last_channel

queue_error-Undisturbed :
    (e : Engine) (c : ℕ) (x : TransportError) → Undisturbed e (queue_error e c x)
unfolding queue_error
queue_error-Undisturbed e c x = ground arith

abbrev Silent : Engine → Event × Engine → Type 0
Silent e r = (r.0 ≡ nothing) × Undisturbed e r.1

stays : (e : Engine) → Silent e (nothing, e)
stays e = ground arith

continue-other :
    (b : Build) (e : Engine) (r : ReceiveState) (channel : ℕ) (packet : List ℕ) (now_ms : ℕ)
    → channel ≢ r.channel
    → Silent e (continue_receive b e r channel packet now_ms)
unfolding continue_receive
continue-other b e r channel packet now_ms h = ground arith

interrupt-other :
    (b : Build) (e : Engine) (active channel number : ℕ) (packet : List ℕ) (now_ms : ℕ)
    → channel ≢ active
    → Silent e (interrupt_active b e active channel number packet now_ms)
unfolding interrupt_active
interrupt-other b e active channel number packet now_ms h =
    ground (arith, queue_error-Undisturbed e channel channel_busy)

active_channel-receive :
    (e : Engine) (r : ReceiveState) → e.receive ≡ some r → active_channel e ≡ some r.channel
unfolding active_channel
active_channel-receive e r i = ground arith

-- While a transaction runs, a packet on any other channel, whatever it holds, reports nothing to
-- the firmware and changes nothing but the error queue: not the message being received, not the
-- pending request and its bytes, not the response being sent.
pub ingest-other :
    (b : Build) (e : Engine) (active : ℕ) (packet : List ℕ) (now_ms : ℕ)
    → active_channel e ≡ some active
    → channel_of packet ≢ active
    → ((ingest b e packet now_ms).0 ≡ nothing) × Undisturbed e (ingest b e packet now_ms).1
unfolding ingest ingest_continuation
ingest-other b e active packet now_ms a h =
    if-cases (Silent e) (bit_and (byte packet 4) 0x80 == 0)
      (λ k.
        option-cases (Silent e) e.receive (λ i. stays e)
          (λ r i. continue-other b e r (channel_of packet) packet now_ms (on_receive r i)))
      (λ k.
        option-cases (Silent e) (active_channel e) (λ i. cc)
          (λ c i.
            interrupt-other b e c (channel_of packet) (bit_and (byte packet 4) 0x7f) packet now_ms
              (λ q. h (q ∙ some-injective c active (sym i ∙ a)))))
  where
    on_receive : (r : ReceiveState) → e.receive ≡ some r → channel_of packet ≢ r.channel
    on_receive r i q = h (q ∙ same)
      where
        same : r.channel ≡ active
        same = ground (arith, active_channel-receive e r i)

-- An INIT, wherever it ends, makes no request to the application.
NoRequest : Event × Engine → Type 0
NoRequest r = r.1.app_request ≡ none

reject-NoRequest :
    (e : Engine) (c : ℕ) (x : TransportError) → e.app_request ≡ none → NoRequest (reject e c x)
unfolding NoRequest queue_error
reject-NoRequest e c x h = ground arith

dispatch_init-NoRequest :
    (e : Engine) (channel total : ℕ)
    → e.app_request ≡ none
    → NoRequest (dispatch_init e channel total)
unfolding dispatch_init NoRequest allocate_channel
dispatch_init-NoRequest e channel total h =
    if-cases NoRequest (channel == 0) (λ k. refuse invalid_channel)
      (λ k.
        if-cases NoRequest (not (total == 8)) (λ l. refuse invalid_length)
          (λ l.
            if-cases NoRequest (channel == 0xffff_ffff) (λ m. h)
              (λ m.
                if-cases NoRequest (is_allocated e channel) (λ n. h)
                  (λ n. refuse invalid_channel))))
  where
    refuse : (x : TransportError) → NoRequest (reject e channel x)
    refuse x = reject-NoRequest e channel x h

queue_error-NoRequest :
    (e : Engine) (c : ℕ) (x : TransportError)
    → e.app_request ≡ none
    → NoRequest (nothing, queue_error e c x)
unfolding NoRequest queue_error
queue_error-NoRequest e c x h = ground arith

start_init-NoRequest :
    (b : Build) (e : Engine) (channel : ℕ) (packet : List ℕ) (now_ms : ℕ)
    → e.app_request ≡ none
    → NoRequest (start_message b e channel (code init) packet now_ms)
unfolding start_message begin_message dispatch NoRequest
start_init-NoRequest b e channel packet now_ms h =
    if-cases NoRequest (ltb b.capacity (length_of packet)) (λ k. too_long)
      (λ k.
        if-cases NoRequest (not (length_of packet == 8) || false) (λ l. too_long)
          (λ l.
            if-cases NoRequest (ltb 57 (length_of packet)) (λ m. h)
              (λ m. dispatch_init-NoRequest _ channel (length_of packet) h)))
  where
    too_long : NoRequest (nothing, queue_error (clear_request e) channel invalid_length)
    too_long = queue_error-NoRequest (clear_request e) channel invalid_length h

-- The pending request is gone, or it and its bytes are as they were.
abbrev GoneOrKept : Engine → AppRequest → Event × Engine → Type 0
GoneOrKept e q r =
    (r.1.app_request ≡ none) ⊎ ((r.1.app_request ≡ some q) × (r.1.request ≡ e.request))

abort-NoRequest :
    (e : Engine) (c : ℕ) (x : TransportError)
    → (queue_error (abort_transaction e) c x).app_request ≡ none
unfolding abort_transaction queue_error
abort-NoRequest e c x = ground arith

cancel-GoneOrKept :
    (e : Engine) (q : AppRequest) (channel : ℕ)
    → e.app_request ≡ some q
    → GoneOrKept e q (
      (if (cancel_application_request e).0 then cancelled channel else nothing),
      (cancel_application_request e).1,
    )
unfolding cancel_application_request
cancel-GoneOrKept e q channel h = ground arith

restart-NoRequest :
    (b : Build) (e : Engine) (channel number : ℕ) (packet : List ℕ) (now_ms : ℕ)
    → number ≡ code init
    → (start_message b (abort_transaction e) channel number packet now_ms).1.app_request ≡ none
unfolding abort_transaction NoRequest
restart-NoRequest b e channel number packet now_ms h =
    rw h (start_init-NoRequest b (abort_transaction e) channel packet now_ms refl)

interrupt-GoneOrKept :
    (b : Build) (e : Engine) (q : AppRequest) (active channel number : ℕ) (packet : List ℕ)
    (now_ms : ℕ)
    → e.app_request ≡ some q
    → GoneOrKept e q (interrupt_active b e active channel number packet now_ms)
unfolding interrupt_active
interrupt-GoneOrKept b e q active channel number packet now_ms h =
    if-cases P (number == 0x11 && not (channel == active)) (λ k. inr (h, refl))
      (λ k.
        if-cases P (not (channel == active)) (λ l. queued channel_busy)
          (λ l.
            if-cases P (number == 0x06) (λ m. inl (restart m))
              (λ m.
                if-cases P (number == 0x11)
                  (λ n.
                    if-cases P (not (length_of packet == 0)) (λ o. queued invalid_length)
                      (λ o. quiet))
                  (λ n. inl (abort-NoRequest e channel invalid_sequence)))))
  where
    P : Event × Engine → Type 0
    P = GoneOrKept e q

    queued : (x : TransportError) → P (nothing, queue_error e channel x)
    queued x = let u = queue_error-Undisturbed e channel x in inr (u.app_request ∙ h, u.request)

    quiet : P (
      if (cancel_application_request e).0 then cancelled channel else nothing,
      (cancel_application_request e).1,
    )
    quiet = cancel-GoneOrKept e q channel h

    restart :
        (number == 0x06) ≡ true
        → (start_message b (abort_transaction e) channel number packet now_ms).1.app_request ≡ none
    restart m = restart-NoRequest b e channel number packet now_ms (ground arith)

active_channel-busy :
    (e : Engine) (q : AppRequest) → e.app_request ≡ some q → active_channel e ≢ none
unfolding active_channel
active_channel-busy e q h i = ground arith

ingest-GoneOrKept :
    (b : Build) (e : Engine) (q : AppRequest) (packet : List ℕ) (now_ms : ℕ)
    → IsValid b e
    → e.app_request ≡ some q
    → GoneOrKept e q (ingest b e packet now_ms)
unfolding ingest ingest_continuation
ingest-GoneOrKept b e q packet now_ms v h =
    if-cases (GoneOrKept e q) (bit_and (byte packet 4) 0x80 == 0)
      (λ k.
        option-cases (GoneOrKept e q) e.receive (λ i. inr (h, refl)) (λ r i. absurd (ground arith)))
      (λ k.
        option-cases (GoneOrKept e q) (active_channel e) (λ i. absurd (busy i))
          (λ a i.
            interrupt-GoneOrKept b e q a (channel_of packet) (bit_and (byte packet 4) 0x7f) packet
              now_ms h))
  where
    busy : active_channel e ≢ none
    busy i = active_channel-busy e q h i

-- While the application works on a request, no packet takes that request away unnoticed or changes
-- it: after any packet either the firmware is told that the request was interrupted, or the same
-- request is still pending, with the bytes that it had.
pub interruption_noticed :
    (b : Build) (e : Engine) (q : AppRequest) (packet : List ℕ) (now_ms : ℕ)
    → IsValid b e
    → e.app_request ≡ some q
    → let ((event, interrupted), e') = ingest_with_interruption b e packet now_ms in
      (interrupted ≡ true) ⊎ ((e'.app_request ≡ some q) × (e'.request ≡ e.request))
unfolding ingest_with_interruption
interruption_noticed b e q packet now_ms v h =
    ground (arith, ingest-GoneOrKept b e q packet now_ms v h)
