-- ===== src/UsbRuntime/Polling.antt =====
-- What polling of src/platform/usb_runtime.rs does to a request that the application works on.
use salpa.Base.{
  ℕ, ◌≡◌, ◌⊎◌, inl, inr, refl, Bool, true, false, not, Option, none, some, List, AllBytes, length,
  if-cases, option-cases, is_some, ltb, u32_wrapping_sub, ◌∙◌, ◌==◌,
}
use salpa.CtapHid.Protocol.{Event, user_presence_needed, packet_size}
use salpa.CtapHid.State.{Build, Engine, AppRequest, ReceiveState, TransmitState}
use salpa.CtapHid.Receive.{ingest_report, expire}
use salpa.CtapHid.Transmit.{queue_keepalive, next_packet, packet_sent, first_error}
use salpa.CtapHid.Invariant.{IsBuild, IsValid, Alone, transport_error-IsValid}
use salpa.CtapHid.Invariant.Receiving.{ingest_report-IsValid, expire-IsValid}
use salpa.CtapHid.Invariant.Sending.{queue_keepalive-IsValid, packet_sent-IsValid}
use salpa.CtapHid.Arbitration.{interruption_noticed}
use salpa.UsbRuntime.Runtime.{
  Usb, Received, report, no_report, broken, Sending, accepted, would_block, refused, Runtime,
  transport_error, take_report, handle_received, handle_sent, receive_report, send_packet,
  send_pending, poll_usb, poll_at, keep_alive, poll_wait, cancel_presence, keepalive_interval_ms,
}

-- The request is still there, with its bytes.
pub record Kept (q : AppRequest) (bytes : List ℕ) (e : Engine) : Type 0 where
  pub pending : e.app_request ≡ some q
  pub whole : e.request ≡ bytes

expire-Kept :
    (b : Build) (q : AppRequest) (bytes : List ℕ) (e : Engine) (now_ms : ℕ)
    → IsValid b e
    → Kept q bytes e
    → Kept q bytes (expire e now_ms)
unfolding expire
expire-Kept b q bytes e now_ms v k =
    option-cases (Kept q bytes) e.receive (λ _. k)
      (λ r i. absurd (no_receive e.receive e.app_request e.transmit v.alone i k.pending))
  where
    no_receive :
        (x : Option ReceiveState) (y : Option AppRequest) (z : Option TransmitState)
        {r : ReceiveState} {q : AppRequest}
        → Alone x y z
        → x ≡ some r
        → y ≡ some q
        → ⊥
    no_receive none y z a i j = cc
    no_receive (some r) none z a i j = cc
    no_receive (some r) (some q) z a i j = a

packet_sent-Kept :
    (b : Build) (q : AppRequest) (bytes : List ℕ) (e : Engine)
    → IsValid b e
    → Kept q bytes e
    → Kept q bytes (packet_sent e)
unfolding packet_sent
packet_sent-Kept b q bytes e v k =
    if-cases (Kept q bytes) (is_some (first_error e.errors))
      (λ _. record { pending = k.pending; whole = k.whole })
      (λ _.
        if-cases (Kept q bytes) (is_some e.keepalive)
          (λ _. record { pending = k.pending; whole = k.whole })
          (λ _.
            option-cases (Kept q bytes) e.transmit (λ _. k)
              (λ t i. absurd (no_transmit e.receive e.app_request e.transmit v.alone i k.pending))))
  where
    no_transmit :
        (x : Option ReceiveState) (y : Option AppRequest) (z : Option TransmitState)
        {t : TransmitState} {q : AppRequest}
        → Alone x y z
        → z ≡ some t
        → y ≡ some q
        → ⊥
    no_transmit x y none a i j = cc
    no_transmit x none (some t) a i j = cc
    no_transmit none (some q) (some t) a i j = a
    no_transmit (some r) (some q) (some t) a i j = a

queue_keepalive-Kept :
    (q : AppRequest) (bytes : List ℕ) (e : Engine)
    → Kept q bytes e
    → Kept q bytes (queue_keepalive e user_presence_needed).1
unfolding queue_keepalive
queue_keepalive-Kept q bytes e k =
    option-cases (λ (r : Bool × Engine). Kept q bytes r.1) e.app_request (λ _. k)
      (λ a _. record { pending = k.pending; whole = k.whole })

module _ {S : Type 0} (build : Build) (usb : Usb S) (w : IsBuild build)
    (bytes_only : (s : S) (r : List ℕ) → (usb.receive s).1 ≡ report r → AllBytes r) (q : AppRequest)
    (bytes : List ℕ) where
  -- The engine is valid, and the request is kept unless the wait is cancelled.
  pub record Guarded (r : Runtime S) : Type 0 where
    pub valid : IsValid build r.ctaphid
    pub guards : (r.presence_cancelled ≡ true) ⊎ Kept q bytes r.ctaphid

  moved : (r : Runtime S) (s : S) → Guarded r → Guarded (record r { usb = s })
  moved r s g = record { valid = g.valid; guards = g.guards }

  -- The same after a change of the engine that keeps requests.
  served :
      (r : Runtime S) (e : Engine)
      → (IsValid build r.ctaphid → IsValid build e)
      → (IsValid build r.ctaphid → Kept q bytes r.ctaphid → Kept q bytes e)
      → Guarded r
      → Guarded (record r { ctaphid = e })
  served r e valid keeps g = record {
    valid = valid g.valid;
    guards = elim g.guards [ inl c ↦ inl c | inr k ↦ inr (keeps g.valid k) ];
  }

  transport_error-Guarded : (r : Runtime S) → Guarded r → Guarded (transport_error build usb r)
  unfolding transport_error cancel_presence
  transport_error-Guarded r g = record {
    valid = (transport_error-IsValid r.ctaphid g.valid).0;
    guards = inl refl;
  }

  reported :
      (e : Engine) (r : List ℕ) (now_ms : ℕ)
      → IsValid build e
      → Kept q bytes e
      → let (told, e') = ingest_report build e r now_ms in (told.1 ≡ true) ⊎ Kept q bytes e'
  unfolding ingest_report
  reported e r now_ms v k =
      if-cases (λ (x : (Event × Bool) × Engine). (x.0.1 ≡ true) ⊎ Kept q bytes x.1)
        (length r == packet_size)
        (λ _. elim (interruption_noticed build e q r now_ms v k.pending) [
          | inl told ↦ inl told
          | inr kept ↦ inr (record { pending = kept.0; whole = kept.1 ∙ k.whole })
        ])
        (λ _. inl refl)

  take_report-Guarded :
      (r : Runtime S) (x : List ℕ) (now_ms : ℕ)
      → AllBytes x
      → Guarded r
      → Guarded (take_report build usb r x now_ms).1
  unfolding take_report cancel_presence
  take_report-Guarded r x now_ms all g =
      let (told, e) = ingest_report build r.ctaphid x now_ms in
      let v = ingest_report-IsValid r.ctaphid x now_ms w g.valid all in
      if-cases Guarded told.1 (λ _. record { valid = v; guards = inl refl })
        (λ quiet. record {
          valid = v;
          guards = elim g.guards [
            | inl c ↦ inl c
            | inr k ↦ elim (reported r.ctaphid x now_ms g.valid k) [
              | inl t ↦ absurd (both t quiet)
              | inr k ↦ inr k
            ]
          ];
        })
    where
      both : {b : Bool} → b ≡ true → b ≡ false → ⊥
      both t f = cc

  received :
      (got : Received) (r : Runtime S) (now_ms : ℕ)
      → ((x : List ℕ) → got ≡ report x → AllBytes x)
      → Guarded r
      → Guarded (handle_received build usb got r now_ms).1
  unfolding handle_received
  received (report x) r now_ms all g = take_report-Guarded r x now_ms (all x refl) g
  received no_report r now_ms all g = g
  received broken r now_ms all g = transport_error-Guarded r g

  poll_usb-Guarded :
      (r : Runtime S) (now_ms : ℕ) → Guarded r → Guarded (poll_usb build usb r now_ms).1
  unfolding poll_usb receive_report
  poll_usb-Guarded r now_ms g =
      let (s, ready) = usb.poll r.usb in
      if-cases (λ (x : Event × Runtime S). Guarded x.1) ready
        (λ _.
          received (usb.receive s).1 (record r { usb = (usb.receive s).0 }) now_ms (bytes_only s)
            (moved r (usb.receive s).0 g))
        (λ _. moved r s g)

  sent : (result : Sending) (r : Runtime S) → Guarded r → Guarded (handle_sent build usb result r).1
  unfolding handle_sent
  sent accepted r g =
      served r (packet_sent r.ctaphid) (packet_sent-IsValid r.ctaphid w)
        (packet_sent-Kept build q bytes r.ctaphid) g
  sent would_block r g = g
  sent refused r g = transport_error-Guarded r g

  send_pending-Guarded : (r : Runtime S) → Guarded r → Guarded (send_pending build usb r).1
  unfolding send_pending send_packet
  send_pending-Guarded r g =
      option-cases (λ (x : Bool × Runtime S). Guarded x.1) (next_packet r.ctaphid) (λ _. g)
        (λ packet _.
          let (s, result) = usb.send r.usb packet in
          sent result (record r { usb = s }) (moved r s g))

  pub poll_at-Guarded :
      (r : Runtime S) (now_ms : ℕ) → Guarded r → Guarded (poll_at build usb r now_ms).1
  unfolding poll_at
  poll_at-Guarded r now_ms g =
      let p = (poll_usb build usb r now_ms).1 in
      send_pending-Guarded (record p { ctaphid = expire p.ctaphid now_ms })
        (served p (expire p.ctaphid now_ms) (expire-IsValid p.ctaphid now_ms)
          (expire-Kept build q bytes p.ctaphid now_ms) (poll_usb-Guarded r now_ms g))

  keep_alive-Guarded :
      (r : Runtime S) (now_ms : ℕ) → Guarded r → Guarded (keep_alive build usb r now_ms)
  unfolding keep_alive
  keep_alive-Guarded r now_ms g =
      if-cases Guarded
        (not (ltb (u32_wrapping_sub now_ms r.last_keepalive_ms) keepalive_interval_ms))
        (λ _.
          let e = (queue_keepalive r.ctaphid user_presence_needed).1 in
          let h =
            served r e (queue_keepalive-IsValid r.ctaphid user_presence_needed)
              (λ v k. queue_keepalive-Kept q bytes r.ctaphid k) g in
          record { valid = h.valid; guards = h.guards })
        (λ _. g)

  pub poll_wait-Guarded : (r : Runtime S) → Guarded r → Guarded (poll_wait build usb r)
  unfolding poll_wait
  poll_wait-Guarded r g =
      let (s, now_ms) = usb.now_ms r.usb in
      poll_at-Guarded (keep_alive build usb (record r { usb = s }) now_ms) now_ms
        (keep_alive-Guarded (record r { usb = s }) now_ms (moved r s g))
