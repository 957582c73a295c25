-- ===== src/CtapHid/Invariant.antt =====
-- The invariant of the engine of src/ctaphid.rs: full buffers, at most one transaction, counters in
-- step with the sequence numbers, and an error queue without gaps or repeated channels.
pub mod Dispatching
pub mod Receiving
pub mod Sending
use salpa.Base.{
  ℕ, zero, suc, ◌+◌, ◌-◌, ◌*◌, ◌≤◌, ◌<◌, ◌≡◌, ◌∙◌, refl, ◌⊎◌, inl, inr, Bool, true, false, Option,
  none, some, List, [], ◌∷◌, ◌++◌, map, arith, length, ◌==◌, ◌||◌, if◌then◌else◌, if-cases,
  length-append, length-replicate, length-write_at, length-set, u32_mod,
}
use salpa.CtapHid.Protocol.{
  Command, TransportError, KeepaliveStatus, DeviceVersion, max_ctaphid_message_size,
  reserved_channel, broadcast_channel, error_capacity,
}
use salpa.CtapHid.State.{
  Build, ReceiveState, AppRequest, TransmitState, PendingError, Engine, has_error, fill_slot,
  queue_error, new, abort_transaction, transport_error, start_transmit, cancel_application_request,
  zeroize,
}

-- The assertions of `new` on the buffer size.
pub record IsBuild (b : Build) : Type 0 where
  pub fits_init : 17 ≤ b.capacity
  pub fits_sequence : b.capacity ≤ max_ctaphid_message_size

abbrev pub AllNone : List (Option PendingError) → Type 0
AllNone [] = Unit
AllNone (none ∷ xs) = AllNone xs
AllNone (some x ∷ xs) = ⊥

-- The errors stand before the empty slots, one for each channel at most.
abbrev pub Packed : List (Option PendingError) → Type 0
Packed [] = Unit
Packed (none ∷ xs) = AllNone xs
Packed (some x ∷ xs) = (has_error xs x.channel ≡ false) × Packed xs

abbrev pub ReceiveOk : Build → Option ReceiveState → Type 0
ReceiveOk b none = Unit
ReceiveOk b (some r) =
    (r.received ≡ 57 + 59 * r.next_sequence) × (r.received < r.total) × (r.total ≤ b.capacity)

abbrev pub AppOk : Build → ℕ → Option AppRequest → Type 0
AppOk b last none = Unit
AppOk b last (some q) =
    (q.total ≤ b.capacity) × (0 < q.channel) × (q.channel ≤ last) × (q.channel < broadcast_channel)

abbrev pub TransmitOk : Build → Option TransmitState → Type 0
TransmitOk b none = Unit
TransmitOk b (some t) =
    (t.total ≤ b.capacity)
    × (((t.offset ≡ 0) × (t.next_sequence ≡ 0))
        ⊎ ((t.offset ≡ 57 + 59 * t.next_sequence) × (t.offset < t.total)))

abbrev pub Alone : Option ReceiveState → Option AppRequest → Option TransmitState → Type 0
Alone none none t = Unit
Alone none (some q) none = Unit
Alone none (some q) (some t) = ⊥
Alone (some r) none none = Unit
Alone (some r) none (some t) = ⊥
Alone (some r) (some q) t = ⊥

pub record IsValid (b : Build) (e : Engine) : Type 0 where
  pub request_full : length e.request ≡ b.capacity
  pub response_full : length e.response ≡ b.capacity
  pub slots : length e.errors ≡ error_capacity
  pub packed : Packed e.errors
  pub receiving : ReceiveOk b e.receive
  pub serving : AppOk b e.last_channel e.app_request
  pub sending : TransmitOk b e.transmit
  pub alone : Alone e.receive e.app_request e.transmit
  pub last_in_range : e.last_channel < u32_mod

length-fill_slot :
    (xs : List (Option PendingError)) (x : PendingError) → length (fill_slot xs x) ≡ length xs
unfolding fill_slot
length-fill_slot [] x = refl
length-fill_slot (none ∷ xs) x = refl
length-fill_slot (some y ∷ xs) x = omega (arith, length-fill_slot xs x)

has_error-AllNone : (xs : List (Option PendingError)) (c : ℕ) → AllNone xs → has_error xs c ≡ false
unfolding has_error
has_error-AllNone [] c h = refl
has_error-AllNone (none ∷ xs) c h = has_error-AllNone xs c h
has_error-AllNone (some x ∷ xs) c h = absurd h

has_error-fill_slot :
    (xs : List (Option PendingError)) (x : PendingError) (c : ℕ)
    → has_error xs c ≡ false
    → (x.channel == c) ≡ false
    → has_error (fill_slot xs x) c ≡ false
unfolding has_error fill_slot
has_error-fill_slot [] x c h k = refl
has_error-fill_slot (none ∷ xs) x c h k = ground arith
has_error-fill_slot (some y ∷ xs) x c h k = ground (arith, has_error-fill_slot xs x c)

AllNone-Packed : (xs : List (Option PendingError)) → AllNone xs → Packed xs
AllNone-Packed [] h = tt
AllNone-Packed (none ∷ xs) h = h
AllNone-Packed (some x ∷ xs) h = absurd h

Packed-fill_slot :
    (xs : List (Option PendingError)) (x : PendingError)
    → Packed xs
    → has_error xs x.channel ≡ false
    → Packed (fill_slot xs x)
unfolding has_error fill_slot
Packed-fill_slot [] x p h = tt
Packed-fill_slot (none ∷ xs) x p h = (has_error-AllNone xs x.channel p, AllNone-Packed xs p)
Packed-fill_slot (some y ∷ xs) x p h = (
  has_error-fill_slot xs x y.channel p.0 (ground arith),
  Packed-fill_slot xs x p.1 (ground arith),
)

pub queue_error-IsValid :
    {b : Build} (e : Engine) (c : ℕ) (x : TransportError)
    → IsValid b e
    → IsValid b (queue_error e c x)
unfolding queue_error
queue_error-IsValid {b} e c x v =
    if-cases (IsValid b) (has_error e.errors c) (λ h. v)
      (λ h. record {
        request_full = v.request_full;
        response_full = v.response_full;
        slots = length-fill_slot e.errors (record { channel = c; error = x }) ∙ v.slots;
        packed = Packed-fill_slot e.errors (record { channel = c; error = x }) v.packed h;
        receiving = v.receiving;
        serving = v.serving;
        sending = v.sending;
        alone = v.alone;
        last_in_range = v.last_in_range;
      })

pub new-IsValid :
    (b : Build) (version : DeviceVersion) (capabilities : ℕ)
    → IsValid b (new b version capabilities)
unfolding new
new-IsValid b version capabilities = grind (arith, length-replicate)

pub abort_transaction-IsValid :
    {b : Build} (e : Engine) → IsValid b e → IsValid b (abort_transaction e)
unfolding abort_transaction
abort_transaction-IsValid e v = grind (arith, length-replicate)

Packed-map : (xs : List (Option PendingError)) → AllNone (map (λ x. none) xs)
Packed-map [] = tt
Packed-map (x ∷ xs) = Packed-map xs

length-map-none :
    (xs : List (Option PendingError))
    → length (map {B = Option PendingError} (λ x. none) xs) ≡ length xs
length-map-none [] = refl
length-map-none (x ∷ xs) = omega (arith, length-map-none xs)

-- An unusable report leaves a valid engine with no transaction and no queued error.
pub transport_error-IsValid :
    {b : Build} (e : Engine)
    → IsValid b e
    → IsValid b (transport_error e) × AllNone (transport_error e).errors
unfolding transport_error abort_transaction
transport_error-IsValid {b} e v = (
  record {
    request_full = length-replicate (length e.request) 0 ∙ v.request_full;
    response_full = length-replicate (length e.response) 0 ∙ v.response_full;
    slots = length-map-none e.errors ∙ v.slots;
    packed = AllNone-Packed (map (λ x. none) e.errors) (Packed-map e.errors);
    receiving = tt;
    serving = tt;
    sending = tt;
    alone = tt;
    last_in_range = v.last_in_range;
  },
  Packed-map e.errors,
)

-- A change of the buffers' contents keeps the invariant.
pub buffers-IsValid :
    {b : Build} (e : Engine) (request response : List ℕ)
    → IsValid b e
    → length request ≡ length e.request
    → length response ≡ length e.response
    → IsValid b (record e { request = request; response = response })
buffers-IsValid e request response v p q = record {
  request_full = p ∙ v.request_full;
  response_full = q ∙ v.response_full;
  slots = v.slots;
  packed = v.packed;
  receiving = v.receiving;
  serving = v.serving;
  sending = v.sending;
  alone = v.alone;
  last_in_range = v.last_in_range;
}

-- No transaction is under way.
abbrev pub Idle : Engine → Type 0
Idle e = (e.receive ≡ none) × (e.app_request ≡ none) × (e.transmit ≡ none)

pub start_transmit-IsValid :
    {b : Build} (e : Engine) (channel : ℕ) (command : Command) (total : ℕ)
    → IsValid b e
    → e.receive ≡ none
    → e.app_request ≡ none
    → total ≤ b.capacity
    → IsValid b (start_transmit e channel command total)
unfolding start_transmit
start_transmit-IsValid e channel command total v r a t = ground arith
