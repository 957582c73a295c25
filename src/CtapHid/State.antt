-- ===== src/CtapHid/State.antt =====
-- The engine's state, and the helpers of src/ctaphid.rs that both directions use.
use salpa.Base.{
  ℕ, zero, suc, ◌+◌, ◌%◌, Bool, true, false, ◌&&◌, ◌||◌, not, Option, none, some, List, [], ◌∷◌,
  map, ◌==◌, leb, if◌then◌else◌, length, length-replicate, ◌≡◌, replicate, u32_mod,
}
use salpa.CtapHid.Protocol.{
  Command, TransportError, KeepaliveStatus, DeviceVersion, error_capacity, reserved_channel,
  broadcast_channel,
}

-- What the compiler fixes: the buffer size `N`, and whether `CTAPHID` update requests are handled
-- (feature `usb-signed-update`).
pub record Build : Type 0 where
  pub capacity : ℕ
  pub signed_update : Bool

pub record ReceiveState : Type 0 where
  pub channel : ℕ
  pub command : Command
  pub total : ℕ  -- the source's `length`
  pub received : ℕ
  pub next_sequence : ℕ
  pub last_activity_ms : ℕ

pub record AppRequest : Type 0 where
  pub channel : ℕ
  pub command : Command
  pub total : ℕ

pub record TransmitState : Type 0 where
  pub channel : ℕ
  pub command : Command
  pub total : ℕ
  pub offset : ℕ
  pub next_sequence : ℕ

pub record PendingError : Type 0 where
  pub channel : ℕ
  pub error : TransportError

pub record Engine : Type 0 where
  pub request : List ℕ
  pub response : List ℕ
  pub receive : Option ReceiveState
  pub app_request : Option AppRequest
  pub transmit : Option TransmitState
  pub keepalive : Option (ℕ × KeepaliveStatus)
  pub errors : List (Option PendingError)
  pub last_channel : ℕ
  pub version : DeviceVersion
  pub capabilities : ℕ

-- `new`; its two assertions on `N` are `IsBuild` of `Invariant`.
unfoldable pub new : Build → DeviceVersion → ℕ → Engine
new b version capabilities = record {
  request = replicate b.capacity 0;
  response = replicate b.capacity 0;
  receive = none;
  app_request = none;
  transmit = none;
  keepalive = none;
  errors = replicate error_capacity none;
  last_channel = reserved_channel;
  version = version;
  capabilities = capabilities;
}

abbrev pub zeroize : List ℕ → List ℕ
zeroize xs = replicate (length xs) 0

pub length-zeroize : (xs : List ℕ) → length (zeroize xs) ≡ length xs
length-zeroize xs = length-replicate (length xs) 0

abbrev pub is_special : ℕ → Bool
is_special channel = channel == reserved_channel || channel == broadcast_channel

unfoldable pub is_allocated : Engine → ℕ → Bool
is_allocated e channel = not (is_special channel) && leb channel e.last_channel

-- `loop` of `allocate_channel`, on fuel: of any three numbers in a row one is neither special.
unfoldable pub next_channel : ℕ → ℕ → ℕ
next_channel zero last = last
next_channel (suc fuel) last =
    let next = (last + 1) % u32_mod in
    let rest = next_channel fuel next in if is_special next then rest else next

unfoldable pub allocate_channel : Engine → ℕ × Engine
unfolding next_channel
allocate_channel e =
    let next = next_channel 3 e.last_channel in (next, record e { last_channel = next })

unfoldable pub active_channel : Engine → Option ℕ
active_channel e = elim e.receive [
  | some r ↦ some r.channel
  | none ↦ elim e.app_request [
    | some q ↦ some q.channel
    | none ↦ elim e.transmit [ some t ↦ some t.channel | none ↦ none ]
  ]
]

unfoldable pub abort_transaction : Engine → Engine
abort_transaction e = record e {
  request = zeroize e.request;
  response = zeroize e.response;
  receive = none;
  app_request = none;
  transmit = none;
  keepalive = none;
}

unfoldable pub transport_error : Engine → Engine
unfolding abort_transaction
transport_error e = record (abort_transaction e) { errors = map (λ x. none) e.errors }

unfoldable pub cancel_application_request : Engine → Bool × Engine
cancel_application_request e = elim e.app_request [
  | none ↦ (false, e)
  | some q ↦ (true, record e { keepalive = none })
]

unfoldable pub start_transmit : Engine → ℕ → Command → ℕ → Engine
start_transmit e channel command total = record e {
  transmit = some (record {
    channel = channel;
    command = command;
    total = total;
    offset = 0;
    next_sequence = 0;
  });
}

-- `errors.iter().flatten().any(|pending| pending.channel == channel)`
unfoldable pub has_error : List (Option PendingError) → ℕ → Bool
has_error [] channel = false
has_error (none ∷ xs) channel = has_error xs channel
has_error (some x ∷ xs) channel = x.channel == channel || has_error xs channel

-- The first empty slot takes the error; with none the error is dropped.
unfoldable pub fill_slot : List (Option PendingError) → PendingError → List (Option PendingError)
fill_slot [] x = []
fill_slot (none ∷ xs) x = some x ∷ xs
fill_slot (some y ∷ xs) x = some y ∷ fill_slot xs x

unfoldable pub queue_error : Engine → ℕ → TransportError → Engine
queue_error e channel error =
    if has_error e.errors channel
    then e
    else record e { errors = fill_slot e.errors (record { channel = channel; error = error }) }
