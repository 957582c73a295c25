-- ===== src/CtapHid/Errors.antt =====
-- The error slots of src/ctaphid.rs refine a queue: first come, first sent, at most eight errors, at
-- most one for each channel.
use salpa.Base.{
  ℕ, ◌≡◌, ◌∙◌, refl, ap, Bool, false, ◌||◌, Option, none, some, List, [], ◌∷◌, ◌++◌, arith, length,
  set, ltb, ◌==◌, if◌then◌else◌,
}
use salpa.CtapHid.Protocol.{TransportError, error, error_code, error_capacity}
use salpa.CtapHid.State.{Build, PendingError, Engine, has_error, fill_slot, queue_error}
use salpa.CtapHid.Transmit.{first_error, drop_first, initial_packet, next_packet, packet_sent}
use salpa.CtapHid.Invariant.{AllNone, Packed, IsValid}

-- The queue that the slots stand for.
abbrev pub queued : List (Option PendingError) → List PendingError
queued [] = []
queued (none ∷ xs) = queued xs
queued (some x ∷ xs) = x ∷ queued xs

abbrev pub on_channel : ℕ → List PendingError → Bool
on_channel c [] = false
on_channel c (x ∷ xs) = x.channel == c || on_channel c xs

-- The queue's own operation: a new error goes to the end, unless its channel has one or all eight
-- places are taken.
unfoldable pub enqueue : PendingError → List PendingError → List PendingError
enqueue x q =
    if on_channel x.channel q then q else if ltb (length q) error_capacity then q ++ x ∷ [] else q

has_error-queued :
    (xs : List (Option PendingError)) (c : ℕ) → has_error xs c ≡ on_channel c (queued xs)
unfolding has_error
has_error-queued [] c = refl
has_error-queued (none ∷ xs) c = has_error-queued xs c
has_error-queued (some x ∷ xs) c = ap (λ t. x.channel == c || t) (has_error-queued xs c)

queued-AllNone : (xs : List (Option PendingError)) → AllNone xs → queued xs ≡ []
queued-AllNone [] h = refl
queued-AllNone (none ∷ xs) h = queued-AllNone xs h
queued-AllNone (some x ∷ xs) h = absurd h

queued-fill_slot :
    (xs : List (Option PendingError)) (x : PendingError)
    → Packed xs
    → queued (fill_slot xs x)
      ≡ (if ltb (length (queued xs)) (length xs) then queued xs ++ x ∷ [] else queued xs)
unfolding fill_slot
queued-fill_slot [] x h = refl
queued-fill_slot (none ∷ xs) x h = rw (queued-AllNone xs h) (ground arith)
queued-fill_slot (some y ∷ xs) x h = ground (arith, queued-fill_slot xs x h.1)

-- Queueing an error is the queue's operation.
queued-queue_error :
    {b : Build} (e : Engine) (c : ℕ) (x : TransportError)
    → IsValid b e
    → queued (queue_error e c x).errors
      ≡ enqueue (record { channel = c; error = x }) (queued e.errors)
unfolding queue_error enqueue
queued-queue_error e c x v = ground (
  arith,
  has_error-queued e.errors c,
  queued-fill_slot e.errors (record { channel = c; error = x }) v.packed,
  v.slots,
)

abbrev head? : List PendingError → Option PendingError
head? [] = none
head? (x ∷ q) = some x

abbrev rest : List PendingError → List PendingError
rest [] = []
rest (x ∷ q) = q

first_error-queued :
    (xs : List (Option PendingError)) → Packed xs → first_error xs ≡ head? (queued xs)
first_error-queued [] h = refl
first_error-queued (none ∷ xs) h = rw (queued-AllNone xs h)
first_error-queued (some x ∷ xs) h = refl

queued-end : (xs : List (Option PendingError)) → queued (xs ++ none ∷ []) ≡ queued xs
queued-end [] = refl
queued-end (none ∷ xs) = queued-end xs
queued-end (some x ∷ xs) = ap (λ l. x ∷ l) (queued-end xs)

queued-drop_first :
    (xs : List (Option PendingError)) → Packed xs → queued (drop_first xs) ≡ rest (queued xs)
queued-drop_first [] h = refl
queued-drop_first (none ∷ xs) h = rw (queued-end xs, queued-AllNone xs h)
queued-drop_first (some x ∷ xs) h = queued-end xs

queued-packet_sent :
    (e : Engine) → Packed e.errors → queued (packet_sent e).errors ≡ rest (queued e.errors)
unfolding packet_sent
queued-packet_sent e h = ground (arith, first_error-queued e.errors h, queued-drop_first e.errors h)

next_packet-error :
    (e : Engine) (x : PendingError)
    → first_error e.errors ≡ some x
    → next_packet e ≡ some (set (initial_packet x.channel error 1) 7 (error_code x.error))
unfolding next_packet
next_packet-error e x h = ground arith

-- In a valid engine with a queued error, the next packet is the error packet of the one that was
-- queued first, before anything else the engine has to send, and `packet_sent` takes that error
-- off the queue and leaves the others in their order. A new error then joins as `enqueue` says: at
-- the end, unless its channel has an error waiting or eight wait already.
pub errors_refine_queue :
    (b : Build) (e : Engine) (x : PendingError) (q : List PendingError) (c : ℕ) (y : TransportError)
    → IsValid b e
    → queued e.errors ≡ x ∷ q
    → (next_packet e ≡ some (set (initial_packet x.channel error 1) 7 (error_code x.error)))
      × (queued (packet_sent e).errors ≡ q)
      × (queued (queue_error e c y).errors ≡ enqueue (record { channel = c; error = y }) (x ∷ q))
errors_refine_queue b e x q c y v h = (
  next_packet-error e x (first_error-queued e.errors v.packed ∙ ap head? h),
  queued-packet_sent e v.packed ∙ ap rest h,
  queued-queue_error e c y v ∙ ap (enqueue (record { channel = c; error = y })) h,
)
