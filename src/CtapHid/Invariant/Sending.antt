-- ===== src/CtapHid/Invariant/Sending.antt =====
-- Every operation of the sending half of src/ctaphid.rs keeps the invariant.
use salpa.Base.{
  ℕ, ◌≡◌, ◌∙◌, refl, true, Option, none, some, List, [], ◌∷◌, ◌++◌, arith, length, ltb, if-cases,
  option-cases, length-write_at, length-append, is_some, write_at,
}
use salpa.CtapHid.Protocol.{KeepaliveStatus, invalid_length, ReplyError}
use salpa.CtapHid.State.{
  Build, AppRequest, TransmitState, PendingError, Engine, zeroize, length-zeroize, has_error,
}
use salpa.CtapHid.Transmit.{
  reply, queue_keepalive, first_error, drop_first, advance_transmit, packet_sent,
}
use salpa.CtapHid.Invariant.{
  IsBuild, IsValid, AllNone, Packed, buffers-IsValid, queue_error-IsValid, start_transmit-IsValid,
}

pub queue_keepalive-IsValid :
    {b : Build} (e : Engine) (status : KeepaliveStatus)
    → IsValid b e
    → IsValid b (queue_keepalive e status).1
unfolding queue_keepalive
queue_keepalive-IsValid e status v = ground arith

-- The request that a reply answers is gone.
taken :
    {b : Build} (e : Engine) (q : AppRequest)
    → IsValid b e
    → e.app_request ≡ some q
    → IsValid b (record e { app_request = none; request = zeroize e.request }) × (e.receive ≡ none)
taken e q v i = ground (arith, length-zeroize e.request)

pub reply-IsValid :
    {b : Build} (e : Engine) (payload : List ℕ) → IsValid b e → IsValid b (reply b e payload).1
unfolding reply
reply-IsValid {b} e payload v =
    option-cases P e.app_request (λ i. v)
      (λ q i.
        if-cases P (ltb b.capacity (length payload))
          (λ k. queue_error-IsValid (free e) q.channel invalid_length (taken e q v i).0)
          (λ k.
            start_transmit-IsValid
              (record (free e) { response = write_at 0 payload (zeroize e.response) }) q.channel
              q.command (length payload)
              (buffers-IsValid (free e) _ _ (taken e q v i).0 refl
                (length-write_at 0 payload (zeroize e.response) ∙ length-zeroize e.response))
              (taken e q v i).1 refl (ground arith)))
  where
    P : Option ReplyError × Engine → Type 0
    P r = IsValid b r.1

    free : Engine → Engine
    free e = record e { app_request = none; request = zeroize e.request }

has_error-end :
    (xs : List (Option PendingError)) (c : ℕ) → has_error (xs ++ none ∷ []) c ≡ has_error xs c
unfolding has_error
has_error-end [] c = refl
has_error-end (none ∷ xs) c = has_error-end xs c
has_error-end (some x ∷ xs) c = ground (arith, has_error-end xs c)

AllNone-end : (xs : List (Option PendingError)) → AllNone xs → AllNone (xs ++ none ∷ [])
AllNone-end [] h = tt
AllNone-end (none ∷ xs) h = AllNone-end xs h
AllNone-end (some x ∷ xs) h = h

Packed-end : (xs : List (Option PendingError)) → Packed xs → Packed (xs ++ none ∷ [])
Packed-end [] h = tt
Packed-end (none ∷ xs) h = AllNone-end xs h
Packed-end (some x ∷ xs) h = (has_error-end xs x.channel ∙ h.0, Packed-end xs h.1)

-- Sending the first error moves the others up.
Packed-drop_first :
    (xs : List (Option PendingError))
    → is_some (first_error xs) ≡ true
    → Packed xs
    → Packed (drop_first xs) × (length (drop_first xs) ≡ length xs)
Packed-drop_first [] i h = (h, refl)
Packed-drop_first (none ∷ xs) i h = cc
Packed-drop_first (some x ∷ xs) i h =
    (Packed-end xs h.1, omega (arith, length-append {0} xs (none ∷ [])))

advance_transmit-IsValid :
    {b : Build} (e : Engine) (t : TransmitState)
    → IsBuild b
    → IsValid b e
    → e.transmit ≡ some t
    → IsValid b (advance_transmit e t)
unfolding advance_transmit
advance_transmit-IsValid e t w v i = ground (arith, length-zeroize e.response)

pub packet_sent-IsValid :
    {b : Build} (e : Engine) → IsBuild b → IsValid b e → IsValid b (packet_sent e)
unfolding packet_sent
packet_sent-IsValid {b} e w v =
    if-cases (IsValid b) (is_some (first_error e.errors))
      (λ h. ground (arith, Packed-drop_first e.errors h v.packed))
      (λ h.
        if-cases (IsValid b) (is_some e.keepalive) (λ k. ground arith)
          (λ k.
            option-cases (IsValid b) e.transmit (λ i. v)
              (λ t i. advance_transmit-IsValid e t w v i)))
