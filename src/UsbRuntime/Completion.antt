-- ===== src/UsbRuntime/Completion.antt =====
-- src/request_completion.rs: how the firmware ends a request. `reply` is a parameter, as in the code.
use salpa.Base.{
  ℕ, Bool, true, false, not, ◌&&◌, Option, none, some, List, [], ◌∷◌, ◌==◌, if◌then◌else◌,
}
use salpa.CtapHid.State.{zeroize}
use salpa.CtapHid.Protocol.{ReplyError, no_pending_request, response_too_long}

pub data ReplyDisposition : Type 0 where
  queued discarded : ReplyDisposition

pub data CborCompletion : Type 0 where
  succeeded failed interrupted : CborCompletion

-- `Result<A, ReplyError>`
pub data Completed (A : Type 0) : Type 0 where
  ok : A → Completed A
  err : ReplyError → Completed A

-- `none` is `Ok(())`.
unfoldable pub disposition : Option ReplyError → Completed ReplyDisposition
disposition none = ok queued
disposition (some no_pending_request) = ok discarded
disposition (some response_too_long) = err response_too_long

abbrev pub starts_with_zero : List ℕ → Bool
starts_with_zero [] = false
starts_with_zero (first ∷ others) = first == 0

abbrev pub is_empty : List ℕ → Bool
is_empty [] = true
is_empty (x ∷ xs) = false

unfoldable pub completion : Bool → Completed ReplyDisposition → Completed CborCompletion
completion ctap_succeeded (err e) = err e
completion ctap_succeeded (ok queued) = if ctap_succeeded then ok succeeded else ok failed
completion ctap_succeeded (ok discarded) = ok interrupted

module _ {S : Type 0} (reply : S → List ℕ → Option ReplyError × S) where
  -- The state after the reply, the response buffer, and the completion.
  pub record Ended (A : Type 0) : Type 0 where
    pub state : S
    pub response : List ℕ
    pub result : Completed A

  unfoldable pub complete_cbor : S → Bool → List ℕ → Ended CborCompletion
  unfolding disposition completion
  complete_cbor s dispatch_succeeded response =
      let ctap_succeeded = dispatch_succeeded && starts_with_zero response in
      let (result, s) =
        reply s (if dispatch_succeeded && not (is_empty response) then response else 0x7f ∷ []) in
      record {
        state = s;
        response = zeroize response;
        result = completion ctap_succeeded (disposition result);
      }

  unfoldable pub complete_update : S → List ℕ → Ended ReplyDisposition
  unfolding disposition
  complete_update s response =
      let (result, s) = reply s response in
      record { state = s; response = zeroize response; result = disposition result }
