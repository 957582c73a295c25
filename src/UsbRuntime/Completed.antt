-- ===== src/UsbRuntime/Completed.antt =====
-- What src/request_completion.rs reports of a reply through the engine of src/ctaphid.rs.
use salpa.Base.{
  ℕ, ◌≤◌, ◌≡◌, ◌↔◌, refl, Bool, true, false, not, ◌&&◌, Option, none, some, List, [], ◌∷◌, length,
  ltb, if-cases, option-cases, is_some, if◌then◌else◌, subst, sym, ap₂, arith,
}
use salpa.CtapHid.Protocol.{
  ReplyError, no_pending_request, response_too_long, invalid_length, TransportError,
}
use salpa.CtapHid.State.{Build, Engine, zeroize, queue_error, has_error, start_transmit}
use salpa.CtapHid.Transmit.{reply}
use salpa.UsbRuntime.Completion.{
  succeeded, interrupted, ok, disposition, completion, complete_cbor, starts_with_zero, is_empty,
}

-- How an answer ends, for each state of the engine.
abbrev Answer : Build → Engine → List ℕ → Option ReplyError × Engine → Type 0
Answer b e payload r =
    ((r.0 ≡ none) ↔ ((is_some e.app_request ≡ true) × (length payload ≤ b.capacity)))
    × ((r.0 ≡ some no_pending_request) ↔ (is_some e.app_request ≡ false))
    × (r.1.app_request ≡ none)

queue_error-app_request :
    (e : Engine) (channel : ℕ) (error : TransportError)
    → (queue_error e channel error).app_request ≡ e.app_request
unfolding queue_error
queue_error-app_request e channel error =
    if-cases (λ (r : Engine). r.app_request ≡ e.app_request) (has_error e.errors channel)
      (λ _. refl) (λ _. refl)

reply-Answer : (b : Build) (e : Engine) (payload : List ℕ) → Answer b e payload (reply b e payload)
unfolding reply start_transmit
reply-Answer b e payload =
    let P : Option ReplyError × Engine → Type 0 = λ r. Answer b e payload r in
    option-cases P e.app_request (λ i. ground arith)
      (λ q i.
        if-cases P (ltb b.capacity (length payload))
          (λ long.
            let freed = record e { app_request = none; request = zeroize e.request } in
            ground (arith, queue_error-app_request freed q.channel invalid_length))
          (λ short. ground arith))

completion-succeeded :
    (c : Bool) (o : Option ReplyError)
    → (completion c (disposition o) ≡ ok succeeded) ↔ ((c ≡ true) × (o ≡ none))
unfolding completion disposition
completion-succeeded true none = ground arith
completion-succeeded false none = ground arith
completion-succeeded c (some no_pending_request) = ground arith
completion-succeeded c (some response_too_long) = ground arith

completion-interrupted :
    (c : Bool) (o : Option ReplyError)
    → (completion c (disposition o) ≡ ok interrupted) ↔ (o ≡ some no_pending_request)
unfolding completion disposition
completion-interrupted true none = ground arith
completion-interrupted false none = ground arith
completion-interrupted c (some no_pending_request) = ground arith
completion-interrupted c (some response_too_long) = ground arith

-- What is sent when the CTAP status is success is the response.
sent : Bool → List ℕ → List ℕ
sent dispatched response = if dispatched && not (is_empty response) then response else 0x7f ∷ []

sent-succeeded :
    (dispatched : Bool) (response : List ℕ)
    → (dispatched && starts_with_zero response) ≡ true
    → (dispatched ≡ true)
      × (starts_with_zero response ≡ true)
      × (sent dispatched response ≡ response)
unfolding sent
sent-succeeded true [] e = cc
sent-succeeded true (x ∷ xs) e = (refl, e, refl)
sent-succeeded false response e = cc

-- Whether or not the dispatch succeeded, a CBOR request through the engine is reported as
-- succeeded exactly if the dispatch succeeded, the response starts with the CTAP status 0 and fits
-- the buffer, and the engine still had a request to answer; it is reported as interrupted exactly
-- if the engine had none. In each case no request is left and the response is zeroed.
pub complete_cbor_lem :
    (b : Build) (e : Engine) (dispatched : Bool) (response : List ℕ)
    → let r = complete_cbor (reply b) e dispatched response in
      ((r.result ≡ ok succeeded) ↔ (
        (dispatched ≡ true)
        × (starts_with_zero response ≡ true)
        × (length response ≤ b.capacity)
        × (is_some e.app_request ≡ true)))
      × ((r.result ≡ ok interrupted) ↔ (is_some e.app_request ≡ false))
      × (r.state.app_request ≡ none)
      × (r.response ≡ zeroize response)
unfolding complete_cbor sent
complete_cbor_lem b e dispatched response =
    let payload = sent dispatched response in
    let answer = reply-Answer b e payload in
    let c = dispatched && starts_with_zero response in
    let r = (reply b e payload).0 in
    let succeeds = completion-succeeded c r in
    let interrupts = completion-interrupted c r in
    (
      (
        λ h.
            let (status, sent_) = succeeds.0 h in
            let (d, z, same) = sent-succeeded dispatched response status in
            let (pending, fits) = answer.0.0 sent_ in
            (d, z, subst (λ (x : List ℕ). length x ≤ b.capacity) same fits, pending),
        λ h.
            let status = ap₂ (λ x y. x && y) h.0 h.1 in
            let same = (sent-succeeded dispatched response status).2 in
            succeeds.1 (
              status,
              answer.0.1 (h.3, subst (λ (x : List ℕ). length x ≤ b.capacity) (sym same) h.2),
            ),
      ),
      (λ h. answer.1.0 (interrupts.0 h), λ h. interrupts.1 (answer.1.1 h)),
      answer.2,
      refl,
    )
