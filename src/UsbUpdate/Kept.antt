-- ===== src/UsbUpdate/Kept.antt =====
-- To prove that a step keeps a relation between the backend and the session, it is enough to show
-- that the backend's operations and the updates of the clock fields do.
use salpa.Base.{ℕ, Bool, List, if-cases}
pub mod Verify
pub mod Loop
use salpa.UsbUpdate.Protocol.{StatusCode, session_expired, UpdateBackend}
use salpa.UsbUpdate.Session.{
  Session, Outcome, fail, expire, overdue, is_live, is_expired, while_live, progress,
}

module _ {S H : Type 0} (back : UpdateBackend S) (K : S → Session H → Type 0) where
  abbrev pub After : Outcome S H → Type 0
  After o = K o.backend o.session

  -- The relation survives the calls that do not change flash, and the session's bookkeeping.
  pub record Quiet : Type 0 where
    pub clock : (b : S) (s : Session H) → K b s → K (back.now_ms b).0 s
    pub layout : (b : S) (s : Session H) → K b s → K (back.layout b).0 s
    pub read :
        (b : S) (s : Session H) (slot at n : ℕ) → K b s → K (back.reader.read b slot at n).0 s
    pub verify :
        (b : S) (s : Session H) (key sig d : List ℕ)
        → K b s
        → K (back.reader.verify_rsa_pss b key sig d).0 s
    pub checked : (b : S) (s : Session H) (t : ℕ) → K b s → K b (record s { last_checked_ms = t })
    pub progressed :
        (b : S) (s : Session H) (t : ℕ) → K b s → K b (record s { last_progress_ms = t })
    pub failing : (b : S) (s : Session H) (code : StatusCode) → K b s → K b (fail s code)

  module _ (q : Quiet) where
    pub expire-kept : (b : S) (s : Session H) (now : ℕ) → K b s → K b (expire s now).1
    unfolding expire
    expire-kept b s now k =
        if-cases (λ (r : Bool × Session H). K b r.1) (is_live s.phase)
          (λ e.
            if-cases (λ (r : Bool × Session H). K b r.1) (overdue s now)
              (λ e. q.failing b _ session_expired (q.checked b s now k)) (λ e. q.checked b s now k))
          (λ e. k)

    pub while_live-kept :
        (b : S) (s : Session H) (f : S → Session H → Outcome S H)
        → K b s
        → ((b : S) (s : Session H) → K b s → After (f b s))
        → After (while_live back b s f)
    unfolding while_live
    while_live-kept b s f k next =
        let kept = expire-kept (back.now_ms b).0 s (back.now_ms b).1 (q.clock b s k) in
        if-cases After (expire s (back.now_ms b).1).0 (λ e. kept) (λ e. next _ _ kept)

    pub progress-kept : (b : S) (s : Session H) → K b s → After (progress back b s)
    unfolding progress
    progress-kept b s k =
        let kept = expire-kept (back.now_ms b).0 s (back.now_ms b).1 (q.clock b s k) in
        if-cases After (expire s (back.now_ms b).1).0 (λ e. kept) (λ e. q.progressed _ _ _ kept)
