-- ===== src/UsbRuntime/Consented.antt =====
-- The consent that src/platform/s2_user_presence.rs gathers while src/platform/usb_runtime.rs polls.
use salpa.Base.{
  ℕ, zero, suc, ◌≡◌, inl, inr, Bool, true, false, Option, none, some, List, AllBytes, option-cases,
  ◌∙◌,
}
use salpa.CtapHid.State.{Build, AppRequest}
use salpa.CtapHid.Invariant.{IsBuild, IsValid}
use salpa.Presence.Gate
use salpa.Presence.Gate.{PresenceGate, Poll}
use salpa.Presence.Gate.Consent.{poll_in_time}
use salpa.UserPresence.Hardware.{
  Board, UserHardware, turn, poll_gate, wait, confirm, begin_gesture, end_gesture, read_pins,
}
use salpa.UsbRuntime.Runtime.{Usb, report, Runtime, board, begin_wait, cancelled}
use salpa.UsbRuntime.Polling.{Kept, Guarded, poll_wait-Guarded}

module _ {S : Type 0} (build : Build) (usb : Usb S) (w : IsBuild build)
    (bytes_only : (s : S) (r : List ℕ) → (usb.receive s).1 ≡ report r → AllBytes r) (q : AppRequest)
    (bytes : List ℕ) (now_ms : S → S × ℕ) (is_low : S → S × Bool) where
  abbrev G : Runtime S → Type 0
  G = Guarded build usb w bytes_only q bytes

  abbrev usb_board : Board (Runtime S)
  usb_board = board build usb now_ms is_low

  -- After a turn, an approving sample means that the request is kept.
  turn-Guarded :
      (r : Runtime S)
      → G r
      → let t = turn usb_board r in G t.0 × (t.1.cancelled ≡ false → Kept q bytes t.0.ctaphid)
  unfolding turn read_pins board cancelled
  turn-Guarded r g =
      let p = poll_wait-Guarded build usb w bytes_only q bytes r g in
      (
        record { valid = p.valid; guards = p.guards },
        λ going. elim p.guards [ inl c ↦ absurd (both c going) | inr k ↦ k ],
      )
    where
      both : {b : Bool} → b ≡ true → b ≡ false → ⊥
      both t f = cc

  abbrev Ends : UserHardware (Runtime S) × Option Bool → Type 0
  Ends r = r.1 ≡ some true → Kept q bytes r.0.board.ctaphid

  wait-Kept : (fuel : ℕ) (h : UserHardware (Runtime S)) → G h.board → Ends (wait usb_board fuel h)
  unfolding wait poll_gate
  wait-Kept zero h g = λ e. cc
  wait-Kept (suc fuel) h g =
      let (r, p) = turn usb_board h.board in
      let (g, live) = turn-Guarded h.board g in
      let Q : UserHardware (Runtime S) × Option Bool → Type 0 = λ x.
        Ends (elim x.1 [ some result ↦ (x.0, some result) | none ↦ wait usb_board fuel x.0 ]) in
      option-cases Q h.gate (λ _. wait-Kept fuel (record h { board = r }) g)
        (λ gate _.
          option-cases Ends (Gate.poll gate p).1 (λ _. wait-Kept fuel _ g)
            (λ a found e. live (poll_in_time gate p (found ∙ e)).0))

  -- When the user approves during a wait that polls USB, the request that the application worked on
  -- as the wait began is still pending, with the same bytes: no packet took it away, replaced it or
  -- changed it meanwhile. Reports are taken to be bytes.
  pub consent_for_request :
      (fuel : ℕ) (h : UserHardware (Runtime S)) (timeout_ms : ℕ) (long_hold : Bool)
      → IsValid build h.board.ctaphid
      → h.board.ctaphid.app_request ≡ some q
      → h.board.ctaphid.request ≡ bytes
      → (confirm usb_board fuel h timeout_ms long_hold).1 ≡ some true
      → let h' = (confirm usb_board fuel h timeout_ms long_hold).0 in
        (h'.board.ctaphid.app_request ≡ some q) × (h'.board.ctaphid.request ≡ bytes)
  unfolding confirm begin_gesture end_gesture board begin_wait
  consent_for_request fuel h timeout_ms long_hold valid pending whole approved =
      let k =
        wait-Kept fuel _
          (record { valid = valid; guards = inr (record { pending = pending; whole = whole }) })
          approved in
      (k.pending, k.whole)
