-- ===== src/VendorCommands/Consent.antt =====
-- What the vendor requests of src/platform/vendor_commands.rs do only with the user's consent.
use salpa.Base.{
  ℕ, ◌+◌, ◌≡◌, ◌⊎◌, inl, inr, refl, ap, sym, subst, ◌∙◌, Bool, true, false, ◌&&◌, Option, none,
  some, List, [], ◌∷◌, ◌==◌, byte, bytes_eq, ==_iff, if-cases, option-cases,
}
use salpa.SignedImage.Format.{Sha256}
use salpa.UsbUpdate.Protocol.{UpdateBackend, status_number, user_presence_required}
use salpa.UsbUpdate.Session.{UsbUpdater, current_phase}
use salpa.UserPresence.Hardware.{
  Board, UserHardware, confirm_update_user_presence, update_user_presence_timeout_ms,
}
use salpa.UserPresence.Confirm.{Approved, confirm-Approved}
use salpa.VendorCommands.Dispatch.{
  Handlers, Reply, Diagnostic, or_else, first_diagnostic_response, answer, with_presence, dispatch,
  S2Handlers, Services, on_hardware, memory_diagnostic, memory_protection_request, diagnostics,
  update, confirm_update, s2_handlers, security_status_request,
}
use salpa.VendorCommands.Absent.{NoneBegun, untouched, handle-NoneBegun}

module _ {B H S : Type 0} (sha : Sha256 H) (back : UpdateBackend B) (board : Board S)
    (services : Services S) (encrypted : Bool) (fuel : ℕ) where
  -- A press of the button that a wait begun after `h` has seen, within the time for an update.
  abbrev pub Pressed : UserHardware S → Type 0
  Pressed h =
      let (b, now) = board.now_ms h.board in
      Approved board false (board.begin_wait b) (now + update_user_presence_timeout_ms)

  keeps_updater :
      (u : UsbUpdater B H) (r : Reply (S2Handlers B H S) (Option ℕ))
      (next : Diagnostic (S2Handlers B H S))
      → r.state.updater ≡ u
      → ((s : S2Handlers B H S) (response : List ℕ) → (next s response).state.updater ≡ s.updater)
      → (or_else r next).state.updater ≡ u
  unfolding or_else
  keeps_updater u r next e n =
      option-cases (λ (r : Reply (S2Handlers B H S) (Option ℕ)). r.state.updater ≡ u) r.value
        (λ _. n r.state r.response ∙ e) (λ _ _. e)

  memory_keeps :
      (request : List ℕ) (s : S2Handlers B H S) (response : List ℕ)
      → (memory_diagnostic sha back board services encrypted fuel request s response).state.updater
        ≡ s.updater
  unfolding memory_diagnostic
  memory_keeps request s response =
      if-cases (λ (r : Reply (S2Handlers B H S) (Option ℕ)). r.state.updater ≡ s.updater)
        (encrypted && bytes_eq request (memory_protection_request ∷ [])) (λ _. refl) (λ _. refl)

  diagnostics_keep :
      (s : S2Handlers B H S) (request response : List ℕ)
      → (diagnostics sha back board services encrypted fuel s request response).state.updater
        ≡ s.updater
  unfolding diagnostics first_diagnostic_response
  diagnostics_keep s request response =
      keeps_updater s.updater _ (memory_diagnostic sha back board services encrypted fuel request)
        (keeps_updater s.updater
          (on_hardware sha back board services encrypted fuel s.updater
            (services.maintenance s.hardware request (current_phase s.updater) response))
          (λ (s : S2Handlers B H S) (response : List ℕ).
            on_hardware sha back board services encrypted fuel s.updater
              (services.preview s.hardware request (current_phase s.updater) response))
          refl (λ s response. refl))
        (memory_keeps request)

  abbrev handlers : Handlers (S2Handlers B H S)
  handlers = s2_handlers sha back board services encrypted fuel

  abbrev Unbegun : UsbUpdater B H → Reply (S2Handlers B H S) ℕ → Type 0
  Unbegun u r = NoneBegun sha back u r.state.updater

  answer-Unbegun :
      (request : List ℕ) (r : Reply (S2Handlers B H S) (Option ℕ))
      → Unbegun r.state.updater (answer handlers request r)
  unfolding answer update
  answer-Unbegun request r =
      option-cases (Unbegun r.state.updater) r.value
        (λ _.
          if-cases (Unbegun r.state.updater) (bytes_eq request (security_status_request ∷ []))
            (λ _. untouched sha back r.state.updater)
            (λ _. handle-NoneBegun sha back r.state.updater request))
        (λ _ _. untouched sha back r.state.updater)

  agreed :
      (o : Option Bool) → (elim o [ none ↦ false | some answer ↦ answer ]) ≡ true → o ≡ some true
  agreed none e = cc
  agreed (some a) e = ap (λ (a : Bool). some a) e

  confirm_update-Pressed :
      (s : S2Handlers B H S)
      → (confirm_update sha back board services encrypted fuel s).1 ≡ true
      → Pressed s.hardware
  unfolding confirm_update confirm_update_user_presence
  confirm_update-Pressed s e =
      (confirm-Approved board fuel s.hardware update_user_presence_timeout_ms false).0 (agreed _ e)

  confirm_update_keeps :
      (s : S2Handlers B H S)
      → (confirm_update sha back board services encrypted fuel s).0.updater ≡ s.updater
  unfolding confirm_update
  confirm_update_keeps s = refl

  -- The wait for a press in a dispatch: before it the first answer asked for the user, and in it the
  -- button was pressed.
  abbrev pub Consented : Reply (S2Handlers B H S) ℕ → Type 0
  Consented first =
      (byte first.response 0 ≡ status_number user_presence_required) × Pressed first.state.hardware

  with_presence-Consented :
      (u : UsbUpdater B H) (request : List ℕ) (r : Reply (S2Handlers B H S) ℕ)
      → Unbegun u r
      → Unbegun u (with_presence handlers request r) ⊎ Consented r
  unfolding with_presence
  with_presence-Consented u request r k =
      let P : Reply (S2Handlers B H S) ℕ → Type 0 = λ q. Unbegun u q ⊎ Consented r in
      let c = confirm_update sha back board services encrypted fuel r.state in
      if-cases P (byte r.response 0 == status_number user_presence_required)
        (λ asked.
          if-cases P c.1 (λ yes. inr ((==_iff _ _).0 asked, confirm_update-Pressed r.state yes))
            (λ no_. inl (subst (NoneBegun sha back u) (sym (confirm_update_keeps r.state)) k)))
        (λ _. inl k)

  -- The dispatch of any vendor request begins no update session (the number of the next one stays, and
  -- none appears where there was none), unless the first answer to this very request asked for the
  -- user, and the button was then freshly pressed within the time for an update and with no
  -- interruption.
  pub session_needs_press :
      (s : S2Handlers B H S) (request response : List ℕ)
      → NoneBegun sha back s.updater (dispatch handlers s request response).state.updater
        ⊎ Consented (
            answer handlers request
              (diagnostics sha back board services encrypted fuel s request response))
  unfolding dispatch
  session_needs_press s request response =
      let d = diagnostics sha back board services encrypted fuel s request response in
      with_presence-Consented s.updater request (answer handlers request d) (
        subst (λ (u : UsbUpdater B H). Unbegun u (answer handlers request d))
          (diagnostics_keep s request response) (answer-Unbegun request d))
