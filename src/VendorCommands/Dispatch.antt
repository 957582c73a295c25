-- ===== src/VendorCommands/Dispatch.antt =====
-- `dispatch` of src/platform/vendor_commands.rs, and the handlers of the ESP32-S2.
use salpa.Base.{
  ℕ, Bool, true, false, ◌&&◌, Option, none, some, List, [], ◌∷◌, length, byte, bytes_eq, ◌==◌,
  if◌then◌else◌,
}
use salpa.SignedImage.Format.{Sha256}
use salpa.UsbUpdate.Protocol.{UpdateBackend, Phase, status_number, user_presence_required}
use salpa.UsbUpdate.Session.{UsbUpdater, current_phase}
use salpa.UsbUpdate.Updater.{handle}
use salpa.UserPresence.Hardware.{Board, UserHardware, confirm_update_user_presence}

-- `security_status::REQUEST` and `memory_protection::REQUEST`
abbrev pub security_status_request : ℕ
security_status_request = 0x11

abbrev pub memory_protection_request : ℕ
memory_protection_request = 0x16

-- The state after a handler, the response buffer, and what the handler returned.
pub record Reply (S A : Type 0) : Type 0 where
  pub state : S
  pub response : List ℕ
  pub value : A

-- The trait `Handlers`; a handler is given the response buffer.
pub record Handlers (S : Type 0) : Type 0 where
  pub diagnostics : S → List ℕ → List ℕ → Reply S (Option ℕ)
  pub security_status : S → List ℕ → Reply S ℕ
  pub update : S → List ℕ → Bool → List ℕ → Reply S ℕ
  pub confirm_update : S → S × Bool

abbrev pub Diagnostic : Type 0 → Type 0
Diagnostic S = S → List ℕ → Reply S (Option ℕ)

-- `.or_else(|| next(response))`
unfoldable pub or_else : {S : Type 0} → Reply S (Option ℕ) → Diagnostic S → Reply S (Option ℕ)
or_else r next = elim r.value [ none ↦ next r.state r.response | some _ ↦ r ]

unfoldable pub first_diagnostic_response :
    {S : Type 0} → S → List ℕ → Diagnostic S → Diagnostic S → Diagnostic S → Reply S (Option ℕ)
unfolding or_else
first_diagnostic_response s response maintenance preview memory =
    or_else (or_else (maintenance s response) preview) memory

module _ {S : Type 0} (handlers : Handlers S) where
  -- The first answer, given what the diagnostics answered.
  unfoldable pub answer : List ℕ → Reply S (Option ℕ) → Reply S ℕ
  answer request r = elim r.value [
    | some count ↦ record { state = r.state; response = r.response; value = count }
    | none ↦
        if bytes_eq request (security_status_request ∷ [])
        then handlers.security_status r.state r.response
        else handlers.update r.state request false r.response
  ]

  -- The update is handled again where the response asks for the user, who then agrees.
  unfoldable pub with_presence : List ℕ → Reply S ℕ → Reply S ℕ
  with_presence request r =
      if byte r.response 0 == status_number user_presence_required
      then (let (s, confirmed) = handlers.confirm_update r.state in
          if confirmed then handlers.update s request true r.response else record r { state = s })
      else r

  unfoldable pub dispatch : S → List ℕ → List ℕ → Reply S ℕ
  unfolding answer with_presence
  dispatch s request response =
      with_presence request (answer request (handlers.diagnostics s request response))

-- `S2Handlers`: the updater over its platform `B`, and the button over its board `S`.
pub record S2Handlers (B H S : Type 0) : Type 0 where
  pub updater : UsbUpdater B H
  pub hardware : UserHardware S

-- What the handlers call: the maintenance and the preview of the security epoch, which see the
-- updater's phase, and the two status answers. A build without one of them has none.
pub record Services (S : Type 0) : Type 0 where
  pub maintenance : UserHardware S → List ℕ → Phase → List ℕ → Reply (UserHardware S) (Option ℕ)
  pub preview : UserHardware S → List ℕ → Phase → List ℕ → Reply (UserHardware S) (Option ℕ)
  pub memory_status : List ℕ
  pub security_status : List ℕ

module _ {B H S : Type 0} (sha : Sha256 H) (back : UpdateBackend B) (board : Board S)
    (services : Services S) (release_flash_encryption : Bool) (fuel : ℕ) where
  abbrev pub on_hardware :
      {A : Type 0} → UsbUpdater B H → Reply (UserHardware S) A → Reply (S2Handlers B H S) A
  on_hardware u r = record {
    state = record { updater = u; hardware = r.state };
    response = r.response;
    value = r.value;
  }

  unfoldable pub memory_diagnostic : List ℕ → Diagnostic (S2Handlers B H S)
  memory_diagnostic request s response =
      if release_flash_encryption && bytes_eq request (memory_protection_request ∷ [])
      then record { state = s; response = services.memory_status; value = some 64 }
      else record { state = s; response = response; value = none }

  unfoldable pub diagnostics :
      S2Handlers B H S → List ℕ → List ℕ → Reply (S2Handlers B H S) (Option ℕ)
  unfolding first_diagnostic_response memory_diagnostic
  diagnostics s request response =
      first_diagnostic_response s response
        (λ s response.
          on_hardware s.updater
            (services.maintenance s.hardware request (current_phase s.updater) response))
        (λ s response.
          on_hardware s.updater
            (services.preview s.hardware request (current_phase s.updater) response))
        (memory_diagnostic request)

  -- The response of `handle` fills the buffer from its start.
  unfoldable pub update : S2Handlers B H S → List ℕ → Bool → List ℕ → Reply (S2Handlers B H S) ℕ
  unfolding handle
  update s request present response =
      let (answer, u) = handle sha back s.updater request present in
      record { state = record s { updater = u }; response = answer; value = length answer }

  unfoldable pub confirm_update : S2Handlers B H S → S2Handlers B H S × Bool
  unfolding confirm_update_user_presence
  confirm_update s =
      let (h, confirmed) = confirm_update_user_presence board fuel s.hardware in
      (record s { hardware = h }, elim confirmed [ none ↦ false | some answer ↦ answer ])

  abbrev pub s2_handlers : Handlers (S2Handlers B H S)
  s2_handlers = record {
    diagnostics = diagnostics;
    security_status =
        λ s response. record { state = s; response = services.security_status; value = 32 };
    update = update;
    confirm_update = confirm_update;
  }
