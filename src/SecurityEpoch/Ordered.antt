-- ===== src/SecurityEpoch/Ordered.antt =====
-- What it takes for src/platform/security_epoch_maintenance.rs to attempt the fuses.
use salpa.Base.{
  ℕ, ◌≡◌, refl, ◌⊎◌, inl, inr, Bool, true, false, not, ◌||◌, Option, none, some, List, [], ◌∷◌,
  ◌==◌, bytes_eq, bytes_eq→eq, some-injective, sym, byte, length, slice, if-cases, option-cases,
  not-false, ap, ◌∙◌, arith,
}
use salpa.SignedImage.Format.{Sha256, digest}
use salpa.SignedImage.Installed.{ImageReader}
use salpa.Ota.Flash.{FlashDriver}
use salpa.UserPresence.Hardware.{Board, UserHardware, confirm_maintenance_user_presence}
use salpa.UsbUpdate.Protocol.{Phase}
use salpa.SecurityEpoch.Transaction.{FuseBackend}
use salpa.SecurityEpoch.Plan.{Images, requested_images}
use salpa.SecurityEpoch.Steps.{step-cases}
use salpa.SecurityEpoch.Qualify.{Chip, Step, ok, Qualified, qualify, same_layout}
use salpa.SecurityEpoch.Maintenance.{
  Maintenance, Outcome, carry_out, after_presence, with_presence, run_request, handle, is_idle,
  program, inspect, rehearse,
}

-- A request that is accepted and is no inspection names the plan and the images.
pub record Bound (request plan_digest : List ℕ) (images : Images) : Type 0 where
  pub whole : length request ≡ 97
  pub plan : slice request 1 33 ≡ plan_digest
  pub first : images.first ≡ slice request 33 65
  pub second : images.second ≡ slice request 65 97

requested_images-some :
    (request plan_digest : List ℕ) (images : Images)
    → requested_images request plan_digest ≡ some (some images)
    → Bound request plan_digest images
unfolding requested_images
requested_images-some request plan_digest images =
    let P : Option (Option Images) → Type 0 =
      λ r. r ≡ some (some images) → Bound request plan_digest images in
    if-cases P (bytes_eq request (0x13 ∷ [])) (λ _ e. absurd (some-none (some-injective _ _ e)))
      (λ _.
        if-cases P
          (not (length request == 97)
            || not (byte request 0 == 0x14 || byte request 0 == 0x15)
            || not (bytes_eq (slice request 1 33) plan_digest))
          (λ _ e. cc)
          (λ ok e.
            let named = some-injective _ _ (some-injective _ _ e) in
            record {
              whole = ground arith;
              plan = bytes_eq→eq _ _ (ground arith);
              first = sym (ap (λ (i : Images). i.first) named);
              second = sym (ap (λ (i : Images). i.second) named);
            }))
  where
    some-none : none ≡ some images → ⊥
    some-none e = cc

requested_images-none :
    (request plan_digest : List ℕ)
    → requested_images request plan_digest ≡ some none
    → (byte request 0 == program) ≡ false
unfolding requested_images
requested_images-none request plan_digest =
    let P : Option (Option Images) → Type 0 =
      λ r. r ≡ some none → (byte request 0 == program) ≡ false in
    if-cases P (bytes_eq request (0x13 ∷ []))
      (λ same _. ap (λ (r : List ℕ). byte r 0 == program) (bytes_eq→eq _ _ same))
      (λ _.
        if-cases P
          (not (length request == 97)
            || not (byte request 0 == 0x14 || byte request 0 == 0x15)
            || not (bytes_eq (slice request 1 33) plan_digest))
          (λ _ e. cc) (λ _ e. absurd (some-some (some-injective _ _ e))))
  where
    some-some : {i : Images} → some i ≡ none → ⊥
    some-some e = cc

module _ {S H : Type 0} (sha : Sha256 H) (flash : FlashDriver S) (encrypted : Bool)
    (reader : ImageReader S) (fuses : FuseBackend S) (board : Board S) (chip : Chip S) where
  abbrev Q : S → ℕ → Option Images → S × Step Qualified
  Q = qualify sha flash encrypted reader fuses board chip

  -- What came before an attempt on the fuses.
  pub record Ordered (fuel : ℕ) (m : Maintenance S) (request : List ℕ) (descriptor : ℕ)
      (phase : Phase) : Type 0 where
    pub quiet : is_idle phase ≡ true
    pub asked : (byte request 0 == program) ≡ true
    pub images : Images
    pub bound : Bound request (digest sha chip.scope) images
    pub before : Qualified
    pub fit : (Q m.hardware.board descriptor (some images)).1 ≡ ok before
    pub held : UserHardware S
    pub starts :
        held ≡ record m.hardware { board = (Q m.hardware.board descriptor (some images)).0 }
    pub approved : (confirm_maintenance_user_presence board fuel held).1 ≡ some true
    pub again : Qualified
    pub still_fit :
        let h = (confirm_maintenance_user_presence board fuel held).0 in
        (Q h.board descriptor (some images)).1 ≡ ok again
    pub unmoved : same_layout before.layout again.layout ≡ true
    pub not_cancelled :
        let h = (confirm_maintenance_user_presence board fuel held).0 in
        (board.cancelled (board.poll_wait (Q h.board descriptor (some images)).0)).1 ≡ false

  module _ (fuel : ℕ) (m : Maintenance S) (request : List ℕ) (descriptor : ℕ) (phase : Phase) where
    abbrev Ends : Maintenance S × Outcome → Type 0
    Ends r = (r.0.attempted ≡ m.attempted) ⊎ Ordered fuel m request descriptor phase

    module _ (images : Images) (bound : Bound request (digest sha chip.scope) images)
        (quiet : is_idle phase ≡ true) (first : Qualified)
        (fit : (Q m.hardware.board descriptor (some images)).1 ≡ ok first) where
      abbrev held : UserHardware S
      held = record m.hardware { board = (Q m.hardware.board descriptor (some images)).0 }

      presence-Ends : Ends (
          with_presence sha flash encrypted reader fuses board chip fuel
            (record m { hardware = held })
            request
            descriptor
            images
            first)
      unfolding with_presence after_presence carry_out
      presence-Ends =
          let (h, approved) = confirm_maintenance_user_presence board fuel held in
          option-cases Ends approved (λ _. inl refl)
            (λ answer yes.
              if-cases Ends (not answer) (λ _. inl refl)
                (λ approves.
                  let (s, again) = Q h.board descriptor (some images) in
                  step-cases Ends again (λ e _. inl refl)
                    (λ second refit.
                      if-cases Ends (not (same_layout first.layout second.layout)) (λ _. inl refl)
                        (λ moved.
                          if-cases Ends (board.cancelled (board.poll_wait s)).1 (λ _. inl refl)
                            (λ going.
                              if-cases Ends (byte request 0 == program)
                                (λ asked. inr (record {
                                  quiet = quiet;
                                  asked = asked;
                                  images = images;
                                  bound = bound;
                                  before = first;
                                  fit = fit;
                                  held = held;
                                  starts = refl;
                                  approved = yes ∙ ap some (not-false answer approves);
                                  again = second;
                                  still_fit = refit;
                                  unmoved = not-false _ moved;
                                  not_cancelled = going;
                                }))
                                (λ _. inl refl))))))

    carry_out-keeps :
        (at : Maintenance S) (q : Qualified)
        → (byte request 0 == program) ≡ false
        → (carry_out sha flash encrypted reader fuses board chip at request q).0.attempted
          ≡ at.attempted
    unfolding carry_out
    carry_out-keeps at q other =
        let P : Maintenance S × Outcome → Type 0 = λ r. r.0.attempted ≡ at.attempted in
        if-cases P (byte request 0 == program) (λ asked. absurd (true-false asked other))
          (λ _. refl)
      where
        true-false : {b : Bool} → b ≡ true → b ≡ false → ⊥
        true-false t f = cc

    qualified-Ends :
        (expected : Option Images)
        → requested_images request (digest sha chip.scope) ≡ some expected
        → is_idle phase ≡ true
        → (first : Qualified) → (Q m.hardware.board descriptor expected).1 ≡ ok first
        → let at = record m {
          hardware = record m.hardware { board = (Q m.hardware.board descriptor expected).0 };
        } in
          Ends (elim expected [
            | none ↦ carry_out sha flash encrypted reader fuses board chip at request first
            | some images ↦
                with_presence sha flash encrypted reader fuses board chip fuel at request descriptor
                  images first
          ])
    qualified-Ends none accepted quiet first fit =
        inl (carry_out-keeps _ first (requested_images-none request _ accepted))
    qualified-Ends (some images) accepted quiet first fit =
        presence-Ends images (requested_images-some request _ images accepted) quiet first fit

    run_request-Ends :
        Ends
          (run_request sha flash encrypted reader fuses board chip fuel m request descriptor phase)
    unfolding run_request
    run_request-Ends =
        if-cases Ends (not (is_idle phase)) (λ _. inl refl)
          (λ busy.
            option-cases Ends (requested_images request (digest sha chip.scope)) (λ _. inl refl)
              (λ expected accepted.
                step-cases Ends (Q m.hardware.board descriptor expected).1 (λ e _. inl refl)
                  (λ first fit. qualified-Ends expected accepted (not-false _ busy) first fit)))

  -- Whatever the request, the latch of the one attempt on the fuses stays as it was, or else the
  -- updater was idle, the request was one to program, of 97 bytes, that names the digest of the
  -- embedded plan and the digests of both images, the device qualified for it, the long hold was
  -- then approved, the device qualified again with the same layout, and the wait hook had not
  -- cancelled.
  pub programming_needs_consent :
      (fuel : ℕ) (m : Maintenance S) (request : List ℕ) (descriptor : ℕ) (phase : Phase)
      → let r =
          handle sha flash encrypted reader fuses board chip fuel m request descriptor phase in
        (r.0.attempted ≡ m.attempted) ⊎ Ordered fuel m request descriptor phase
  unfolding handle
  programming_needs_consent fuel m [] descriptor phase = inl refl
  programming_needs_consent fuel m (first ∷ others) descriptor phase =
      let request = first ∷ others in
      let P : Maintenance S × Option (Option (List ℕ)) → Type 0 =
        λ r. (r.0.attempted ≡ m.attempted) ⊎ Ordered fuel m request descriptor phase in
      if-cases P (not (first == inspect || first == program || first == rehearse)) (λ _. inl refl)
        (λ _. run_request-Ends fuel m request descriptor phase)
