-- ===== src/UsbUpdate/Authentic/Steps.antt =====
-- The steps of an update in src/usb_update.rs keep the hashers in step with the target slot.
use salpa.Base.{
  ℕ, ◌+◌, ◌-◌, ◌≡◌, refl, sym, subst, min, true, false, not, none, List, arith, if-cases,
  option-cases, length, ◌==◌,
}
use salpa.SignedImage.Format.{Sha256}
use salpa.UsbUpdate.Protocol.{
  UpdateBackend, Phase, receiving, verifying, erasing, idle, activated, failed, verify_step_size,
}
use salpa.UsbUpdate.Session.{Session, Outcome}
use salpa.UsbUpdate.Verify.{verify_step, hash_chunk}
use salpa.UsbUpdate.Updater.{
  is_receiving, is_activated, write_refusal, store_chunk, write_chunk, erase_step, advance_phase,
}
use salpa.UsbUpdate.Kept.{Quiet, After, progress-kept}
use salpa.UsbUpdate.Kept.Loop.{hash_chunks-kept}
use salpa.SignedImage.Streams.{Streaming}
use salpa.UsbUpdate.Authentic.{Flash, Approved, HashedAt, is_verifying}
use salpa.UsbUpdate.Authentic.Hashing.{hash_nothing, hash_chunk-HashedAt}
use salpa.UsbUpdate.Authentic.Checks.{Sound, Here, still, quiet, finish_verification-Here}

module _ {S H : Type 0} (sha : Sha256 H) (streaming : Streaming sha) (back : UpdateBackend S)
    (contents : S → ℕ → List ℕ) (Genuine : List ℕ → List ℕ → List ℕ → Type 0)
    (holds : Flash back contents Genuine) (key : List ℕ) (floor : ℕ) where
  abbrev pub SoundHere : S → Session H → Type 0
  SoundHere = Here sha back contents Genuine holds key floor

  pub quiet_here : Quiet back SoundHere
  quiet_here = quiet sha back contents Genuine holds key floor

  pub verify_step-Here :
      (b : S) (s : Session H)
      → SoundHere b s
      → After back SoundHere (verify_step sha back key floor b s)
  unfolding verify_step hash_chunk
  verify_step-Here b s k =
      let step_end = min (s.completed + verify_step_size) s.total in
      hash_chunks-kept sha back SoundHere quiet_here key floor
        (finish_verification-Here sha back contents Genuine holds key floor) step_end
        (λ b t chunk h e.
          let count = min (step_end - t.completed) 1024 in
          still sha back contents Genuine holds key floor
            (λ i.
              Sound sha back contents Genuine holds key floor i (hash_chunk sha back t chunk count))
            (holds.read b t.target_slot t.target_slot t.completed count)
            (
              hash_chunk-HashedAt sha streaming back t (contents b t.target_slot) chunk count
                  (holds.reads b t.target_slot t.completed count chunk e) h.0,
              h.1,
            ))
        (step_end - s.completed) b s k

  -- What holds of a session between requests: the hashers of a verification are those of the
  -- target slot, and an activated image is approved.
  abbrev pub Settled : List ℕ → Session H → Type 0
  Settled image s =
      (is_verifying s.phase ≡ true
        → HashedAt sha image s.total s.completed s.full_hasher s.signed_hasher)
      × (is_activated s.phase ≡ true
          → Approved sha Genuine key floor image s.total s.expected_hash s.expected_secure_version
              s.expected_version)

  abbrev pub SettledHere : S → Session H → Type 0
  SettledHere b s = Settled (contents b s.target_slot) s

  pub quiet_settled : Quiet back SettledHere
  quiet_settled = record {
    clock = λ b s k. subst (λ i. Settled i s) (sym (holds.clock b s.target_slot)) k;
    layout = λ b s k. subst (λ i. Settled i s) (sym (holds.layout b s.target_slot)) k;
    read =
        λ b s slot at n k. subst (λ i. Settled i s) (sym (holds.read b s.target_slot slot at n)) k;
    verify =
        λ b s pk sig d k. subst (λ i. Settled i s) (sym (holds.verify b s.target_slot pk sig d)) k;
    checked = λ b s t k. k;
    progressed = λ b s t k. k;
    failing = λ b s code k. (λ e. cc, λ e. cc);
  }

  -- A session that neither verifies nor is activated claims nothing.
  abbrev pub Plain : S → Session H → Type 0
  Plain b s = (is_verifying s.phase ≡ false) × (is_activated s.phase ≡ false)

  pub quiet-Plain : Quiet back Plain
  quiet-Plain = record {
    clock = λ b s k. k;
    layout = λ b s k. k;
    read = λ b s slot at n k. k;
    verify = λ b s pk sig d k. k;
    checked = λ b s t k. k;
    progressed = λ b s t k. k;
    failing = λ b s code k. (refl, refl);
  }

  pub Plain-After : (o : Outcome S H) → After back Plain o → After back SettledHere o
  Plain-After o k = (λ e. cc, λ e. cc)

  pub verify_step-Settled :
      (b : S) (s : Session H)
      → HashedAt sha (contents b s.target_slot) s.total s.completed s.full_hasher s.signed_hasher
      → is_activated s.phase ≡ false
      → After back SettledHere (verify_step sha back key floor b s)
  verify_step-Settled b s h n = let k = verify_step-Here b s (h, λ e. cc) in (λ e. k.0, k.1)

  pub erase_step-Plain :
      (b : S) (s : Session H) → Plain b s → After back Plain (erase_step sha back b s)
  unfolding erase_step
  erase_step-Plain b s k =
      let count = min (s.total - s.completed) 0x10000 in
      let b' = (back.erase b s.target_slot s.completed count).0 in
      if-cases (After back Plain) (not (back.erase b s.target_slot s.completed count).1)
        (λ e. (refl, refl))
        (λ e.
          progress-kept back Plain quiet-Plain _ _
            (if-cases (Plain b') (s.completed + count == s.total) (λ e. (refl, refl)) (λ e. k)))

  pub receiving_only :
      (p : Phase) → is_receiving p ≡ true → (is_verifying p ≡ false) × (is_activated p ≡ false)
  receiving_only receiving e = (refl, refl)
  receiving_only idle e = cc
  receiving_only erasing e = cc
  receiving_only verifying e = cc
  receiving_only activated e = cc
  receiving_only failed e = cc

  pub write_refusal-receiving :
      (s : Session H) (offset : ℕ) (chunk : List ℕ)
      → write_refusal s offset chunk ≡ none
      → is_receiving s.phase ≡ true
  unfolding write_refusal
  write_refusal-receiving s offset chunk e = ground arith

  pub store_chunk-Plain :
      (offset : ℕ) (chunk : List ℕ) (b : S) (s : Session H)
      → Plain b s
      → After back Plain (store_chunk sha back offset chunk b s)
  unfolding store_chunk
  store_chunk-Plain offset chunk b s k =
      if-cases (After back Plain) (not (back.write b s.target_slot offset chunk).1)
        (λ e. (refl, refl))
        (λ e.
          progress-kept back Plain quiet-Plain _ (record s { completed = offset + length chunk }) k)

  pub write_chunk-Settled :
      (offset : ℕ) (chunk : List ℕ) (b : S) (s : Session H)
      → SettledHere b s
      → After back SettledHere (write_chunk sha back offset chunk b s)
  unfolding write_chunk
  write_chunk-Settled offset chunk b s k =
      option-cases (After back SettledHere) (write_refusal s offset chunk)
        (λ e. Plain-After (store_chunk sha back offset chunk b s) (
          store_chunk-Plain offset chunk b s
            (receiving_only s.phase (write_refusal-receiving s offset chunk e))))
        (λ code e. k)

  pub advance_phase-Settled :
      (phase : Phase) (b : S) (s : Session H)
      → s.phase ≡ phase
      → SettledHere b s
      → After back SettledHere (advance_phase sha back phase key floor b s)
  unfolding advance_phase
  advance_phase-Settled erasing b s e k =
      Plain-After (erase_step sha back b s) (erase_step-Plain b s (cc, cc))
  advance_phase-Settled receiving b s e k =
      if-cases (After back SettledHere) (not (s.completed == s.total)) (λ e. k)
        (λ e.
          verify_step-Settled b
            (record s {
              phase = verifying;
              completed = 0;
              full_hasher = sha.initial;
              signed_hasher = sha.initial;
            })
            (hash_nothing sha streaming (contents b s.target_slot) s.total) refl)
  advance_phase-Settled verifying b s e k = verify_step-Settled b s (k.0 cc) cc
  advance_phase-Settled activated b s e k = k
  advance_phase-Settled failed b s e k = k
  advance_phase-Settled idle b s e k = k
