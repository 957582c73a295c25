-- ===== src/UsbUpdate/Confined/Steps.antt =====
-- The steps of a session keep the platform's predicate and the session's sizes.
use salpa.Base.{
  ℕ, ◌+◌, ◌-◌, ◌≤◌, ◌≡◌, min, not, none, List, if-cases, option-cases, arith, length, ◌==◌,
}
use salpa.SignedImage.Format.{Sha256}
use salpa.UsbUpdate.Protocol.{UpdateBackend, verify_step_size}
use salpa.UsbUpdate.Session.{Session}
use salpa.UsbUpdate.Verify.{verify_step, hash_chunk}
use salpa.UsbUpdate.Updater.{write_chunk, erase_step, write_refusal}
use salpa.UsbUpdate.Kept.{Quiet, After, progress-kept}
use salpa.UsbUpdate.Kept.Verify.{finish_verification-kept}
use salpa.UsbUpdate.Kept.Loop.{hash_chunks-kept}
use salpa.UsbUpdate.Confined.{SizedAt, Sized, Keeps}

-- What `write` does not refuse continues the image, inside its size.
pub write_refusal-none :
    {H : Type 0} (s : Session H) (offset : ℕ) (chunk : List ℕ)
    → write_refusal s offset chunk ≡ none
    → (offset ≡ s.completed) × (offset + length chunk ≤ s.total)
unfolding write_refusal
write_refusal-none s offset chunk e = ground arith

module _ {S H : Type 0} (sha : Sha256 H) (back : UpdateBackend S) (running : ℕ) (P : S → Type 0)
    (keeps : Keeps back running P) where
  -- `T` is the size of the image, which no step changes.
  abbrev pub Held : ℕ → S → Session H → Type 0
  Held T b s = P b × Sized running s × (s.total ≡ T)

  at_target : {target : ℕ} (f : ℕ → S) → target ≡ 1 - running → P (f (1 - running)) → P (f target)
  at_target f e p = rw e p

  pub moved :
      {target active total c : ℕ} (d : ℕ)
      → SizedAt running target active total c
      → d ≤ total
      → SizedAt running target active total d
  moved d z l = record {
    targets = z.targets;
    runs = z.runs;
    least = z.least;
    fits = z.fits;
    sectors = z.sectors;
    within = l;
  }

  pub quiet : (T : ℕ) → Quiet back (Held T)
  quiet T = record {
    clock = λ b s k. (keeps.clock b k.0, k.1, k.2);
    layout = λ b s k. (keeps.layout b k.0, k.1, k.2);
    read = λ b s slot at n k. (keeps.read b slot at n k.0, k.1, k.2);
    verify = λ b s key sig d k. (keeps.verify b key sig d k.0, k.1, k.2);
    checked = λ b s t k. k;
    progressed = λ b s t k. k;
    failing = λ b s code k. k;
  }

  pub verify_step-Held :
      (T : ℕ) (trusted : List ℕ) (floor : ℕ) (b : S) (s : Session H)
      → Held T b s
      → After back (Held T) (verify_step sha back trusted floor b s)
  unfolding verify_step hash_chunk
  verify_step-Held T trusted floor b s k =
      let step_end = min (s.completed + verify_step_size) s.total in
      hash_chunks-kept sha back (Held T) (quiet T) trusted floor
        (λ b s e k.
          finish_verification-kept sha back (Held T) (quiet T)
            (λ b s k. (
              at_target (λ slot. (back.activate b slot s.target_sequence s.activation_entry).0)
                  k.1.targets (keeps.activate b _ _ k.0),
              k.1,
              k.2,
            ))
            (λ b s k. k) trusted floor b s k)
        step_end
        (λ b t chunk h e.
          (keeps.read b _ _ _ h.0, moved _ h.1 (omega (arith, h.1.within, h.2, k.2)), h.2))
        (step_end - s.completed) b s k

  pub erase_step-Held :
      (T : ℕ) (b : S) (s : Session H) → Held T b s → After back (Held T) (erase_step sha back b s)
  unfolding erase_step
  erase_step-Held T b s k =
      let count = min (s.total - s.completed) 0x10000 in
      let erased =
        at_target (λ slot. (back.erase b slot s.completed count).0) k.1.targets
          (keeps.erase b s.completed count (omega (arith, k.1.within, k.1.fits)) k.0) in
      if-cases (After back (Held T)) (not (back.erase b s.target_slot s.completed count).1)
        (λ e. (erased, k.1, k.2))
        (λ e. progress-kept back (Held T) (quiet T) _ _ (
          if-cases (Held T (back.erase b s.target_slot s.completed count).0)
            (s.completed + count == s.total) (λ e. (erased, moved 0 k.1 (omega arith), k.2))
            (λ e. (erased, moved _ k.1 (omega (arith, k.1.within)), k.2))))

  pub write_chunk-Held :
      (T offset : ℕ) (chunk : List ℕ) (b : S) (s : Session H)
      → Held T b s
      → After back (Held T) (write_chunk sha back offset chunk b s)
  unfolding write_chunk
  write_chunk-Held T offset chunk b s k =
      option-cases (After back (Held T)) (write_refusal s offset chunk)
        (λ e.
          let inside = write_refusal-none s offset chunk e in
          let written =
            at_target (λ slot. (back.write b slot offset chunk).0) k.1.targets
              (keeps.write b offset chunk (omega (arith, inside, k.1.fits)) k.0) in
          if-cases (After back (Held T)) (not (back.write b s.target_slot offset chunk).1)
            (λ e. (written, k.1, k.2))
            (λ e.
              progress-kept back (Held T) (quiet T) _
                (record s { completed = offset + length chunk })
                (written, moved _ k.1 inside.1, k.2)))
        (λ code e. k)
