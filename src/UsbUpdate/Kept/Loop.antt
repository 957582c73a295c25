-- ===== src/UsbUpdate/Kept/Loop.antt =====
-- The loop of `verify_step` keeps a relation that hashing a chunk and the final checks keep.
use salpa.Base.{
  arith, ℕ, zero, suc, List, not, some, if-cases, option-cases, ltb, match-cases, ◌==◌, ◌≡◌, ◌-◌,
  min, ==_iff,
}
use salpa.SignedImage.Format.{Sha256}
use salpa.UsbUpdate.Protocol.{UpdateBackend, flash}
use salpa.UsbUpdate.Session.{Session, Outcome}
use salpa.UsbUpdate.Verify.{
  finish_verification, conclude_step, end_step, hash_chunk, read_chunk, hash_chunks,
}
use salpa.UsbUpdate.Kept.{After, Quiet, while_live-kept, progress-kept}

module _ {S H : Type 0} (sha : Sha256 H) (back : UpdateBackend S) (K : S → Session H → Type 0)
    (q : Quiet back K) (trusted : List ℕ) (floor : ℕ)
    (finishing : (b : S) (s : Session H)
      → s.completed ≡ s.total
      → K b s
      → After back K (finish_verification sha back trusted floor b s)) where
  conclude_step-kept :
      (b : S) (s : Session H) → K b s → After back K (conclude_step sha back trusted floor b s)
  unfolding conclude_step
  conclude_step-kept b s k =
      if-cases (After back K) (not (s.completed == s.total)) (λ e. progress-kept back K q b s k)
        (λ e. finishing b s ((==_iff _ _).0 (ground arith)) k)

  end_step-kept :
      (b : S) (s : Session H) → K b s → After back K (end_step sha back trusted floor b s)
  unfolding end_step
  end_step-kept b s k =
      while_live-kept back K q b s (conclude_step sha back trusted floor) k (conclude_step-kept)

  -- Hashing a chunk that was read keeps the relation too, where a turn of the loop may do it.
  module _ (step_end : ℕ)
      (hashing : (b : S) (s : Session H) (chunk : List ℕ)
        → K b s
        → let count = min (step_end - s.completed) 1024 in
          (back.reader.read b s.target_slot s.completed count).1 ≡ some chunk
          → K
              (back.reader.read b s.target_slot s.completed count).0
              (hash_chunk sha back s chunk count)) where
    read_chunk-kept :
        (b : S) (s : Session H) (f : S → Session H → Outcome S H)
        → K b s
        → ((b : S) (s : Session H) → K b s → After back K (f b s))
        → After back K (read_chunk sha back step_end f b s)
    unfolding read_chunk
    read_chunk-kept b s f k next =
        option-cases (After back K)
          (back.reader.read b s.target_slot s.completed (min (step_end - s.completed) 1024)).1
          (λ e. q.failing _ s flash (q.read b s _ _ _ k))
          (λ chunk e. next _ _ (hashing b s chunk k e))

    pub hash_chunks-kept :
        (fuel : ℕ) (b : S) (s : Session H)
        → K b s
        → After back K (hash_chunks sha back fuel trusted floor step_end b s)
    unfolding hash_chunks
    hash_chunks-kept zero b s k = end_step-kept b s k
    hash_chunks-kept (suc fuel) b s k =
        match-cases (After back K) (ltb s.completed step_end)
          (λ e.
            while_live-kept back K q b s
              (read_chunk sha back step_end (hash_chunks sha back fuel trusted floor step_end)) k
              (λ b s k.
                read_chunk-kept b s (hash_chunks sha back fuel trusted floor step_end) k
                  (hash_chunks-kept fuel)))
          (λ e. end_step-kept b s k)
