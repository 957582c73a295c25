-- ===== src/CtapHid/Frames.antt =====
-- The CTAPHID framing of a message, written down from its layout and not from src/ctaphid.rs: one
-- initial packet with up to 57 bytes, continuation packets with up to 59 bytes each, padded by 0.
-- The children prove that the engine sends these packets, and that it understands them.
pub mod Packets
pub mod Sending
pub mod Start
pub mod Continuing
pub mod Receiving
use salpa.Base.{
  ℕ, zero, suc, ◌+◌, ◌<◌, ◌≡◌, refl, arith, List, [], ◌∷◌, ◌++◌, length, take, drop, replicate,
  write_at, u32_be_bytes, u16_be_bytes,
}
use salpa.CtapHid.Protocol.{Command, code}

abbrev pub pad : ℕ → List ℕ → List ℕ
pad n xs = write_at 0 xs (replicate n 0)

-- The top bit of the fifth byte marks an initial packet; a command's code is below it.
abbrev pub init_frame : ℕ → Command → ℕ → List ℕ → List ℕ
init_frame channel command total part =
    u32_be_bytes channel ++ (code command + 128) ∷ (u16_be_bytes total ++ pad 57 part)

abbrev pub cont_frame : ℕ → ℕ → List ℕ → List ℕ
cont_frame channel sequence part = u32_be_bytes channel ++ sequence ∷ pad 59 part

-- The continuation packets for `rest`, of which there are `n` at most.
unfoldable pub cont_frames : ℕ → ℕ → ℕ → List ℕ → List (List ℕ)
cont_frames zero channel sequence rest = []
cont_frames (suc n) channel sequence [] = []
cont_frames (suc n) channel sequence (x ∷ rest) =
    cont_frame channel sequence (take 59 (x ∷ rest))
    ∷ cont_frames n channel (sequence + 1) (drop 59 (x ∷ rest))

pub cont_frames-nil : (n channel sequence : ℕ) → cont_frames n channel sequence [] ≡ []
unfolding cont_frames
cont_frames-nil zero channel sequence = refl
cont_frames-nil (suc n) channel sequence = refl

pub cont_frames-step :
    (n channel sequence : ℕ) (rest : List ℕ)
    → 0 < length rest
    → cont_frames (suc n) channel sequence rest
      ≡ cont_frame channel sequence (take 59 rest)
        ∷ cont_frames n channel (sequence + 1) (drop 59 rest)
unfolding cont_frames
cont_frames-step n channel sequence [] h = absurd (omega arith)
cont_frames-step n channel sequence (x ∷ rest) h = refl

unfoldable pub frames : ℕ → Command → List ℕ → List (List ℕ)
frames channel command message =
    init_frame channel command (length message) (take 57 message)
    ∷ cont_frames (length message) channel 0 (drop 57 message)
