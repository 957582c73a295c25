-- ===== src/Tests/Store.antt =====
-- The credential store of src/platform/storage.rs on encrypted flash.
use salpa.Base.{ℕ, ◌≡◌, refl, inl, true, some, List, [], ◌∷◌, replicate, arith}
use salpa.FlashEncryption.Driver
use salpa.FlashEncryption.Driver.{Device}
use salpa.Storage.Partition.{NorFlash, ok, write}
use salpa.Storage.Confined.{Precise, Request, writing, erasing, reading, serve_all, store_confined}
use salpa.Tests.Encryption.{Chip, rom, rom-Faithful}

abbrev nor : NorFlash Chip
nor = record {
  read = λ b at n. (b, some (replicate n 0));
  write = λ b at bytes. (b, true);
  erase = λ b start end. (b, true);
}

abbrev cells : Chip → ℕ → ℕ
cells b = b.cells

abbrev window : Chip → ℕ
window b = b.window

precise : Precise nor cells
precise = record {
  read = λ b at n x. refl;
  write = λ b at bytes x o. refl;
  erase = λ b start count x o. refl;
}

abbrev store : Device Chip
store = record { initialized = true; chip = record { cells = λ x. 5; window = 0x20000 } }

abbrev requests : List Request
requests =
    writing 0 (replicate 32 9) ∷ erasing 4096 4096 ∷ reading 0 32 ∷ writing 131072 (1 ∷ []) ∷ []

writes : (write rom nor true store 0 (replicate 32 9)).1 ≡ ok 32
unfolding write Driver.write
writes = refl

store_confined_example : (serve_all rom nor true store requests).chip.cells 0x10000 ≡ 5
store_confined_example =
    store_confined rom nor true cells window rom-Faithful precise 0x10000 (inl (omega arith)) store
      requests
