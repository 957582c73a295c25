-- ===== src/Tests/Image.antt =====
-- A signed image of two sectors for the tests, with a checksum in the place of SHA-256.
use salpa.Base.{ℕ, ◌+◌, ◌%◌, List, [], ◌∷◌, ◌++◌, replicate, ◌≡◌, refl, ap}
use salpa.SignedImage.Streams.{Streaming}
use salpa.SignedImage.Format.{Sha256, esp_crc32_le}

abbrev sum : List ℕ → ℕ
sum [] = 0
sum (x ∷ xs) = x + sum xs

-- The state is what was hashed, the digest 32 times the sum of its bytes.
abbrev pub checksum : Sha256 (List ℕ)
checksum = record {
  initial = [];
  update = λ h xs. h ++ xs;
  finalize = λ h. replicate 32 (sum h % 256);
}

append-nil : (xs : List ℕ) → xs ++ [] ≡ xs
append-nil [] = refl
append-nil (x ∷ xs) = ap (λ l. x ∷ l) (append-nil xs)

append_assoc : (xs ys zs : List ℕ) → (xs ++ ys) ++ zs ≡ xs ++ (ys ++ zs)
append_assoc [] ys zs = refl
append_assoc (x ∷ xs) ys zs = ap (λ l. x ∷ l) (append_assoc xs ys zs)

pub checksum_streams : Streaming checksum
checksum_streams = record { nothing = append-nil; pieces = append_assoc }

abbrev pub header : List ℕ
header =
    0xe9 ∷ 1 ∷ replicate 10 0
    ++ (2 ∷ 0 ∷ replicate 9 0)
    ++ (1 ∷ 0 ∷ 0 ∷ 0 ∷ 0 ∷ 0 ∷ 1 ∷ 0 ∷ 0 ∷ [])
    ++ (0x32 ∷ 0x54 ∷ 0xcd ∷ 0xab ∷ 4 ∷ replicate 11 0)
    ++ (55 ∷ 46 ∷ 49 ∷ replicate 29 0)

abbrev pub signed_block : List ℕ
signed_block = 0xe7 ∷ 2 ∷ 0 ∷ 0 ∷ replicate 32 (sum header % 256) ++ replicate 1160 0

-- The image, with the CRC of its signature block.
abbrev pub image : List ℕ
image = header ++ replicate 4016 0 ++ signed_block ++ (199 ∷ 40 ∷ 209 ∷ 58 ∷ []) ++ replicate 2896 0

abbrev pub trusted : List ℕ
trusted = replicate 32 0

check_value : esp_crc32_le 0 (49 ∷ 50 ∷ 51 ∷ 52 ∷ 53 ∷ 54 ∷ 55 ∷ 56 ∷ 57 ∷ []) ≡ 0xcbf43926
unfolding esp_crc32_le
check_value = refl

block_crc : esp_crc32_le 0 signed_block ≡ 986785991
unfolding esp_crc32_le
block_crc = refl
