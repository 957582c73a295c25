-- ===== src/Base/Words.antt =====
-- Bytes and 32-bit words: little and big endian, masks by tables over a byte.
use Prim.Native.Nat.{ℕ, zero, suc, ◌+◌, ◌-◌, ◌*◌, ◌/◌, ◌%◌, ◌<◌, bit_and}
use mathlib.Core.Path.{◌≡◌, refl}
use mathlib.Core.Bool.{Bool, true, false}
use mathlib.Core.List.{List, [], ◌∷◌}
use mathlib.Core.Option.{Option, none, some}
use native.Mathlib.Omega.{arith}
use mathlib.Core.Logic.{◌⊎◌, inl, inr}
use salpa.Base.Booleans.{Bool-cases, ◌==◌, ==_iff, ltb, if◌then◌else◌}
use salpa.Base.Lists.{get_or}

abbrev pub u32_mod : ℕ
u32_mod = 4294967296

-- `u32::to_be_bytes`, `u32::to_le_bytes`, `u16::to_be_bytes`
abbrev pub u32_be_bytes : ℕ → List ℕ
u32_be_bytes v = (v / 16777216 % 256) ∷ (v / 65536 % 256) ∷ (v / 256 % 256) ∷ (v % 256) ∷ []

abbrev pub u32_le_bytes : ℕ → List ℕ
u32_le_bytes v = (v % 256) ∷ (v / 256 % 256) ∷ (v / 65536 % 256) ∷ (v / 16777216 % 256) ∷ []

abbrev pub u16_be_bytes : ℕ → List ℕ
u16_be_bytes v = (v / 256 % 256) ∷ (v % 256) ∷ []

-- `u32::from_be_bytes` and its kin, on the four (two) bytes.
abbrev pub u32_from_be : ℕ → ℕ → ℕ → ℕ → ℕ
u32_from_be a b c d = a * 16777216 + b * 65536 + c * 256 + d

abbrev pub u32_from_le : ℕ → ℕ → ℕ → ℕ → ℕ
u32_from_le a b c d = a + b * 256 + c * 65536 + d * 16777216

-- The byte at an index that the code has checked.
abbrev pub byte : List ℕ → ℕ → ℕ
byte xs i = get_or xs i 0

-- The elements of a byte string are bytes.
abbrev pub AllBytes : List ℕ → Type 0
AllBytes [] = Unit
AllBytes (x ∷ xs) = (x < 256) × AllBytes xs

pub byte-lt : (xs : List ℕ) (i : ℕ) → AllBytes xs → byte xs i < 256
byte-lt [] i h = omega arith
byte-lt (x ∷ xs) zero h = h.0
byte-lt (x ∷ xs) (suc i) h = byte-lt xs i h.1

-- `u32::from_le_bytes(xs[i..i + 4])`
abbrev pub read_u32_le : List ℕ → ℕ → ℕ
read_u32_le xs i = u32_from_le (byte xs i) (byte xs (i + 1)) (byte xs (i + 2)) (byte xs (i + 3))

-- `u32::wrapping_sub`
abbrev pub u32_wrapping_sub : ℕ → ℕ → ℕ
u32_wrapping_sub a b = (a + u32_mod - b) % u32_mod

-- Whether a test passes at every number under a bound.
pub passes_under : (ℕ → Bool) → ℕ → Bool
passes_under test zero = true
passes_under test (suc bound) = if passes_under test bound then test bound else false

eq_or_lt : (x b : ℕ) → x < suc b → (x ≡ b) ⊎ (x < b)
eq_or_lt x b l = ground arith

pub passes_under_lem :
    (test : ℕ → Bool) (bound : ℕ)
    → passes_under test bound ≡ true
    → (x : ℕ) → x < bound
    → test x ≡ true
unfolding passes_under
passes_under_lem test zero h x l = absurd (omega arith)
passes_under_lem test (suc bound) h x l = elim (Bool-cases (passes_under test bound)) [
  | inl below ↦ elim (eq_or_lt x bound (omega arith)) [
    | inl e ↦ grind arith
    | inr l ↦ passes_under_lem test bound below x l
  ]
  | inr below ↦ ground arith
]

above_half : passes_under (λ x. bit_and x 0x80 == (if ltb x 128 then 0 else 128)) 256 ≡ true
unfolding passes_under
above_half = refl

-- The top bit of a byte tells whether it is 128 at least.
pub bit_and_top : (x : ℕ) → x < 256 → bit_and x 0x80 ≡ (if ltb x 128 then 0 else 128)
bit_and_top x h = (==_iff _ _).0 (passes_under_lem _ 256 above_half x h)

pub u32_be_round :
    (v : ℕ)
    → v < u32_mod
    → u32_from_be (v / 16777216 % 256) (v / 65536 % 256) (v / 256 % 256) (v % 256) ≡ v
u32_be_round v h = omega arith

-- `u32::checked_add`
abbrev pub u32_checked_add : ℕ → ℕ → Option ℕ
u32_checked_add a b = if ltb (a + b) u32_mod then some (a + b) else none
