-- ===== src/Base/Bits.antt =====
-- `&` and `|` digit by digit, and the words that `(previous & !mask) | (value & mask)` makes.
use Prim.Native.Nat.{
  ℕ, zero, suc, ◌+◌, ◌-◌, ◌*◌, ◌/◌, ◌%◌, ◌≤◌, ◌<◌, min, max, bit_and, bit_or, digits, bitwise,
  bit_and-bitwise, bit_or-bitwise,
}
use mathlib.Core.Path.{◌≡◌, refl, ap, ap₂, sym, ◌∙◌}
use native.Mathlib.Decide.{dec_lt}
use native.Mathlib.Omega.{arith}

-- A unit of fuel more than needed changes nothing, and so neither does any amount.
one_more :
    (low : ℕ → ℕ) (bit : ℕ → ℕ → ℕ) (fuel x y : ℕ)
    → x ≤ fuel
    → digits low bit (suc fuel) x y ≡ digits low bit fuel x y
one_more low bit zero zero y l = refl
one_more low bit (suc fuel) zero y l = refl
one_more low bit zero (suc x) y l = absurd (omega arith)
one_more low bit (suc fuel) (suc x) y l =
    ap (λ (t : ℕ). t * 2 + bit (suc x % 2) (y % 2))
      (one_more low bit fuel (suc x / 2) (y / 2) (omega arith))

enough :
    (low : ℕ → ℕ) (bit : ℕ → ℕ → ℕ) (fuel x y : ℕ)
    → x ≤ fuel
    → digits low bit fuel x y ≡ bitwise low bit x y
enough low bit zero x y l = let none_left : x ≡ 0 = omega arith in rw none_left
enough low bit (suc fuel) x y l = elim (dec_lt fuel x) [
  | yes full ↦ let same : x ≡ suc fuel = omega arith in rw same
  | no left ↦ one_more low bit fuel x y (omega arith) ∙ enough low bit fuel x y (omega arith)
]

halved :
    (low : ℕ → ℕ) (bit : ℕ → ℕ → ℕ) (x y : ℕ)
    → bitwise low bit (suc x) y ≡ bitwise low bit (suc x / 2) (y / 2) * 2 + bit (suc x % 2) (y % 2)
halved low bit x y =
    ap (λ (t : ℕ). t * 2 + bit (suc x % 2) (y % 2))
      (enough low bit x (suc x / 2) (y / 2) (omega arith))

bit_or_nonzero :
    (x y : ℕ) → bit_or (suc x) y ≡ bit_or (suc x / 2) (y / 2) * 2 + max (suc x % 2) (y % 2)
bit_or_nonzero x y =
    rw (bit_or-bitwise (suc x) y, bit_or-bitwise (suc x / 2) (y / 2)) (halved _ max x y)

bit_and_nonzero :
    (x y : ℕ) → bit_and (suc x) y ≡ bit_and (suc x / 2) (y / 2) * 2 + min (suc x % 2) (y % 2)
bit_and_nonzero x y =
    rw (bit_and-bitwise (suc x) y, bit_and-bitwise (suc x / 2) (y / 2)) (halved _ min x y)

-- The lowest digit of a word, and the others.
pub bit_or_step : (x y : ℕ) → bit_or x y ≡ bit_or (x / 2) (y / 2) * 2 + max (x % 2) (y % 2)
bit_or_step zero y = omega (arith, bit_or-bitwise 0 y, bit_or-bitwise 0 (y / 2))
bit_or_step (suc x) y = bit_or_nonzero x y

pub bit_and_step : (x y : ℕ) → bit_and x y ≡ bit_and (x / 2) (y / 2) * 2 + min (x % 2) (y % 2)
bit_and_step zero y = omega (arith, bit_and-bitwise 0 y, bit_and-bitwise 0 (y / 2))
bit_and_step (suc x) y = bit_and_nonzero x y

under_zero : (bound x : ℕ) → x < bound → bit_and x 0 ≡ 0
under_zero zero x l = absurd (omega arith)
under_zero (suc bound) zero l = refl
under_zero (suc bound) (suc x) l =
    let rest = under_zero bound (suc x / 2) (omega arith) in
    omega (arith, bit_and_step (suc x) 0, rest)

pub bit_and-zero : (x : ℕ) → bit_and x 0 ≡ 0
bit_and-zero x = under_zero (suc x) x (omega arith)

-- One more than the largest number of so many bits.
unfoldable pub words_of : ℕ → ℕ
words_of zero = 1
words_of (suc n) = 2 * words_of n

pub words_of-pos : (n : ℕ) → 0 < words_of n
unfolding words_of
words_of-pos zero = omega arith
words_of-pos (suc n) = omega (arith, words_of-pos n)

-- A mask of ones keeps what fits it.
pub bit_and-ones : (n a : ℕ) → a < words_of n → bit_and a (words_of n - 1) ≡ a
unfolding words_of
bit_and-ones zero a l = omega (arith, bit_and-zero a)
bit_and-ones (suc n) a l =
    let h = words_of-pos n in
    let half : (2 * words_of n - 1) / 2 ≡ words_of n - 1 = omega (arith, h) in
    let odd : (2 * words_of n - 1) % 2 ≡ 1 = omega (arith, h) in
    let step = bit_and_step a (2 * words_of n - 1) in
    let rest : bit_and (a / 2) ((2 * words_of n - 1) / 2) ≡ a / 2 =
      ap (bit_and (a / 2)) half ∙ bit_and-ones n (a / 2) (omega arith) in
    omega (arith, step, rest, odd)

pub bit_and-one : (word : ℕ) → bit_and word 1 ≡ word % 2
bit_and-one word = let rest = bit_and-zero (word / 2) in omega (arith, bit_and_step word 1, rest)

pub bit_and_three : (a : ℕ) → bit_and a 3 ≡ a % 4
bit_and_three a = omega (arith, bit_and_step a 3, bit_and-one (a / 2))

pub bit_and_seven : (a : ℕ) → bit_and a 7 ≡ a % 8
bit_and_seven a = omega (arith, bit_and_step a 7, bit_and_three (a / 2))

-- The lowest digits of a mask, its complement, and the words that they pick from.
digit_under :
    (p v m c : ℕ)
    → p ≤ 1
    → v ≤ 1
    → m ≤ 1
    → c ≡ 1 - m
    → (min (max (min p c) (min v m)) m ≡ min v m) × (min (max (min p c) (min v m)) c ≡ min p c)
digit_under p v m c hp hv hm hc = ground arith

halves : (a b x y : ℕ) → a ≡ b * 2 + x → x ≤ 1 → (a / 2 ≡ b) × (a % 2 ≡ x)
halves a b x y e l = omega arith

-- The bits under the mask are the value's, the others the previous word's.
pub merge :
    (n p v m : ℕ)
    → m < words_of n
    → let r = bit_or (bit_and p (words_of n - 1 - m)) (bit_and v m) in
      (bit_and r m ≡ bit_and v m)
      × (bit_and r (words_of n - 1 - m) ≡ bit_and p (words_of n - 1 - m))
unfolding words_of
merge zero p v zero l =
    (bit_and-zero _ ∙ sym (bit_and-zero v), bit_and-zero _ ∙ sym (bit_and-zero p))
merge zero p v (suc m) l = absurd (omega arith)
merge (suc n) p v m l =
    let w = words_of-pos n in
    let c = 2 * words_of n - 1 - m in
    let c' = words_of n - 1 - m / 2 in
    let half : c / 2 ≡ c' = omega arith in
    let low : c % 2 ≡ 1 - m % 2 = omega arith in
    let a = bit_and p c in
    let b = bit_and v m in
    let a' = bit_and (p / 2) c' in
    let b' = bit_and (v / 2) (m / 2) in
    let a_step : a ≡ a' * 2 + min (p % 2) (c % 2) =
      omega (arith, bit_and_step p c, ap (bit_and (p / 2)) half) in
    let b_step : b ≡ b' * 2 + min (v % 2) (m % 2) = bit_and_step v m in
    let a_parts : (a / 2 ≡ a') × (a % 2 ≡ min (p % 2) (c % 2)) =
      halves a a' _ 0 a_step (omega arith) in
    let b_parts : (b / 2 ≡ b') × (b % 2 ≡ min (v % 2) (m % 2)) =
      halves b b' _ 0 b_step (omega arith) in
    let r = bit_or a b in
    let r_step : r ≡ bit_or a' b' * 2 + max (a % 2) (b % 2) =
      omega (arith, bit_or_step a b, ap₂ bit_or a_parts.0 b_parts.0) in
    let r_parts : (r / 2 ≡ bit_or a' b') × (r % 2 ≡ max (a % 2) (b % 2)) =
      halves r (bit_or a' b') _ 0 r_step (omega arith) in
    let ih = merge n (p / 2) (v / 2) (m / 2) (omega arith) in
    let under =
      digit_under (p % 2) (v % 2) (m % 2) (c % 2) (omega arith) (omega arith) (omega arith) low in
    let digit : r % 2 ≡ max (min (p % 2) (c % 2)) (min (v % 2) (m % 2)) =
      r_parts.1 ∙ ap₂ max a_parts.1 b_parts.1 in
    let value_rest : bit_and (r / 2) (m / 2) ≡ b' =
      ap (λ (x : ℕ). bit_and x (m / 2)) r_parts.0 ∙ ih.0 in
    let kept_rest : bit_and (r / 2) (c / 2) ≡ a' = ap₂ bit_and r_parts.0 half ∙ ih.1 in
    let value_digit : min (r % 2) (m % 2) ≡ min (v % 2) (m % 2) =
      ap (λ (x : ℕ). min x (m % 2)) digit ∙ under.0 in
    let kept_digit : min (r % 2) (c % 2) ≡ min (p % 2) (c % 2) =
      ap (λ (x : ℕ). min x (c % 2)) digit ∙ under.1 in
    (
      bit_and_step r m ∙ ap₂ (λ (x y : ℕ). x * 2 + y) value_rest value_digit ∙ sym b_step,
      bit_and_step r c ∙ ap₂ (λ (x y : ℕ). x * 2 + y) kept_rest kept_digit ∙ sym a_step,
    )
