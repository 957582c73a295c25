-- ===== src/SecurityEpoch/Bits.antt =====
-- The bits of the counter that `prepare` of src/platform/security_epoch.rs picks.
use salpa.Base.{
  ℕ, zero, suc, ◌+◌, ◌-◌, ◌*◌, ◌/◌, ◌%◌, ◌≤◌, ◌<◌, ◌≡◌, min, true, ◌&&◌, List, ltb, ◌==◌,
  if◌then◌else◌, arith, ◌⊎◌, inl, inr, ap, sym, subst, ==_iff,
}
use salpa.SecurityEpoch.Policy.{has_bit, count_ones, free_bits, secure_version_raw}

pub count_ones-le : (n x : ℕ) → count_ones n x ≤ n
unfolding count_ones
count_ones-le zero x = omega arith
count_ones-le (suc n) x = omega (arith, count_ones-le n (x / 2))

-- What one turn of the loop picks, and how many bits it leaves to pick.
abbrev pub low : ℕ → ℕ → ℕ
low x r = if x % 2 == 0 && ltb 0 r then 1 else 0

abbrev pub rest : ℕ → ℕ → ℕ
rest x r = if x % 2 == 0 && ltb 0 r then r - 1 else r

pub picked :
    (x r : ℕ)
    → ((x % 2 ≡ 0) × (0 < r) × (low x r ≡ 1) × (rest x r ≡ r - 1))
      ⊎ ((low x r ≡ 0) × (rest x r ≡ r) × ((x % 2 ≡ 1) ⊎ (r ≡ 0)))
picked x r = ground arith

pub half : (x r d : ℕ) → (x + (low x r + d * 2)) / 2 ≡ x / 2 + d
half x r d = elim (picked x r) [
  | inl (even, _, one, _) ↦ omega (arith, even, one)
  | inr (flat, _, _) ↦ omega (arith, flat)
]

-- The bits picked are free ones, as many as asked for while there are any.
pub count_ones-free_bits :
    (n x r : ℕ) → count_ones n (x + free_bits n x r) ≡ count_ones n x + min r (n - count_ones n x)
unfolding count_ones free_bits
count_ones-free_bits zero x r = omega arith
count_ones-free_bits (suc n) x r =
    let d = free_bits n (x / 2) (rest x r) in
    let step = ap (count_ones n) (half x r d) in
    let more = count_ones-free_bits n (x / 2) (rest x r) in
    let bound = count_ones-le n (x / 2) in
    elim (picked x r) [
      | inl (even, any, one, left) ↦ omega (arith, step, more, bound, even, any, one, left)
      | inr (flat, left, inl odd) ↦ omega (arith, step, more, bound, flat, left, odd)
      | inr (flat, left, inr nought) ↦ omega (arith, step, more, bound, flat, left, nought)
    ]

pub free_bits-has_bit : (n x r i : ℕ) → has_bit x i ≡ true → has_bit (x + free_bits n x r) i ≡ true
unfolding has_bit free_bits
free_bits-has_bit zero x r i h =
    subst (λ y. has_bit y i ≡ true) (let same : x ≡ x + 0 = omega arith in same) h
free_bits-has_bit (suc n) x r zero h =
    let d = free_bits n (x / 2) (rest x r) in
    let odd = (==_iff _ _).0 h in
    elim (picked x r) [
      | inl (even, _, _, _) ↦ absurd (omega (arith, even, odd))
      | inr (flat, _, _) ↦
          (==_iff _ _).1
            (let still : (x + (low x r + d * 2)) % 2 ≡ 1 = omega (arith, flat, odd) in still)
    ]
free_bits-has_bit (suc n) x r (suc i) h =
    let d = free_bits n (x / 2) (rest x r) in
    subst (λ y. has_bit y i ≡ true) (sym (half x r d)) (free_bits-has_bit n (x / 2) (rest x r) i h)

pub top : ℕ → ℕ
top zero = 1
top (suc n) = 2 * top n

pub free_bits-top : (n x r : ℕ) → x < top n → x + free_bits n x r < top n
unfolding top free_bits
free_bits-top zero x r l = omega (arith, l)
free_bits-top (suc n) x r l =
    let d = free_bits n (x / 2) (rest x r) in
    let more = free_bits-top n (x / 2) (rest x r) (omega (arith, l)) in
    elim (picked x r) [
      | inl (even, _, one, _) ↦ omega (arith, even, one, more)
      | inr (flat, _, _) ↦ omega (arith, flat, more)
    ]

pub free_bits_fit : (x r : ℕ) → x < 65536 → x + free_bits 16 x r < 65536
unfolding top
free_bits_fit x r l = free_bits-top 16 x r l

pub raw_fits : (block0 : List ℕ) → secure_version_raw block0 < 65536
unfolding secure_version_raw
raw_fits block0 = omega arith
