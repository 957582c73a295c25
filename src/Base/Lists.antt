-- ===== src/Base/Lists.antt =====
-- Arrays and slices as lists with native indices.
use Prim.Native.Nat.{ℕ, zero, suc, ◌+◌, ◌-◌, ◌≤◌, min}
use mathlib.Core.Path.{◌≡◌, refl, sym, ap}
use mathlib.Core.List.{List, [], ◌∷◌, ◌++◌}
use native.Mathlib.Nat.{
  zero-add, suc-add, zero-min, min-zero, suc-min-suc, sub-zero, zero-sub, suc-sub-suc,
}
use native.Mathlib.Omega.{arith}

module _ {ℓ} {A : Type ℓ} where
  abbrev pub length : List A → ℕ
  length [] = 0
  length (x ∷ xs) = suc (length xs)

  abbrev pub get_or : List A → ℕ → A → A
  get_or [] i d = d
  get_or (x ∷ xs) zero d = x
  get_or (x ∷ xs) (suc i) d = get_or xs i d

  abbrev pub set : List A → ℕ → A → List A
  set [] i v = []
  set (x ∷ xs) zero v = v ∷ xs
  set (x ∷ xs) (suc i) v = x ∷ set xs i v

  abbrev pub take : ℕ → List A → List A
  take zero xs = []
  take (suc n) [] = []
  take (suc n) (x ∷ xs) = x ∷ take n xs

  abbrev pub drop : ℕ → List A → List A
  drop zero xs = xs
  drop (suc n) [] = []
  drop (suc n) (x ∷ xs) = drop n xs

  abbrev pub replicate : ℕ → A → List A
  replicate zero a = []
  replicate (suc n) a = a ∷ replicate n a

  -- `dst[off..off + src.len()].copy_from_slice(src)`; what would lie beyond the end is dropped,
  -- where the code panics.
  abbrev pub write_at : ℕ → List A → List A → List A
  write_at zero [] dst = dst
  write_at zero (x ∷ src) [] = []
  write_at zero (x ∷ src) (d ∷ dst) = x ∷ write_at zero src dst
  write_at (suc off) src [] = []
  write_at (suc off) src (d ∷ dst) = d ∷ write_at off src dst

  -- `xs[a..b]`
  abbrev pub slice : List A → ℕ → ℕ → List A
  slice xs a b = take (b - a) (drop a xs)

pub take-nil {ℓ} : (A : Type ℓ) (k : ℕ) → take {A = A} k [] ≡ []
take-nil A zero = refl
take-nil A (suc k) = refl

module _ {ℓ} {A : Type ℓ} where
  pub length-append : (xs ys : List A) → length (xs ++ ys) ≡ length xs + length ys
  length-append [] ys = omega arith
  length-append (x ∷ xs) ys = omega (arith, length-append xs ys)

  pub length-set : (xs : List A) (i : ℕ) (v : A) → length (set xs i v) ≡ length xs
  length-set [] i v = refl
  length-set (x ∷ xs) zero v = refl
  length-set (x ∷ xs) (suc i) v = ap suc (length-set xs i v)

  pub length-take : (n : ℕ) (xs : List A) → length (take n xs) ≡ min n (length xs)
  length-take zero xs = omega arith
  length-take (suc n) [] = omega arith
  length-take (suc n) (x ∷ xs) = omega (arith, length-take n xs)

  pub length-drop : (n : ℕ) (xs : List A) → length (drop n xs) ≡ length xs - n
  length-drop zero xs = omega arith
  length-drop (suc n) [] = omega arith
  length-drop (suc n) (x ∷ xs) = omega (arith, length-drop n xs)

  pub length-replicate : (n : ℕ) (a : A) → length (replicate n a) ≡ n
  length-replicate zero a = refl
  length-replicate (suc n) a = ap suc (length-replicate n a)

  pub length-write_at : (off : ℕ) (src dst : List A) → length (write_at off src dst) ≡ length dst
  length-write_at zero [] dst = refl
  length-write_at zero (x ∷ src) [] = refl
  length-write_at zero (x ∷ src) (d ∷ dst) = ap suc (length-write_at zero src dst)
  length-write_at (suc off) src [] = refl
  length-write_at (suc off) src (d ∷ dst) = ap suc (length-write_at off src dst)

  -- After a copy in range, the bytes up to its end are those before it and the source.
  pub take-write_at :
      (off : ℕ) (src dst : List A)
      → off + length src ≤ length dst
      → take (off + length src) (write_at off src dst) ≡ take off dst ++ src
  take-write_at zero [] dst h = refl
  take-write_at zero (x ∷ src) [] h = absurd (omega arith)
  take-write_at zero (x ∷ src) (d ∷ dst) h =
      rw zero-add (ap (λ l. x ∷ l) (rw zero-add at (take-write_at zero src dst (omega arith))))
  take-write_at (suc off) src [] h = absurd (omega arith)
  take-write_at (suc off) src (d ∷ dst) h =
      rw suc-add (ap (λ l. d ∷ l) (take-write_at off src dst (omega arith)))

  pub take-add : (n m : ℕ) (xs : List A) → take (n + m) xs ≡ take n xs ++ take m (drop n xs)
  take-add zero m xs = rw zero-add
  take-add (suc n) zero [] = rw suc-add
  take-add (suc n) (suc m) [] = rw suc-add
  take-add (suc n) m (x ∷ xs) = rw suc-add (ap (λ l. x ∷ l) (take-add n m xs))

  pub take-length : (xs : List A) (n : ℕ) → length xs ≤ n → take n xs ≡ xs
  take-length [] zero h = refl
  take-length [] (suc n) h = refl
  take-length (x ∷ xs) zero h = absurd (omega arith)
  take-length (x ∷ xs) (suc n) h = ap (λ l. x ∷ l) (take-length xs n (omega arith))

  pub take-take : (n m : ℕ) (xs : List A) → take n (take m xs) ≡ take (min n m) xs
  take-take zero m xs = rw zero-min
  take-take (suc n) zero xs = rw min-zero
  take-take (suc n) (suc m) [] = rw suc-min-suc
  take-take (suc n) (suc m) (x ∷ xs) = rw suc-min-suc (ap (λ l. x ∷ l) (take-take n m xs))

  pub drop-take : (n m : ℕ) (xs : List A) → drop n (take m xs) ≡ take (m - n) (drop n xs)
  drop-take zero m xs = rw sub-zero
  drop-take (suc n) zero xs = rw zero-sub
  drop-take (suc n) (suc m) [] = sym (take-nil A (suc m - suc n))
  drop-take (suc n) (suc m) (x ∷ xs) = rw suc-sub-suc (drop-take n m xs)

  pub drop-add : (n m : ℕ) (xs : List A) → drop (n + m) xs ≡ drop m (drop n xs)
  drop-add zero m xs = rw zero-add
  drop-add (suc n) zero [] = rw suc-add
  drop-add (suc n) (suc m) [] = rw suc-add
  drop-add (suc n) m (x ∷ xs) = rw suc-add (drop-add n m xs)

  pub drop-length : (n : ℕ) (xs : List A) → length xs ≤ n → drop n xs ≡ []
  drop-length zero [] h = refl
  drop-length zero (x ∷ xs) h = absurd (omega arith)
  drop-length (suc n) [] h = refl
  drop-length (suc n) (x ∷ xs) h = drop-length n xs (omega arith)

  pub take-length-take : (n : ℕ) (xs : List A) → take (length (take n xs)) xs ≡ take n xs
  take-length-take zero xs = refl
  take-length-take (suc n) [] = refl
  take-length-take (suc n) (x ∷ xs) = ap (λ l. x ∷ l) (take-length-take n xs)

  pub take-append-drop : (n : ℕ) (xs : List A) → take n xs ++ drop n xs ≡ xs
  take-append-drop zero xs = refl
  take-append-drop (suc n) [] = refl
  take-append-drop (suc n) (x ∷ xs) = ap (λ l. x ∷ l) (take-append-drop n xs)
