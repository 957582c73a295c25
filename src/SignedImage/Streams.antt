-- ===== src/SignedImage/Streams.antt =====
-- SHA-256 taken in pieces, and pieces of a list.
use salpa.Base.{
  ℕ, ◌+◌, ◌-◌, ◌≤◌, ◌≡◌, sym, ap, ◌∙◌, List, [], ◌++◌, slice, take, drop, take-add, take-take,
  arith,
}
use salpa.SignedImage.Format.{Sha256}

-- SHA-256 over pieces is SHA-256 over the whole.
pub record Streaming {H : Type 0} (sha : Sha256 H) : Type 0 where
  pub nothing : (h : H) → sha.update h [] ≡ h
  pub pieces : (h : H) (xs ys : List ℕ) → sha.update (sha.update h xs) ys ≡ sha.update h (xs ++ ys)

pub slice_part :
    (n : ℕ) (at count : ℕ) (image : List ℕ)
    → n ≤ count
    → take n (slice image at (at + count)) ≡ take n (drop at image)
slice_part n at count image l =
    take-take n (at + count - at) (drop at image) ∙ ap (λ k. take k (drop at image)) (omega arith)

pub slice_sized :
    (at count : ℕ) (image : List ℕ) → slice image at (at + count) ≡ take count (drop at image)
slice_sized at count image = ap (λ k. take k (drop at image)) (omega arith)

module _ {H : Type 0} (sha : Sha256 H) (streaming : Streaming sha) where
  pub hash_more :
      (h : H) (at n : ℕ) (image : List ℕ)
      → h ≡ sha.update sha.initial (take at image)
      → sha.update h (take n (drop at image)) ≡ sha.update sha.initial (take (at + n) image)
  hash_more h at n image e =
      ap (λ k. sha.update k (take n (drop at image))) e
      ∙ streaming.pieces sha.initial (take at image) (take n (drop at image))
      ∙ ap (sha.update sha.initial) (sym (take-add at n image))

  -- The hash of a prefix, by its length.
  pub prefix :
      (image : List ℕ) {n m : ℕ}
      → n ≡ m
      → sha.update sha.initial (take n image) ≡ sha.update sha.initial (take m image)
  prefix image e = ap (λ k. sha.update sha.initial (take k image)) e
