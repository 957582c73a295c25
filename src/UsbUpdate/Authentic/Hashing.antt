-- ===== src/UsbUpdate/Authentic/Hashing.antt =====
-- The loop of `verify_step` in src/usb_update.rs hashes the image in order, without a gap.
use salpa.Base.{ℕ, ◌+◌, ◌-◌, ◌≡◌, sym, ap, ◌∙◌, min, List, slice, take, arith, if-cases, ltb}
use salpa.SignedImage.Format.{Sha256}
use salpa.UsbUpdate.Protocol.{UpdateBackend}
use salpa.UsbUpdate.Session.{Session}
use salpa.UsbUpdate.Verify.{hash_chunk}
use salpa.UsbUpdate.Authentic.{HashedAt}
use salpa.SignedImage.Streams.{Streaming, hash_more, prefix, slice_part, slice_sized}

module _ {H : Type 0} (sha : Sha256 H) (streaming : Streaming sha) where
  pub hash_nothing :
      (image : List ℕ) (total : ℕ) → HashedAt sha image total 0 sha.initial sha.initial
  hash_nothing image total = record {
    whole = sym (streaming.nothing sha.initial);
    body =
        sym (streaming.nothing sha.initial)
        ∙ prefix sha streaming image {n = 0} {m = min 0 (total - 4096)} (omega arith);
  }

  pub hash_chunk-HashedAt :
      {S : Type 0} (back : UpdateBackend S) (s : Session H) (image chunk : List ℕ) (count : ℕ)
      → chunk ≡ slice image s.completed (s.completed + count)
      → HashedAt sha image s.total s.completed s.full_hasher s.signed_hasher
      → let next = hash_chunk sha back s chunk count in
        HashedAt sha image next.total next.completed next.full_hasher next.signed_hasher
  unfolding hash_chunk
  hash_chunk-HashedAt back s image chunk count e h = record {
    whole =
        ap (sha.update s.full_hasher) (e ∙ slice_sized s.completed count image)
        ∙ hash_more sha streaming s.full_hasher s.completed count image h.whole;
    body =
        if-cases
          (λ (signed : H).
            signed
            ≡ sha.update sha.initial (take (min (s.completed + count) (s.total - 4096)) image))
          (ltb s.completed (s.total - 4096))
          (λ below.
            let n = min (s.total - 4096 - s.completed) count in
            ap (sha.update s.signed_hasher)
              (ap (take n) e ∙ slice_part n s.completed count image (omega arith))
            ∙ hash_more sha streaming s.signed_hasher s.completed n image
                (h.body ∙ prefix sha streaming image (ground arith))
            ∙ prefix sha streaming image {n = s.completed + n}
                {m = min (s.completed + count) (s.total - 4096)} (ground arith))
          (λ above. h.body ∙ prefix sha streaming image (ground arith));
  }
