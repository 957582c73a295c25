-- ===== src/SignedImage/Verified.antt =====
-- What `verify_installed_slot` of src/signed_image.rs has established when it succeeds.
use salpa.Base.{
  ℕ, zero, suc, ◌+◌, ◌-◌, ◌%◌, ◌≤◌, ◌≡◌, refl, sym, ap, subst, ◌∙◌, min, Bool, true, false, not,
  ◌||◌, ◌&&◌, some, List, slice, take, arith, if-cases, option-cases, match-cases, ltb, ltb→lt,
  ltb-false→le, ◌==◌, bytes_eq, bytes_eq→eq, byte, read_u32_le,
}
use salpa.SignedImage.Format.{
  Sha256, ImageMetadata, ParsedSignature, parse_image_metadata, parse_signature_block, digest,
  ota_slot_size, signature_sector_size,
}
use salpa.SignedImage.Streams.{Streaming, hash_more, prefix, slice_sized}
use salpa.SignedImage.Installed.{
  ImageReader, InstalledImageError, Verdict, ok, err, VerifiedInstalledImage, segment_end,
  signature_offset, walk_segments, hash_image, check_signature, check_content,
  verify_installed_slot,
}

-- The `n` segments of `image` whose first header is at `position` end at `end`.
pub data Segments (image : List ℕ) : ℕ → ℕ → ℕ → Type 0 where
  last : (position : ℕ) → Segments image 0 position position
  next :
      (n position end : ℕ)
      → Segments image n (position + 8 + read_u32_le (slice image position (position + 8)) 4) end
      → Segments image (suc n) position end

-- A reader of a slot that holds `image`.
pub record Holds {S : Type 0} (reader : ImageReader S) (slot : ℕ) (image : List ℕ)
    (Genuine : List ℕ → List ℕ → List ℕ → Type 0) : Type 0 where
  pub reads :
      (b : S) (at n : ℕ) (bytes : List ℕ)
      → (reader.read b slot at n).1 ≡ some bytes
      → bytes ≡ slice image at (at + n)
  pub verifies :
      (b : S) (key signature digest : List ℕ)
      → (reader.verify_rsa_pss b key signature digest).1 ≡ some true
      → Genuine key signature digest

segment_end-some :
    (position length end : ℕ) → segment_end position length ≡ some end → end ≡ position + 8 + length
unfolding segment_end
segment_end-some position length end e = ground arith

signature_offset-some :
    (position offset : ℕ)
    → signature_offset position ≡ some offset
    → (position + 33 ≤ offset)
      × (offset % 4096 ≡ 0)
      × (offset + 4096 ≤ ota_slot_size)
      × (4096 ≤ offset)
unfolding signature_offset
signature_offset-some position offset e = (ground arith, ground arith, ground arith, ground arith)

version_bound : (b : Bool) (version : ℕ) → (b || ltb 16 version) ≡ false → version ≤ 16
version_bound b version e = ground arith

abbrev ValueOf : {A : Type 0} → (A → Type 0) → Verdict A → Type 0
ValueOf F (ok a) = F a
ValueOf F (err e) = Unit

value_map :
    {A : Type 0} (F G : A → Type 0) (v : Verdict A)
    → ((a : A) → F a → G a)
    → ValueOf F v
    → ValueOf G v
value_map F G (ok a) f x = f a x
value_map F G (err e) f x = tt

verdict-cases :
    {A B : Type 0} (P : B → Type 0) (F : A → Type 0) (v : Verdict A) {f : A → B}
    {g : InstalledImageError → B}
    → ValueOf F v
    → ((a : A) → F a → P (f a))
    → ((e : InstalledImageError) → P (g e))
    → P (elim v [ ok a ↦ f a | err e ↦ g e ])
verdict-cases P F (ok a) x good bad = good a x
verdict-cases P F (err e) x good bad = bad e

module _ {S H : Type 0} (sha : Sha256 H) (streaming : Streaming sha) (reader : ImageReader S)
    (slot : ℕ) (image : List ℕ) (Genuine : List ℕ → List ℕ → List ℕ → Type 0)
    (holds : Holds reader slot image Genuine) where
  -- What a step promises of its result, if it succeeds.
  abbrev Gives : {A : Type 0} → (A → Type 0) → S × Verdict A → Type 0
  Gives F r = ValueOf F r.1

  walk_segments-ok :
      (n segment : ℕ) (b : S) (position : ℕ)
      → Gives
          (λ end. Segments image n position end)
          (walk_segments sha reader slot n segment b position)
  unfolding walk_segments
  walk_segments-ok zero segment b position = last position
  walk_segments-ok (suc n) segment b position =
      let P : S × Verdict ℕ → Type 0 = Gives (λ end. Segments image (suc n) position end) in
      option-cases P (reader.read b slot position 8).1 (λ e. tt)
        (λ header found.
          if-cases P (segment == 0 && ltb (read_u32_le header 4) (80 - 32)) (λ e. tt)
            (λ e.
              option-cases P (segment_end position (read_u32_le header 4)) (λ e. tt)
                (λ end e.
                  value_map (Segments image n end) (Segments image (suc n) position) _
                    (λ last rest. next n position last (
                      subst (λ p. Segments image n p last)
                        (segment_end-some position (read_u32_le header 4) end e
                          ∙ ap (λ h. position + 8 + read_u32_le h 4)
                              (holds.reads b position 8 header found))
                        rest))
                    (walk_segments-ok n (suc segment) (reader.read b slot position 8).0 end))))

  hash_image-ok :
      (fuel end : ℕ) (b : S) (h : H) (offset : ℕ)
      → offset ≤ end
      → end ≤ offset + fuel
      → h ≡ sha.update sha.initial (take offset image)
      → Gives
          (λ g. g ≡ sha.update sha.initial (take end image))
          (hash_image sha reader slot fuel end b h offset)
  unfolding hash_image
  hash_image-ok zero end b h offset l m e = e ∙ prefix sha streaming image (omega arith)
  hash_image-ok (suc fuel) end b h offset l m e =
      let P : S × Verdict H → Type 0 = Gives (λ g. g ≡ sha.update sha.initial (take end image)) in
      match-cases P (ltb offset end)
        (λ below.
          let count = min (end - offset) 1024 in
          option-cases P (reader.read b slot offset count).1 (λ e. tt)
            (λ chunk found.
              hash_image-ok fuel end _ (sha.update h chunk) (offset + count)
                (omega (arith, ltb→lt offset end below)) (omega (arith, ltb→lt offset end below))
                (ap (sha.update h)
                    (holds.reads b offset count chunk found ∙ slice_sized offset count image)
                  ∙ hash_more sha streaming h offset count image e)))
        (λ above. e ∙ prefix sha streaming image (omega (arith, ltb-false→le offset end above)))

  -- The slot's image, from the signature at `offset` on.
  pub record SignedAt (key : List ℕ) (offset : ℕ) (signed_digest : List ℕ) : Type 0 where
    pub block : ParsedSignature
    pub parsed : parse_signature_block sha (slice image offset (offset + 1216)) key ≡ some block
    pub covers : block.image_digest ≡ signed_digest
    pub genuine : Genuine block.public_key block.signature signed_digest

  check_signature-ok :
      (key : List ℕ) (m : ImageMetadata) (b : S) (offset : ℕ) (d : List ℕ)
      → Gives
          (λ v.
            (v.secure_version ≡ m.secure_version)
            × (v.signed_image_bytes ≡ offset + 4096)
            × (v.signed_content_digest ≡ d)
            × SignedAt key offset d)
          (check_signature sha reader slot key m b offset d)
  unfolding check_signature
  check_signature-ok key m b offset d =
      let P : S × Verdict VerifiedInstalledImage → Type 0 = Gives (λ v.
        (v.secure_version ≡ m.secure_version)
        × (v.signed_image_bytes ≡ offset + 4096)
        × (v.signed_content_digest ≡ d)
        × SignedAt key offset d) in
      option-cases P (reader.read b slot offset 1216).1 (λ e. tt)
        (λ block found.
          option-cases P (parse_signature_block sha block key) (λ e. tt)
            (λ p parsed.
              if-cases P (not (bytes_eq p.image_digest d)) (λ e. tt)
                (λ same.
                  option-cases P (reader.verify_rsa_pss _ p.public_key p.signature d).1 (λ e. tt)
                    (λ t verified.
                      match-cases P t
                        (λ yes. (
                          refl,
                          refl,
                          refl,
                          record {
                            block = p;
                            parsed =
                                ap (λ i. parse_signature_block sha i key)
                                  (sym (holds.reads b offset 1216 block found))
                                ∙ parsed;
                            covers = bytes_eq→eq _ _ (ground arith);
                            genuine =
                                holds.verifies _ p.public_key p.signature d
                                  (verified ∙ ap some yes);
                          },
                        ))
                        (λ no. tt)))))

  -- What the slot holds, by a successful check with result `v`.
  pub record Verified (key : List ℕ) (v : VerifiedInstalledImage) : Type 0 where
    pub slot_known : slot ≤ 1
    pub metadata : ImageMetadata
    pub described : parse_image_metadata (slice image 0 80) ≡ some metadata
    pub version : v.secure_version ≡ metadata.secure_version
    pub version_small : metadata.secure_version ≤ 16
    pub end : ℕ
    pub segments : Segments image (byte (slice image 0 80) 1) 24 end
    pub offset : ℕ
    pub size : v.signed_image_bytes ≡ offset + signature_sector_size
    pub covers_segments : end + 33 ≤ offset
    pub whole_sectors : offset % signature_sector_size ≡ 0
    pub fits : v.signed_image_bytes ≤ ota_slot_size
    pub digested : v.signed_content_digest ≡ digest sha (take offset image)
    pub signed : SignedAt key offset v.signed_content_digest

  check_content-ok :
      (key : List ℕ) (m : ImageMetadata) (b : S) (position : ℕ)
      → slot ≤ 1
      → parse_image_metadata (slice image 0 80) ≡ some m
      → m.secure_version ≤ 16
      → Segments image (byte (slice image 0 80) 1) 24 position
      → Gives (Verified key) (check_content sha reader slot key m b position)
  unfolding check_content
  check_content-ok key m b position known described small segments =
      let P : S × Verdict VerifiedInstalledImage → Type 0 = Gives (Verified key) in
      option-cases P (signature_offset position) (λ e. tt)
        (λ offset at.
          verdict-cases P (λ g. g ≡ sha.update sha.initial (take offset image))
            (hash_image sha reader slot offset offset b sha.initial 0).1
            (hash_image-ok offset offset b sha.initial 0 (omega arith) (omega arith)
              (sym (streaming.nothing sha.initial)))
            (λ h hashed.
              value_map
                (λ v.
                  (v.secure_version ≡ m.secure_version)
                  × (v.signed_image_bytes ≡ offset + 4096)
                  × (v.signed_content_digest ≡ sha.finalize h)
                  × SignedAt key offset (sha.finalize h))
                (Verified key) _
                (λ v found. record {
                  slot_known = known;
                  metadata = m;
                  described = described;
                  version = found.0;
                  version_small = small;
                  end = position;
                  segments = segments;
                  offset = offset;
                  size = found.1;
                  covers_segments = (signature_offset-some position offset at).0;
                  whole_sectors = (signature_offset-some position offset at).1;
                  fits = omega (arith, found.1, signature_offset-some position offset at);
                  digested = found.2 ∙ ap sha.finalize hashed;
                  signed = subst (SignedAt key offset) (sym found.2) found.3;
                })
                (check_signature-ok key m _ offset (sha.finalize h)))
            (λ e. tt))

  verify_installed_slot-ok :
      (b : S) (key : List ℕ) → Gives (Verified key) (verify_installed_slot sha reader slot b key)
  unfolding verify_installed_slot
  verify_installed_slot-ok b key =
      let P : S × Verdict VerifiedInstalledImage → Type 0 = Gives (Verified key) in
      if-cases P (ltb 1 slot) (λ e. tt)
        (λ known.
          option-cases P (reader.read b slot 0 80).1 (λ e. tt)
            (λ start found.
              option-cases P (parse_image_metadata start) (λ e. tt)
                (λ m described.
                  if-cases P (not (byte start 23 == 1) || ltb 16 m.secure_version) (λ e. tt)
                    (λ small.
                      let at_start = holds.reads b 0 80 start found in
                      verdict-cases P (Segments image (byte start 1) 24) _
                        (walk_segments-ok (byte start 1) 0 (reader.read b slot 0 80).0 24)
                        (λ position segments.
                          check_content-ok key m _ position (ltb-false→le 1 slot known)
                            (ap parse_image_metadata (sym at_start) ∙ described)
                            (version_bound _ _ small)
                            (subst (λ i. Segments image (byte i 1) 24 position) at_start segments))
                        (λ e. tt)))))

  -- A slot that verifies is one of the two, and its image is described by metadata with the secure
  -- version reported, 16 at most; the signature is at a whole sector past the end of all the
  -- segments that the header counts, the size reported ends with its sector and fits the slot; the
  -- digest reported is that of everything before the signature, and the signature block, of the
  -- trusted key, is accepted by RSA for it.
  pub verify_installed_slot_lem :
      (b : S) (key : List ℕ) (v : VerifiedInstalledImage)
      → (verify_installed_slot sha reader slot b key).1 ≡ ok v
      → Verified key v
  verify_installed_slot_lem b key v e =
      subst (ValueOf (Verified key)) e (verify_installed_slot-ok b key)
