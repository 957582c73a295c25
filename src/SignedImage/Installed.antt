-- ===== src/SignedImage/Installed.antt =====
-- `verify_installed_slot` of src/signed_image.rs. A reader's operations may change its state.
use salpa.Base.{
  ℕ, zero, suc, ◌+◌, ◌-◌, ◌*◌, ◌/◌, min, Bool, true, false, not, ◌&&◌, ◌||◌, Option, none, some,
  List, ltb, leb, ◌==◌, if◌then◌else◌, byte, bytes_eq, read_u32_le, u32_checked_add,
}
use salpa.SignedImage.Format.{
  Sha256, ImageMetadata, parse_image_metadata, parse_signature_block, ota_slot_size,
  signature_sector_size, signature_block_size, app_descriptor_prefix_size, app_descriptor_offset,
}

-- The trait `ImageReader`: `none` is its error.
pub record ImageReader (S : Type 0) : Type 0 where
  pub read : S → ℕ → ℕ → ℕ → S × Option (List ℕ)
  pub verify_rsa_pss : S → List ℕ → List ℕ → List ℕ → S × Option Bool

pub data InstalledImageError : Type 0 where
  slot_error read_error header_error extent_error signature_error : InstalledImageError

pub record VerifiedInstalledImage : Type 0 where
  pub secure_version : ℕ
  pub signed_image_bytes : ℕ
  pub signed_content_digest : List ℕ

-- `Result<A, InstalledImageError>`
pub data Verdict (A : Type 0) : Type 0 where
  ok : A → Verdict A
  err : InstalledImageError → Verdict A

abbrev pub or_error : {A : Type 0} → InstalledImageError → Option A → Verdict A
or_error e none = err e
or_error e (some a) = ok a

-- The end of a segment of `length` bytes whose header is at `position`.
unfoldable pub segment_end : ℕ → ℕ → Option ℕ
segment_end position length = elim (u32_checked_add position 8) [
  | none ↦ none
  | some start ↦ elim (u32_checked_add start length) [
    | none ↦ none
    | some value ↦
        if leb value (ota_slot_size - signature_sector_size - 48) then some value else none
  ]
]

-- The sector after the checksum and the hash of an image whose segments end at `position`;
-- `position | 15` sets four bits, the mask of the sector size clears twelve.
unfoldable pub signature_offset : ℕ → Option ℕ
signature_offset position = elim (u32_checked_add (position / 16 * 16 + 15) 33) [
  | none ↦ none
  | some trailer_end ↦ elim (u32_checked_add trailer_end (signature_sector_size - 1)) [
    | none ↦ none
    | some padded ↦
        let value = padded / signature_sector_size * signature_sector_size in
        if leb signature_sector_size value && leb value (ota_slot_size - signature_sector_size)
        then some value
        else none
  ]
]

module _ {S H : Type 0} (sha : Sha256 H) (reader : ImageReader S) (slot : ℕ) where
  -- The loop over the `n` segments left, the first of them number `segment`.
  unfoldable pub walk_segments : ℕ → ℕ → S → ℕ → S × Verdict ℕ
  unfolding segment_end
  walk_segments zero segment s position = (s, ok position)
  walk_segments (suc n) segment s position =
      let (s, header) = reader.read s slot position 8 in
      elim header [
        | none ↦ (s, err read_error)
        | some header ↦
            let length = read_u32_le header 4 in
            if segment == 0 && ltb length (app_descriptor_prefix_size - app_descriptor_offset)
            then (s, err header_error)
            else elim (segment_end position length) [
              | none ↦ (s, err extent_error)
              | some position ↦ walk_segments n (suc segment) s position
            ]
      ]

  -- The loop that hashes up to `end`, with fuel; a turn takes a byte at least.
  unfoldable pub hash_image : ℕ → ℕ → S → H → ℕ → S × Verdict H
  hash_image zero end s h offset = (s, ok h)
  hash_image (suc fuel) end s h offset =
      let more = ltb offset end in
      elim more [
        | false ↦ (s, ok h)
        | true ↦
            let count = min (end - offset) 1024 in
            let (s, chunk) = reader.read s slot offset count in
            elim chunk [
              | none ↦ (s, err read_error)
              | some chunk ↦ hash_image fuel end s (sha.update h chunk) (offset + count)
            ]
      ]

  -- From the signature block on.
  unfoldable pub check_signature :
      List ℕ → ImageMetadata → S → ℕ → List ℕ → S × Verdict VerifiedInstalledImage
  unfolding parse_signature_block
  check_signature trusted_key_digest metadata s offset digest =
      let (s, block) = reader.read s slot offset signature_block_size in
      elim block [
        | none ↦ (s, err read_error)
        | some block ↦ elim (parse_signature_block sha block trusted_key_digest) [
          | none ↦ (s, err signature_error)
          | some parsed ↦
              if not (bytes_eq parsed.image_digest digest)
              then (s, err signature_error)
              else let (s, verified) =
                  reader.verify_rsa_pss s parsed.public_key parsed.signature digest in
                elim verified [
                  | some true ↦ (
                    s,
                    ok (record {
                      secure_version = metadata.secure_version;
                      signed_image_bytes = offset + signature_sector_size;
                      signed_content_digest = digest;
                    }),
                  )
                  | _ ↦ (s, err signature_error)
                ]
        ]
      ]

  -- From the end of the segments on.
  unfoldable pub check_content : List ℕ → ImageMetadata → S → ℕ → S × Verdict VerifiedInstalledImage
  unfolding signature_offset hash_image check_signature
  check_content trusted_key_digest metadata s position = elim (signature_offset position) [
    | none ↦ (s, err extent_error)
    | some offset ↦
        let (s, hashed) = hash_image offset offset s sha.initial 0 in
        elim hashed [
          | err e ↦ (s, err e)
          | ok h ↦ check_signature trusted_key_digest metadata s offset (sha.finalize h)
        ]
  ]

  unfoldable pub verify_installed_slot : S → List ℕ → S × Verdict VerifiedInstalledImage
  unfolding parse_image_metadata walk_segments check_content
  verify_installed_slot s trusted_key_digest =
      if ltb 1 slot
      then (s, err slot_error)
      else let (s, prefix) = reader.read s slot 0 app_descriptor_prefix_size in
        elim prefix [
          | none ↦ (s, err read_error)
          | some prefix ↦ elim (parse_image_metadata prefix) [
            | none ↦ (s, err header_error)
            | some metadata ↦
                if not (byte prefix 23 == 1) || ltb 16 metadata.secure_version
                then (s, err header_error)
                else let (s, walked) = walk_segments (byte prefix 1) 0 s 24 in
                  elim walked [
                    | err e ↦ (s, err e)
                    | ok position ↦ check_content trusted_key_digest metadata s position
                  ]
          ]
        ]
