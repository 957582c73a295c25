-- ===== src/UsbUpdate/Authentic.antt =====
-- What an activation of src/usb_update.rs has checked, said of the bytes in the target slot.
pub mod Hashing
pub mod Checks
pub mod Steps
pub mod Requests
use salpa.Base.{
  ℕ, ◌+◌, ◌-◌, ◌≤◌, ◌≡◌, min, Bool, true, false, Option, some, List, [], ◌++◌, slice, take,
}
use salpa.SignedImage.Format.{
  Sha256, ImageMetadata, ParsedSignature, parse_image_metadata, parse_signature_block, digest,
  signature_sector_size, signature_block_size, app_descriptor_prefix_size,
}
use salpa.UsbUpdate.Protocol.{UpdateBackend, Phase, verifying}
use salpa.UsbUpdate.Session.{Session}

-- Flash whose slots hold `contents`: a read returns what is there, an accepted RSA signature is
-- `Genuine`, and only erasing and writing change a slot.
pub record Flash {S : Type 0} (back : UpdateBackend S) (contents : S → ℕ → List ℕ)
    (Genuine : List ℕ → List ℕ → List ℕ → Type 0) : Type 0 where
  pub reads :
      (b : S) (slot at n : ℕ) (bytes : List ℕ)
      → (back.reader.read b slot at n).1 ≡ some bytes
      → bytes ≡ slice (contents b slot) at (at + n)
  pub verifies :
      (b : S) (key signature digest : List ℕ)
      → (back.reader.verify_rsa_pss b key signature digest).1 ≡ some true
      → Genuine key signature digest
  pub clock : (b : S) (slot : ℕ) → contents (back.now_ms b).0 slot ≡ contents b slot
  pub layout : (b : S) (slot : ℕ) → contents (back.layout b).0 slot ≡ contents b slot
  pub read :
      (b : S) (slot from at n : ℕ)
      → contents (back.reader.read b from at n).0 slot ≡ contents b slot
  pub verify :
      (b : S) (slot : ℕ) (key signature digest : List ℕ)
      → contents (back.reader.verify_rsa_pss b key signature digest).0 slot ≡ contents b slot
  pub activate :
      (b : S) (slot target sequence entry : ℕ)
      → contents (back.activate b target sequence entry).0 slot ≡ contents b slot

-- The image `image` of `total` bytes passed the checks: its hash and version are those that the
-- host announced, its secure version is not below `floor`, and the signature block in its last
-- sector is by the key with digest `key` over all that comes before that sector.
pub record Approved {H : Type 0} (sha : Sha256 H) (Genuine : List ℕ → List ℕ → List ℕ → Type 0)
    (key : List ℕ) (floor : ℕ) (image : List ℕ) (total : ℕ) (hash : List ℕ) (secure_version : ℕ)
    (version : List ℕ) : Type 0 where
  pub hash_matches : digest sha (take total image) ≡ hash
  pub metadata : ImageMetadata
  pub described : parse_image_metadata (slice image 0 app_descriptor_prefix_size) ≡ some metadata
  pub not_below : floor ≤ metadata.secure_version
  pub announced : metadata.secure_version ≡ secure_version
  pub named : metadata.version ≡ version
  pub block : ParsedSignature
  pub signed :
      parse_signature_block sha
        (slice image
          (total - signature_sector_size)
          (total - signature_sector_size + signature_block_size))
        key
      ≡ some block
  pub covers : block.image_digest ≡ digest sha (take (total - signature_sector_size) image)
  pub genuine : Genuine block.public_key block.signature block.image_digest

-- The hashers have taken the first `completed` bytes of `image`, and those before its last sector.
pub record HashedAt {H : Type 0} (sha : Sha256 H) (image : List ℕ) (total completed : ℕ)
    (full signed : H) : Type 0 where
  pub whole : full ≡ sha.update sha.initial (take completed image)
  pub body :
      signed ≡ sha.update sha.initial (take (min completed (total - signature_sector_size)) image)

abbrev pub is_verifying : Phase → Bool
is_verifying verifying = true
is_verifying _ = false

module _ {S H : Type 0} (sha : Sha256 H) (contents : S → ℕ → List ℕ)
    (Genuine : List ℕ → List ℕ → List ℕ → Type 0) (key : List ℕ) (floor : ℕ) where
  abbrev pub Hashed : S → Session H → Type 0
  Hashed b s =
      HashedAt sha (contents b s.target_slot) s.total s.completed s.full_hasher s.signed_hasher

  -- The image in the target slot of a session has passed the checks.
  abbrev pub Approves : S → Session H → Type 0
  Approves b s =
      Approved sha Genuine key floor (contents b s.target_slot) s.total s.expected_hash
        s.expected_secure_version s.expected_version
