-- ===== src/SignedImage/Format.antt =====
-- Image metadata, the signature block and its CRC, in src/signed_image.rs.
use salpa.Base.{
  ℕ, zero, suc, ◌+◌, ◌-◌, ◌*◌, ◌/◌, ◌%◌, Bool, not, ◌&&◌, ◌||◌, Option, none, some, List, [], ◌∷◌,
  ltb, leb, ◌==◌, if◌then◌else◌, byte, bytes_eq, read_u32_le, slice, take, bit_and, bit_xor,
  u32_mod,
}

abbrev pub ota_slot_size : ℕ
ota_slot_size = 0x1e0000

abbrev pub signature_sector_size : ℕ
signature_sector_size = 0x1000

abbrev pub signature_block_size : ℕ
signature_block_size = 1216

abbrev pub max_version_length : ℕ
max_version_length = 31

abbrev pub app_descriptor_offset : ℕ
app_descriptor_offset = 32

abbrev pub app_descriptor_prefix_size : ℕ
app_descriptor_prefix_size = 80

-- SHA-256 with its state, as the crate `sha2` offers it.
pub record Sha256 (H : Type 0) : Type 0 where
  pub initial : H
  pub update : H → List ℕ → H
  pub finalize : H → List ℕ

-- `Sha256::digest`
abbrev pub digest : {H : Type 0} → Sha256 H → List ℕ → List ℕ
digest sha bytes = sha.finalize (sha.update sha.initial bytes)

pub record ImageMetadata : Type 0 where
  pub secure_version : ℕ
  pub version : List ℕ

-- `iter().position(|byte| *byte == 0)`
unfoldable pub position_of_zero : List ℕ → Option ℕ
position_of_zero [] = none
position_of_zero (x ∷ xs) =
    if x == 0 then some 0 else elim (position_of_zero xs) [ none ↦ none | some i ↦ some (suc i) ]

-- The test of magic numbers, segment count and chip that starts `parse_image_metadata`.
unfoldable pub header_matches : List ℕ → Bool
header_matches p =
    byte p 0 == 0xe9
    && leb 1 (byte p 1)
    && leb (byte p 1) 16
    && byte p 12 + byte p 13 * 256 == 2
    && read_u32_le p app_descriptor_offset == 0xabcd5432

unfoldable pub parse_image_metadata : List ℕ → Option ImageMetadata
unfolding position_of_zero header_matches
parse_image_metadata p =
    if not (header_matches p)
    then none
    else let version_field = slice p 48 80 in
      elim (position_of_zero version_field) [
        | none ↦ none
        | some count ↦
            if count == 0 || ltb max_version_length count
            then none
            else some
                (record { secure_version = read_u32_le p 36; version = take count version_field })
      ]

-- One step of the inner loop of `esp_crc32_le`: the mask is all ones for an odd `crc`, else 0.
unfoldable pub crc_bits : ℕ → ℕ → ℕ
crc_bits zero crc = crc
crc_bits (suc n) crc =
    crc_bits n (bit_xor (crc / 2) (bit_and 0xedb88320 ((u32_mod - bit_and crc 1) % u32_mod)))

unfoldable pub crc_bytes : ℕ → List ℕ → ℕ
unfolding crc_bits
crc_bytes crc [] = crc
crc_bytes crc (x ∷ xs) = crc_bytes (crc_bits 8 (bit_xor crc x)) xs

unfoldable pub esp_crc32_le : ℕ → List ℕ → ℕ
unfolding crc_bytes
esp_crc32_le seed bytes = u32_mod - 1 - crc_bytes (u32_mod - 1 - seed) bytes

pub record ParsedSignature : Type 0 where
  pub image_digest : List ℕ
  pub public_key : List ℕ
  pub signature : List ℕ

unfoldable pub parse_signature_block :
    {H : Type 0} → Sha256 H → List ℕ → List ℕ → Option ParsedSignature
unfolding esp_crc32_le
parse_signature_block sha block trusted_key_digest =
    if not (byte block 0 == 0xe7)
      || not (byte block 1 == 2)
      || not (read_u32_le block 1196 == esp_crc32_le 0 (take 1196 block))
    then none
    else if not (bytes_eq (digest sha (slice block 36 812)) trusted_key_digest)
    then none
    else some (record {
      image_digest = slice block 4 36;
      public_key = slice block 36 812;
      signature = slice block 812 1196;
    })
