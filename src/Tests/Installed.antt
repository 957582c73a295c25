-- ===== src/Tests/Installed.antt =====
-- `verify_installed_slot` of src/signed_image.rs on the test image.
use salpa.Base.{
  bytes_eq, ℕ, ◌+◌, ◌≡◌, refl, List, some, some-injective, sym, true, replicate, slice,
}
use salpa.SignedImage.Installed.{ImageReader, ok, VerifiedInstalledImage, verify_installed_slot}
use salpa.SignedImage.Verified.{Holds, Verified, verify_installed_slot_lem}
use salpa.Tests.Image.{checksum, checksum_streams, image, trusted}

abbrev reader : ImageReader Unit
reader = record {
  read = λ b slot at n. (b, some (slice image at (at + n)));
  verify_rsa_pss = λ b key signature digest. (b, some true);
}

abbrev verified : VerifiedInstalledImage
verified = record {
  secure_version = 4;
  signed_image_bytes = 8192;
  signed_content_digest = replicate 32 134;
}

succeeds : (verify_installed_slot checksum reader 1 tt trusted).1 ≡ ok verified
unfolding verify_installed_slot bytes_eq
succeeds = refl

-- RSA accepts the one empty signature of the test image.
abbrev pub Accepted : List ℕ → List ℕ → List ℕ → Type 0
Accepted key signature digest = Unit

reader_holds : Holds reader 1 image Accepted
reader_holds = record {
  reads = λ b at n bytes e. sym (some-injective _ bytes e);
  verifies = λ b key signature digest e. tt;
}

verify_installed_slot_lem_example :
    Verified checksum checksum_streams reader 1 image Accepted reader_holds trusted verified
verify_installed_slot_lem_example =
    verify_installed_slot_lem checksum checksum_streams reader 1 image Accepted reader_holds tt
      trusted verified succeeds
