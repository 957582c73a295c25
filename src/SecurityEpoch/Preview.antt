-- ===== src/SecurityEpoch/Preview.antt =====
-- src/platform/security_epoch_preview.rs: what a slot holds, without any fuse.
use salpa.Base.{
  ℕ, Bool, not, ◌||◌, Option, none, some, List, [], ◌∷◌, ◌++◌, ◌==◌, ltb, if◌then◌else◌, byte,
  length, replicate, u32_le_bytes,
}
use salpa.SignedImage.Format.{Sha256}
use salpa.SignedImage.Installed.{ImageReader, VerifiedInstalledImage, verify_installed_slot}
use salpa.SignedImage.Installed as Installed
use salpa.Ota.Records.{QualifiedLayout}
use salpa.Ota.Flash.{FlashDriver, Attempt, qualified_layout}
use salpa.UsbUpdate.Protocol.{Phase}
use salpa.SecurityEpoch.Qualify.{same_layout}
use salpa.SecurityEpoch.Maintenance.{is_idle}

abbrev pub request_preview : ℕ
request_preview = 0x12

pub data PreviewError : Type 0 where
  busy layout_error image_error request_error : PreviewError

-- `error as u8`
unfoldable pub preview_code : PreviewError → ℕ
preview_code busy = 1
preview_code layout_error = 2
preview_code image_error = 3
preview_code request_error = 4

-- `Result<A, PreviewError>`
pub data Previewed (A : Type 0) : Type 0 where
  ok : A → Previewed A
  err : PreviewError → Previewed A

unfoldable pub requested_slot : List ℕ → Phase → Previewed ℕ
requested_slot request phase =
    if not (length request == 2)
      || not (byte request 0 == request_preview)
      || ltb 1 (byte request 1)
    then err request_error
    else if not (is_idle phase)
    then err busy
    else ok (byte request 1)

pub record Contents : Type 0 where
  pub layout : QualifiedLayout
  pub image : VerifiedInstalledImage

-- The reply of 64 bytes.
unfoldable pub encode : ℕ → Previewed Contents → List ℕ
unfolding preview_code
encode slot (err e) = 82 ∷ 75 ∷ 69 ∷ 49 ∷ preview_code e ∷ slot ∷ replicate 58 0
encode slot (ok c) =
    82
    ∷ 75
    ∷ 69
    ∷ 49
    ∷ 0
    ∷ slot
    ∷ c.layout.running_slot
    ∷ 0
    ∷ (u32_le_bytes c.image.secure_version
        ++ u32_le_bytes c.image.signed_image_bytes
        ++ c.image.signed_content_digest
        ++ u32_le_bytes c.layout.first_sequence
        ++ u32_le_bytes c.layout.second_sequence
        ++ replicate 8 0)

module _ {S H : Type 0} (sha : Sha256 H) (flash : FlashDriver S) (encrypted : Bool)
    (reader : ImageReader S) (trusted_root : List ℕ) where
  -- The closure of `handle`.
  unfoldable pub look : S → ℕ → ℕ → S × Previewed Contents
  unfolding same_layout
  look s descriptor slot =
      let (s, before) = qualified_layout flash encrypted s descriptor in
      elim before [
        | Attempt.failed e ↦ (s, err layout_error)
        | Attempt.done before ↦
            let (s, image) = verify_installed_slot sha reader slot s trusted_root in
            elim image [
              | Installed.err e ↦ (s, err image_error)
              | Installed.ok image ↦
                  let (s, after) = qualified_layout flash encrypted s descriptor in
                  elim after [
                    | Attempt.failed e ↦ (s, err layout_error)
                    | Attempt.done after ↦
                        if not (same_layout before after)
                        then (s, err layout_error)
                        else (s, ok (record { layout = after; image = image }))
                  ]
            ]
      ]

  -- `none` is a request for somebody else.
  unfoldable pub handle : S → List ℕ → ℕ → Phase → S × Option (List ℕ)
  unfolding requested_slot encode look
  handle s [] descriptor phase = (s, none)
  handle s (first ∷ others) descriptor phase =
      if not (first == request_preview)
      then (s, none)
      else elim (requested_slot (first ∷ others) phase) [
        | err e ↦ (s, some (encode 255 (err e)))
        | ok slot ↦ let (s, result) = look s descriptor slot in (s, some (encode slot result))
      ]
