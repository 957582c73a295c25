-- ===== src/SecurityEpoch/Told.antt =====
-- What a reply of src/platform/security_epoch_preview.rs tells.
use salpa.Base.{ℕ, ◌≤◌, ◌≡◌, ◌⊎◌, Bool, true, List, ◌∷◌, byte, length, replicate}
use salpa.SignedImage.Format.{Sha256}
use salpa.SignedImage.Installed.{ImageReader, VerifiedInstalledImage, verify_installed_slot}
use salpa.SignedImage.Installed as Installed
use salpa.Ota.Records.{QualifiedLayout}
use salpa.Ota.Flash.{FlashDriver, Attempt, qualified_layout}
use salpa.UsbUpdate.Protocol.{Phase}
use salpa.SecurityEpoch.Qualify.{same_layout}
use salpa.SecurityEpoch.Maintenance.{is_idle}
use salpa.SecurityEpoch.Preview.{PreviewError, preview_code, Previewed, ok, err, Contents, encode}

-- A reply that tells an error, and nothing of any slot.
abbrev pub Silent : List ℕ → Type 0
Silent reply =
    (e : PreviewError) × ((slot : ℕ) × (reply
        ≡ 82 ∷ 75 ∷ 69 ∷ 49 ∷ preview_code e ∷ slot ∷ replicate 58 0))

value_of : {A : Type 0} → Previewed A → A → A
value_of (ok a) other = a
value_of (err e) other = other

-- A request that is heard is for one of the two slots, while no update goes on.
pub record Heard (request : List ℕ) (phase : Phase) (slot : ℕ) : Type 0 where
  pub whole : length request ≡ 2
  pub quiet : is_idle phase ≡ true
  pub named : byte request 1 ≡ slot
  pub in_range : slot ≤ 1

module _ {S H : Type 0} (sha : Sha256 H) (flash : FlashDriver S) (encrypted : Bool)
    (reader : ImageReader S) (trusted_root : List ℕ) where
  -- From `s` on, the boot records are read, then the image of the slot is verified, and then the boot
  -- records are read again, which leaves `end`; the two readings agree.
  pub record Seen (s : S) (descriptor slot : ℕ) (c : Contents) (end : S) : Type 0 where
    pub before : QualifiedLayout
    pub qualified : (qualified_layout flash encrypted s descriptor).1 ≡ Attempt.done before
    pub verified :
        let b = (qualified_layout flash encrypted s descriptor).0 in
        (verify_installed_slot sha reader slot b trusted_root).1 ≡ Installed.ok c.image
    pub requalified :
        let b = (qualified_layout flash encrypted s descriptor).0 in
        let b = (verify_installed_slot sha reader slot b trusted_root).0 in
        qualified_layout flash encrypted b descriptor ≡ (end, Attempt.done c.layout)
    pub unmoved : same_layout before c.layout ≡ true

  -- What a reply tells, for a request that leaves the device in `end`.
  abbrev pub Tells : S → List ℕ → ℕ → Phase → List ℕ → S → Type 0
  Tells s request descriptor phase reply end =
      Silent reply
      ⊎ ((slot : ℕ) × ((c : Contents) × (Heard request phase slot
              × Seen s descriptor slot c end
              × (reply ≡ encode slot (ok c)))))
