-- ===== src/Esp32S2/Confined.antt =====
-- What the host's update requests can change on the flash of the ESP32-S2.
use mathlib.Core.Option
use salpa.Base.{
  ℕ, ◌+◌, ◌-◌, ◌*◌, ◌/◌, ◌≡◌, inl, inr, refl, ap, sym, subst, ◌∙◌, Bool, Option, none, some, List,
  length, arith, if-cases, some-injective,
}
use salpa.FlashEncryption.Driver.{Rom, Device}
use salpa.FlashEncryption.Contents.{Faithful, Beyond}
use salpa.FlashEncryption.Writing.{write-outside}
use salpa.FlashEncryption.Erasing.{erase-outside as flash_erase}
use salpa.SignedImage.Format.{Sha256, ota_slot_size}
use salpa.Ota.Records.{update_slot_offset, Offer}
use salpa.Ota.Flash
use salpa.Ota.Flash.{otadata_offset, Attempt}
use salpa.Ota.Steps.{Runs}
use salpa.Ota.Confined.{KeepsRecords, update_layout-keeps, activate_update-keeps}
use salpa.Ota.Offered.{Located, update_layout-Located}
use salpa.UsbUpdate.Protocol.{UpdateLayout}
use salpa.UsbUpdate.Session.{new}
use salpa.UsbUpdate.Confined.{Keeps}
use salpa.UsbUpdate.Confined.Requests.{Event, run, run-Confined}
use salpa.Esp32S2.Backend.{
  Spi, ota_driver, backend, layout, activate, now_ms, verify_rsa_pss, or_ota_error, answer,
  update_layout_of,
}
use salpa.Esp32S2.Spares.{Quiet, erase-outside, write-in_slot, read-contents}

-- The bytes outside the slot at `base` and outside the two records of otadata.
abbrev pub Elsewhere : ℕ → ℕ → Type 0
Elsewhere base x = Beyond base ota_slot_size x × Beyond otadata_offset 0x2000 x

Located-running :
    (slot offset running : ℕ)
    → Located slot offset
    → update_slot_offset running ≡ some offset
    → slot ≡ running
unfolding update_slot_offset
Located-running slot offset running l e = ground arith

offered_layout :
    (o : Option Offer) (l : UpdateLayout)
    → Option.map update_layout_of o ≡ some l
    → (offer : Offer) × (o ≡ some offer) × (l.active_slot ≡ offer.slot)
offered_layout none l e = cc
offered_layout (some offer) l e =
    (offer, refl, ap (λ (l : UpdateLayout). l.active_slot) (sym (some-injective _ l e)))

module _ {S : Type 0} (rom : Rom S) (spi : Spi S) (encrypted : Bool) (contents : S → ℕ → ℕ)
    (window : S → ℕ) (faithful : Faithful rom contents window) (quiet : Quiet spi contents) where
  module _ (x c : ℕ) (elsewhere : Beyond otadata_offset 0x2000 x) where
    abbrev Holds : Device S → Type 0
    Holds d = contents d.chip x ≡ c

    records : KeepsRecords (ota_driver rom spi encrypted) Holds
    records = record {
      read = λ d at n h.
          if-cases (λ (r : Device S × Option (List ℕ)). Holds r.0) encrypted (λ _. h)
            (λ _. ap (λ (f : ℕ → ℕ). f x) (quiet.read d.chip at n) ∙ h);
      unlock = λ d h. ap (λ (f : ℕ → ℕ). f x) (faithful.unlock_keeps d.chip).0 ∙ h;
      register = λ d at h. ap (λ (f : ℕ → ℕ). f x) (quiet.register d.chip at) ∙ h;
      erase = λ d place p h.
          let at = otadata_offset + place * 0x1000 in
          let apart : Beyond at 0x1000 x = elim elsewhere [
            | inl l ↦ inl (omega arith)
            | inr l ↦ inr (omega arith)
          ] in
          let sector : at / 0x1000 * 0x1000 ≡ at = omega arith in
          if-cases (λ (r : Device S × Bool). Holds r.0) encrypted
            (λ _. (flash_erase rom contents window faithful d at 0x1000 x (omega arith) apart) ∙ h)
            (λ _.
              faithful.erase_spares d.chip (at / 0x1000) x
                (subst (λ (a : ℕ). Beyond a 0x1000 x) (sym sector) apart)
              ∙ h);
      write = λ d place bytes p l h.
          let at = otadata_offset + place * 0x1000 in
          let apart : Beyond at (length bytes) x = elim elsewhere [
            | inl lo ↦ inl (omega arith)
            | inr hi ↦ inr (omega arith)
          ] in
          if-cases (λ (r : Device S × Bool). Holds r.0) encrypted
            (λ _. write-outside rom contents window faithful d at bytes x (omega arith) apart ∙ h)
            (λ _. quiet.write d.chip at bytes x apart ∙ h);
    }

  module _ (descriptor running base : ℕ) (origin : ℕ → ℕ)
      (target : update_slot_offset (1 - running) ≡ some base)
      (mapped : (offset : ℕ)
        → Runs (ota_driver rom spi encrypted) encrypted descriptor offset
        → update_slot_offset running ≡ some offset) where
    -- The plaintext outside the slot that does not run, and outside otadata, is the original.
    abbrev pub Untouched : Device S → Type 0
    Untouched d = (x : ℕ) → Elsewhere base x → contents d.chip x ≡ origin x

    layout-Untouched :
        (d : Device S) → Untouched d → Untouched (layout rom spi encrypted descriptor d).0
    unfolding layout
    layout-Untouched d u x e =
        update_layout-keeps (ota_driver rom spi encrypted) encrypted
          (λ (d : Device S). contents d.chip x ≡ origin x) (records x (origin x) e.1) d descriptor
          (u x e)

    layout-runs :
        (d : Device S) (o : Offer) (r : Attempt Offer)
        → r ≡ (Flash.update_layout (ota_driver rom spi encrypted) encrypted d descriptor).1
        → answer (or_ota_error r) ≡ some o
        → o.slot ≡ running
    layout-runs d o (Attempt.done a) e h =
        let (offset, runs, located) =
          update_layout-Located (ota_driver rom spi encrypted) encrypted d descriptor o
            (sym e ∙ ap (λ (o : Offer). Attempt.done o) (some-injective a o h)) in
        Located-running o.slot offset running located (mapped offset runs)
    layout-runs d o (Attempt.failed a) e h = cc

    at_x :
        {f : ℕ → ℕ} (d : Device S)
        → f ≡ contents d.chip
        → Untouched d
        → (x : ℕ) → Elsewhere base x
        → f x ≡ origin x
    at_x d same u x e = ap (λ (f : ℕ → ℕ). f x) same ∙ u x e

    keeps : Keeps (backend rom spi encrypted descriptor) running Untouched
    unfolding layout activate now_ms verify_rsa_pss
    keeps = record {
      clock = λ d u. at_x d (quiet.clock d.chip) u;
      layout = λ d u. layout-Untouched d u;
      runs = λ d l u h.
          let (offer, found, slot) =
            offered_layout (answer (layout rom spi encrypted descriptor d).1) l h in
          slot
          ∙ layout-runs d offer
              (Flash.update_layout (ota_driver rom spi encrypted) encrypted d descriptor).1 refl
              found;
      read = λ d slot at n u.
          at_x d (read-contents rom spi encrypted contents window faithful quiet d slot at n) u;
      verify = λ d key signature digest u. at_x d (quiet.verify d.chip _ _ _ _ signature digest) u;
      erase = λ d at n fits u x e.
          erase-outside rom spi encrypted contents window faithful quiet d (1 - running) at n base x
            target e.0
          ∙ u x e;
      write = λ d at bytes fits u x e.
          write-in_slot rom spi encrypted contents window faithful quiet d (1 - running) at bytes
            base x target e.0
          ∙ u x e;
      activate = λ d sequence entry u x e.
          activate_update-keeps (ota_driver rom spi encrypted) encrypted
            (λ (d : Device S). contents d.chip x ≡ origin x) (records x (origin x) e.1) d
            (1 - running) sequence entry descriptor (u x e);
    }

  -- Whatever update requests reach an updater that `new` made over the ESP32-S2's flash, encrypted or
  -- plain, in any order and at any time: while the MMU maps the running image from slot `running`, no
  -- plaintext changes but in the other slot and in the two records of otadata.
  pub running_image_untouched :
      (H : Type 0) (sha : Sha256 H) (d : Device S) (descriptor running base : ℕ)
      (key version : List ℕ) (floor : ℕ) (es : List Event)
      → update_slot_offset (1 - running) ≡ some base
      → ((offset : ℕ)
          → Runs (ota_driver rom spi encrypted) encrypted descriptor offset
          → update_slot_offset running ≡ some offset)
      → (x : ℕ) → Elsewhere base x
      → contents
          (run sha (backend rom spi encrypted descriptor) (new d key version floor) es).backend.chip
          x
        ≡ contents d.chip x
  running_image_untouched H sha d descriptor running base key version floor es target mapped x e =
      (run-Confined sha (backend rom spi encrypted descriptor) running
          (Untouched descriptor running base (contents d.chip) target mapped)
          (keeps descriptor running base (contents d.chip) target mapped) d key version floor es
          (λ x _. refl)).0
        x e
