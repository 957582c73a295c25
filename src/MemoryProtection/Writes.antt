-- ===== src/MemoryProtection/Writes.antt =====
-- Registers that hold what src/platform/memory_protection.rs writes to them.
use salpa.Base.{
  ℕ, ◌-◌, ◌/◌, ◌%◌, ◌<◌, ◌≡◌, ◌≢◌, refl, sym, ◌∙◌, bit_and, Bool, true, false, List, [], ◌∷◌,
  u32_mod, arith,
}
use salpa.Base.Bits.{words_of, merge, bit_and_three}
use salpa.MemoryProtection.Policy.{Permission}
use salpa.MemoryProtection.Registers.{
  Registers, merged, replace_bits, clear_monitors, install_permissions, enable_monitors, set_locks,
}
use salpa.MemoryProtection.Enforced.{Each, EachOffset}

-- A monitor takes its lower bits, and a write that sets the lowest clears its pending fault; any other
-- register holds the word written. A write leaves the other registers alone.
pub record Lawful {S : Type 0} (registers : Registers S) (is_monitor : ℕ → Bool) : Type 0 where
  pub other :
      (b : S) (o v x : ℕ) → x ≢ o → registers.read (registers.write b o v) x ≡ registers.read b x
  pub plain :
      (b : S) (o v : ℕ) → is_monitor o ≡ false → registers.read (registers.write b o v) o ≡ v
  pub enables :
      (b : S) (o v : ℕ) → is_monitor o ≡ true → registers.read (registers.write b o v) o % 4 ≡ v % 4
  pub clears :
      (b : S) (o v : ℕ)
      → is_monitor o ≡ true
      → v % 2 ≡ 1
      → registers.read (registers.write b o v) o / 4 % 2 ≡ 0
  pub holds :
      (b : S) (o v : ℕ)
      → is_monitor o ≡ true
      → v % 2 ≡ 0
      → registers.read (registers.write b o v) o / 4 % 2 ≡ registers.read b o / 4 % 2

pub merged-under : (p v m : ℕ) → m < u32_mod → bit_and (merged p m v) m ≡ bit_and v m
unfolding merged words_of
merged-under p v m l = (merge 32 p v m l).0

pub merged-beside :
    (p v m : ℕ)
    → m < u32_mod
    → bit_and (merged p m v) (u32_mod - 1 - m) ≡ bit_and p (u32_mod - 1 - m)
unfolding merged words_of
merged-beside p v m l = (merge 32 p v m l).1

merged-three : (p v : ℕ) → merged p 3 v % 4 ≡ v % 4
merged-three p v = sym (bit_and_three _) ∙ merged-under p v 3 (omega arith) ∙ bit_and_three v

-- Offsets that differ from `x`, from each other, or that are monitors.
abbrev pub Avoids : ℕ → List ℕ → Type 0
Avoids x os = Each (λ o. x ≢ o) os

abbrev pub Apart : List ℕ → Type 0
Apart [] = Unit
Apart (o ∷ os) = Avoids o os × Apart os

abbrev pub AvoidsAll : ℕ → List Permission → Type 0
AvoidsAll x ps = EachOffset (λ o. x ≢ o) ps

module _ {S : Type 0} (registers : Registers S) (is_monitor : ℕ → Bool)
    (lawful : Lawful registers is_monitor) where
  pub replace-other :
      (b : S) (o m v x : ℕ)
      → x ≢ o
      → registers.read (replace_bits registers b o m v) x ≡ registers.read b x
  unfolding replace_bits
  replace-other b o m v x n = lawful.other b o _ x n

  pub replace-plain :
      (b : S) (o m v : ℕ)
      → is_monitor o ≡ false
      → registers.read (replace_bits registers b o m v) o ≡ merged (registers.read b o) m v
  unfolding replace_bits
  replace-plain b o m v n = lawful.plain b o _ n

  pub replace-enables :
      (b : S) (o v : ℕ)
      → is_monitor o ≡ true
      → registers.read (replace_bits registers b o 3 v) o % 4 ≡ v % 4
  unfolding replace_bits
  replace-enables b o v h = lawful.enables b o _ h ∙ merged-three _ v

  pub replace-clears :
      (b : S) (o : ℕ)
      → is_monitor o ≡ true
      → registers.read (replace_bits registers b o 3 1) o / 4 % 2 ≡ 0
  unfolding replace_bits
  replace-clears b o h = lawful.clears b o _ h (omega (arith, merged-three (registers.read b o) 1))

  pub replace-holds :
      (b : S) (o v : ℕ)
      → v % 2 ≡ 0
      → is_monitor o ≡ true
      → registers.read (replace_bits registers b o 3 v) o / 4 % 2 ≡ registers.read b o / 4 % 2
  unfolding replace_bits
  replace-holds b o v e h =
      lawful.holds b o _ h (omega (arith, merged-three (registers.read b o) v))

  pub clear-other :
      (os : List ℕ) (b : S) (x : ℕ)
      → Avoids x os
      → registers.read (clear_monitors registers b os) x ≡ registers.read b x
  unfolding clear_monitors
  clear-other [] b x a = refl
  clear-other (o ∷ os) b x (n, a) =
      clear-other os (replace_bits registers (replace_bits registers b o 3 1) o 3 0) x a
      ∙ replace-other _ o 3 0 x n
      ∙ replace-other b o 3 1 x n

  pub enable-other :
      (os : List ℕ) (b : S) (x : ℕ)
      → Avoids x os
      → registers.read (enable_monitors registers b os) x ≡ registers.read b x
  unfolding enable_monitors
  enable-other [] b x a = refl
  enable-other (o ∷ os) b x (n, a) =
      enable-other os (replace_bits registers b o 3 2) x a ∙ replace-other b o 3 2 x n

  pub set-other :
      (os : List ℕ) (b : S) (x : ℕ)
      → Avoids x os
      → registers.read (set_locks registers b os) x ≡ registers.read b x
  unfolding set_locks
  set-other [] b x a = refl
  set-other (o ∷ os) b x (n, a) = set-other os (registers.write b o 1) x a ∙ lawful.other b o 1 x n

  pub install-other :
      (ps : List Permission) (vs : List ℕ) (b : S) (x : ℕ)
      → AvoidsAll x ps
      → registers.read (install_permissions registers b ps vs) x ≡ registers.read b x
  unfolding install_permissions
  install-other [] vs b x a = refl
  install-other (p ∷ ps) [] b x a = refl
  install-other (p ∷ ps) (v ∷ vs) b x (n, a) =
      install-other ps vs (replace_bits registers b p.offset p.mask v) x a
      ∙ replace-other b p.offset p.mask v x n
