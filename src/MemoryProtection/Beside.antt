-- ===== src/MemoryProtection/Beside.antt =====
-- Registers of src/platform/memory_protection.rs that a run of writes leaves as they were.
use salpa.Base.{ℕ, ◌-◌, ◌<◌, ◌≡◌, refl, ap, ◌∙◌, bit_and, true, List, [], ◌∷◌, u32_mod, arith}
use salpa.Base.Bits.{words_of, bit_and-ones}
use salpa.MemoryProtection.Policy.{
  Permission, locks, monitors, permissions, policy_values, fine_sram, dram,
}
use salpa.MemoryProtection.Registers.{Registers, permissions_match}
use salpa.MemoryProtection.Enforced.{Each, EachOffset}
use salpa.MemoryProtection.Writes.{Avoids, Apart, AvoidsAll, merged-under, merged-beside}
use salpa.MemoryProtection.Unlocked.{Under, ApartAll, Installed}

pub to_same :
    (ps : List Permission) (vs : List ℕ) (before f g : ℕ → ℕ)
    → EachOffset (λ o. g o ≡ f o) ps
    → Installed before f ps vs
    → Installed before g ps vs
to_same [] vs before f g s i = tt
to_same (p ∷ ps) [] before f g s i = tt
to_same (p ∷ ps) (v ∷ vs) before f g (s, ss) (i, more) = (s ∙ i, to_same ps vs before f g ss more)

-- A register's bits beside its mask are as they were.
abbrev pub Beside : (ℕ → ℕ) → (ℕ → ℕ) → List Permission → Type 0
Beside before after [] = Unit
Beside before after (p ∷ ps) =
    (bit_and (after p.offset) (u32_mod - 1 - p.mask)
      ≡ bit_and (before p.offset) (u32_mod - 1 - p.mask))
    × Beside before after ps

pub policy-Under :
    (iram_end data_start : ℕ)
    → fine_sram iram_end < 0x800000
    → dram data_start < 0x20000000
    → Under permissions (policy_values iram_end data_start)
unfolding words_of
policy-Under iram_end data_start fine data_side = (
  (omega arith, refl),
  (
    (omega arith, bit_and-ones 23 (fine_sram iram_end) fine),
    (
      (omega arith, refl),
      (
        (omega arith, bit_and-ones 29 (dram data_start) data_side),
        (
          (omega arith, refl),
          ((omega arith, refl), ((omega arith, refl), ((omega arith, refl), tt))),
        ),
      ),
    ),
  ),
)

pub permissions-ApartAll : ApartAll permissions
permissions-ApartAll = omega arith

pub monitors-Apart : Apart monitors
monitors-Apart = omega arith

pub locks-Apart : Apart locks
locks-Apart = omega arith

abbrev pub FreeMonitors : ℕ → Type 0
FreeMonitors x = Avoids x monitors

abbrev pub FreeLocks : ℕ → Type 0
FreeLocks x = Avoids x locks

abbrev pub FreePermissions : ℕ → Type 0
FreePermissions x = AvoidsAll x permissions

pub permissions_free : EachOffset FreeMonitors permissions × EachOffset FreeLocks permissions
permissions_free = (omega arith, omega arith)

pub monitors_free : Each FreePermissions monitors × Each FreeLocks monitors
monitors_free = (omega arith, omega arith)

-- A function on offsets that agrees with another beside some registers does so at the others.
module _ (f g : ℕ → ℕ) (avoid : ℕ → Type 0) (same : (x : ℕ) → avoid x → f x ≡ g x) where
  pub same-Each : (os : List ℕ) → Each avoid os → Each (λ o. f o ≡ g o) os
  same-Each [] a = tt
  same-Each (o ∷ os) (a, rest) = (same o a, same-Each os rest)

  pub same-EachOffset :
      (ps : List Permission) → EachOffset avoid ps → EachOffset (λ o. f o ≡ g o) ps
  same-EachOffset [] a = tt
  same-EachOffset (p ∷ ps) (a, rest) = (same p.offset a, same-EachOffset ps rest)

-- Each register has its bits under the mask from the policy, and so the others as they were.
pub matched :
    {S : Type 0} (registers : Registers S) (before : ℕ → ℕ) (b : S) (ps : List Permission)
    (vs : List ℕ)
    → Under ps vs
    → Installed before (registers.read b) ps vs
    → permissions_match registers b ps vs ≡ true
unfolding permissions_match
matched registers before b [] vs u i = refl
matched registers before b (p ∷ ps) [] u i = absurd u
matched registers before b (p ∷ ps) (v ∷ vs) (u, us) (i, more) =
    let here : bit_and (registers.read b p.offset) p.mask ≡ v =
      ap (λ (w : ℕ). bit_and w p.mask) i ∙ merged-under (before p.offset) v p.mask u.0 ∙ u.1 in
    let rest = matched registers before b ps vs us more in ground (arith, here, rest)

pub beside :
    (before after : ℕ → ℕ) (ps : List Permission) (vs : List ℕ)
    → Under ps vs
    → Installed before after ps vs
    → Beside before after ps
beside before after [] vs u i = tt
beside before after (p ∷ ps) [] u i = absurd u
beside before after (p ∷ ps) (v ∷ vs) (u, us) (i, more) = (
  ap (λ (w : ℕ). bit_and w (u32_mod - 1 - p.mask)) i ∙ merged-beside (before p.offset) v p.mask u.0,
  beside before after ps vs us more,
)
