-- ===== src/MemoryProtection/Unlocked.antt =====
-- The loops of `configure` of src/platform/memory_protection.rs on registers that hold what is written.
use salpa.Base.{
  ℕ, ◌%◌, ◌<◌, ◌≡◌, sym, ap, subst, ◌∙◌, bit_and, Bool, true, false, List, [], ◌∷◌, u32_mod, arith,
}
use salpa.MemoryProtection.Policy.{Permission}
use salpa.MemoryProtection.Registers.{
  Registers, merged, replace_bits, clear_monitors, install_permissions, enable_monitors,
}
use salpa.MemoryProtection.Enforced.{Each, EachOffset}
use salpa.MemoryProtection.Writes.{
  Lawful, Avoids, Apart, AvoidsAll, replace-other, replace-plain, replace-enables, replace-clears,
  replace-holds, clear-other, enable-other, install-other,
}

-- Each permission's value lies under its mask.
abbrev pub Under : List Permission → List ℕ → Type 0
Under (p ∷ ps) (v ∷ vs) = ((p.mask < u32_mod) × (bit_and v p.mask ≡ v)) × Under ps vs
Under [] vs = Unit
Under (p ∷ ps) [] = ⊥

abbrev pub ApartAll : List Permission → Type 0
ApartAll [] = Unit
ApartAll (p ∷ ps) = AvoidsAll p.offset ps × ApartAll ps

pub transfer :
    (Q : ℕ → Type 0) (os : List ℕ) (f g : ℕ → ℕ)
    → Each (λ o. f o ≡ g o) os
    → Each (λ o. Q (g o)) os
    → Each (λ o. Q (f o)) os
transfer Q [] f g s q = tt
transfer Q (o ∷ os) f g (s, ss) (q, qs) = (subst Q (sym s) q, transfer Q os f g ss qs)

-- Each register has its bits under the mask replaced.
abbrev pub Installed : (ℕ → ℕ) → (ℕ → ℕ) → List Permission → List ℕ → Type 0
Installed before after (p ∷ ps) (v ∷ vs) =
    (after p.offset ≡ merged (before p.offset) p.mask v) × Installed before after ps vs
Installed before after [] vs = Unit
Installed before after (p ∷ ps) [] = Unit

pub from_same :
    (ps : List Permission) (vs : List ℕ) (f g after : ℕ → ℕ)
    → EachOffset (λ o. f o ≡ g o) ps
    → Installed f after ps vs
    → Installed g after ps vs
from_same [] vs f g after s i = tt
from_same (p ∷ ps) [] f g after s i = tt
from_same (p ∷ ps) (v ∷ vs) f g after (s, ss) (i, more) =
    (i ∙ ap (λ (w : ℕ). merged w p.mask v) s, from_same ps vs f g after ss more)

module _ {S : Type 0} (registers : Registers S) (is_monitor : ℕ → Bool)
    (lawful : Lawful registers is_monitor) where
  pub quiet_after :
      (os : List ℕ) (b : S)
      → Apart os
      → Each (λ o. is_monitor o ≡ true) os
      → Each (λ o. registers.read (clear_monitors registers b os) o % 8 ≡ 0) os
  unfolding clear_monitors
  quiet_after [] b a m = tt
  quiet_after (o ∷ os) b (a, rest) (m, ms) =
      let c = replace_bits registers (replace_bits registers b o 3 1) o 3 0 in
      let low =
        replace-enables registers is_monitor lawful (replace_bits registers b o 3 1) o 0 m in
      let fault =
        replace-holds registers is_monitor lawful (replace_bits registers b o 3 1) o 0 (omega arith)
          m
        ∙ replace-clears registers is_monitor lawful b o m in
      let here : registers.read c o % 8 ≡ 0 = omega (arith, low, fault) in
      (
        ap (λ (w : ℕ). w % 8) (clear-other registers is_monitor lawful os c o a) ∙ here,
        quiet_after os c rest ms,
      )

  replaced :
      (os : List ℕ) (b : S) (o v : ℕ)
      → Avoids o os
      → Each (λ x. registers.read (replace_bits registers b o 3 v) x ≡ registers.read b x) os
  replaced [] b o v a = tt
  replaced (x ∷ os) b o v (n, a) =
      (replace-other registers is_monitor lawful b o 3 v x (λ e. n (sym e)), replaced os b o v a)

  replaced_all :
      (ps : List Permission) (b : S) (o m v : ℕ)
      → AvoidsAll o ps
      → EachOffset (λ x. registers.read (replace_bits registers b o m v) x ≡ registers.read b x) ps
  replaced_all [] b o m v a = tt
  replaced_all (p ∷ ps) b o m v (n, a) = (
    replace-other registers is_monitor lawful b o m v p.offset (λ e. n (sym e)),
    replaced_all ps b o m v a,
  )

  pub watching_after :
      (os : List ℕ) (b : S)
      → Apart os
      → Each (λ o. is_monitor o ≡ true) os
      → Each (λ o. registers.read b o % 8 ≡ 0) os
      → Each (λ o. registers.read (enable_monitors registers b os) o % 8 ≡ 2) os
  unfolding enable_monitors
  watching_after [] b a m q = tt
  watching_after (o ∷ os) b (a, rest) (m, ms) (q, qs) =
      let c = replace_bits registers b o 3 2 in
      let low = replace-enables registers is_monitor lawful b o 2 m in
      let fault = replace-holds registers is_monitor lawful b o 2 (omega arith) m in
      let here : registers.read c o % 8 ≡ 2 = omega (arith, low, fault, q) in
      (
        ap (λ (w : ℕ). w % 8) (enable-other registers is_monitor lawful os c o a) ∙ here,
        watching_after os c rest ms (
            transfer (λ (w : ℕ). w % 8 ≡ 0) os (registers.read c) (registers.read b)
              (replaced os b o 2 a) qs),
      )

  pub after-Installed :
      (ps : List Permission) (vs : List ℕ) (b : S)
      → ApartAll ps
      → EachOffset (λ o. is_monitor o ≡ false) ps
      → Installed (registers.read b) (registers.read (install_permissions registers b ps vs)) ps vs
  unfolding install_permissions
  after-Installed [] vs b a m = tt
  after-Installed (p ∷ ps) [] b a m = tt
  after-Installed (p ∷ ps) (v ∷ vs) b (a, rest) (m, ms) =
      let c = replace_bits registers b p.offset p.mask v in
      (
        install-other registers is_monitor lawful ps vs c p.offset a
            ∙ replace-plain registers is_monitor lawful b p.offset p.mask v m,
        from_same ps vs (registers.read c) (registers.read b) _
            (replaced_all ps b p.offset p.mask v a) (after-Installed ps vs c rest ms),
      )
