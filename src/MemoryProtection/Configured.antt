-- ===== src/MemoryProtection/Configured.antt =====
-- `configure` of src/platform/memory_protection.rs succeeds on registers that hold what is written.
use salpa.Base.{
  ℕ, ◌%◌, ◌≡◌, refl, sym, ap, subst, ◌∙◌, bit_and, Bool, true, false, not, ◌&&◌, ◌||◌, some, List,
  [], ◌∷◌, arith, if-cases,
}
use salpa.Base.Bits.{bit_and_seven}
use salpa.MemoryProtection.Policy.{Policy, locks, monitors, permissions, new, new-Splits}
use salpa.MemoryProtection.Registers.{
  Registers, Outcome, ok, monitors_match, matches_policy, any_locked, all_set, clear_monitors,
  install_permissions, enable_monitors, set_locks, lock, install, configure_unlocked, configure,
}
use salpa.MemoryProtection.Enforced.{Each, EachOffset}
use salpa.MemoryProtection.Writes.{
  Lawful, Avoids, Apart, AvoidsAll, clear-other, enable-other, set-other, install-other,
}
use salpa.MemoryProtection.Unlocked.{
  Under, Installed, transfer, from_same, quiet_after, watching_after, after-Installed,
}
use salpa.MemoryProtection.Beside.{
  to_same, Beside, policy-Under, permissions-ApartAll, monitors-Apart, locks-Apart, FreeMonitors,
  FreeLocks, FreePermissions, permissions_free, monitors_free, matched, beside, same-Each,
  same-EachOffset,
}

module _ {S : Type 0} (registers : Registers S) (is_monitor : ℕ → Bool)
    (lawful : Lawful registers is_monitor) where
  watched :
      (b : S) (os : List ℕ)
      → Each (λ o. registers.read b o % 8 ≡ 2) os
      → monitors_match registers b os ≡ true
  unfolding monitors_match
  watched b [] e = refl
  watched b (o ∷ os) (e, es) = ground (arith, bit_and_seven (registers.read b o), watched b os es)

  set_after :
      (os : List ℕ) (b : S)
      → Apart os
      → Each (λ o. is_monitor o ≡ false) os
      → all_set registers (set_locks registers b os) os ≡ true
  unfolding all_set set_locks
  set_after [] b a m = refl
  set_after (o ∷ os) b (a, rest) (m, ms) =
      let c = registers.write b o 1 in
      let here : registers.read (set_locks registers c os) o ≡ 1 =
        set-other registers is_monitor lawful os c o a ∙ lawful.plain b o 1 m in
      let one : bit_and (registers.read (set_locks registers c os) o) 1 ≡ 1 =
        ap (λ (w : ℕ). bit_and w 1) here in
      ground (arith, one, set_after os c rest ms)

  locked_ok :
      (c : S) (policy : Policy)
      → all_set registers (set_locks registers c locks) locks ≡ true
      → matches_policy registers (set_locks registers c locks) policy ≡ true
      → lock registers c policy ≡ (set_locks registers c locks, ok)
  unfolding lock
  locked_ok c policy set second =
      if-cases (λ (r : S × Outcome). r ≡ (set_locks registers c locks, ok))
        (not (all_set registers (set_locks registers c locks) locks)
          || not (matches_policy registers (set_locks registers c locks) policy))
        (λ t. absurd (clash (all_set registers (set_locks registers c locks) locks) _ set second t))
        (λ _. refl)
    where
      clash : (x y : Bool) → x ≡ true → y ≡ true → (not x || not y) ≡ true → ⊥
      clash x y p q r = ground arith

  succeeds :
      (b : S) (policy : Policy)
      → any_locked registers b locks ≡ false
      → matches_policy registers (install registers b policy) policy ≡ true
      → all_set registers (set_locks registers (install registers b policy) locks) locks ≡ true
      → matches_policy registers (set_locks registers (install registers b policy) locks) policy
        ≡ true
      → configure registers b policy ≡ (set_locks registers (install registers b policy) locks, ok)
  unfolding configure configure_unlocked
  succeeds b policy unlocked first set second =
      let c = install registers b policy in
      let P : S × Outcome → Type 0 = λ r. r ≡ (set_locks registers c locks, ok) in
      if-cases P (any_locked registers b locks) (λ t. cc)
        (λ _.
          if-cases P (not (matches_policy registers c policy))
            (λ t. absurd (clash (matches_policy registers c policy) first t))
            (λ _. locked_ok c policy set second))
    where
      clash : (x : Bool) → x ≡ true → not x ≡ true → ⊥
      clash x p r = ground arith

  -- What a successful configuration of unlocked registers has done to the words.
  pub record Changed (before after : ℕ → ℕ) (policy : Policy) : Type 0 where
    pub beside_masks : Beside before after permissions
    pub elsewhere :
        (x : ℕ) → Avoids x monitors → AvoidsAll x permissions → Avoids x locks → after x ≡ before x

  module _ (b : S) (policy : Policy) (under : Under permissions policy.values)
      (ms : Each (λ o. is_monitor o ≡ true) monitors)
      (ps : EachOffset (λ o. is_monitor o ≡ false) permissions)
      (ls : Each (λ o. is_monitor o ≡ false) locks) where
    abbrev cleared : S
    cleared = clear_monitors registers b monitors

    abbrev permitted : S
    permitted = install_permissions registers cleared permissions policy.values

    abbrev enabled : S
    enabled = enable_monitors registers permitted monitors

    abbrev fixed : S
    fixed = set_locks registers enabled locks

    enabled-Installed :
        Installed (registers.read b) (registers.read enabled) permissions policy.values
    enabled-Installed =
        to_same permissions policy.values (registers.read b) (registers.read permitted)
          (registers.read enabled)
          (same-EachOffset (registers.read enabled) (registers.read permitted) FreeMonitors
            (enable-other registers is_monitor lawful monitors permitted) permissions
            permissions_free.0)
          (from_same permissions policy.values (registers.read cleared) (registers.read b)
            (registers.read permitted)
            (same-EachOffset (registers.read cleared) (registers.read b) FreeMonitors
              (clear-other registers is_monitor lawful monitors b) permissions permissions_free.0)
            (after-Installed registers is_monitor lawful permissions policy.values cleared
              permissions-ApartAll ps))

    fixed-Installed : Installed (registers.read b) (registers.read fixed) permissions policy.values
    fixed-Installed =
        to_same permissions policy.values (registers.read b) (registers.read enabled)
          (registers.read fixed)
          (same-EachOffset (registers.read fixed) (registers.read enabled) FreeLocks
            (set-other registers is_monitor lawful locks enabled) permissions permissions_free.1)
          enabled-Installed

    enabled-watching : Each (λ o. registers.read enabled o % 8 ≡ 2) monitors
    enabled-watching =
        watching_after registers is_monitor lawful monitors permitted monitors-Apart ms (
          transfer (λ (w : ℕ). w % 8 ≡ 0) monitors (registers.read permitted)
            (registers.read cleared)
            (same-Each (registers.read permitted) (registers.read cleared) FreePermissions
              (install-other registers is_monitor lawful permissions policy.values cleared) monitors
              monitors_free.0)
            (quiet_after registers is_monitor lawful monitors b monitors-Apart ms))

    fixed-watching : Each (λ o. registers.read fixed o % 8 ≡ 2) monitors
    fixed-watching =
        transfer (λ (w : ℕ). w % 8 ≡ 2) monitors (registers.read fixed) (registers.read enabled)
          (same-Each (registers.read fixed) (registers.read enabled) FreeLocks
            (set-other registers is_monitor lawful locks enabled) monitors monitors_free.1)
          enabled-watching

    both_match :
        (matches_policy registers enabled policy ≡ true)
        × (matches_policy registers fixed policy ≡ true)
    unfolding matches_policy
    both_match = (
      and_true
          (matched registers (registers.read b) enabled permissions policy.values under
            enabled-Installed)
          (watched enabled monitors enabled-watching),
      and_true
          (matched registers (registers.read b) fixed permissions policy.values under
            fixed-Installed)
          (watched fixed monitors fixed-watching),
    )
      where
        and_true : {x y : Bool} → x ≡ true → y ≡ true → (x && y) ≡ true
        and_true {x} {y} p q = ground arith

    -- Where no lock is set, `configure` succeeds, and the last state is that after the locks.
    configured :
        any_locked registers b locks ≡ false
        → (configure registers b policy ≡ (fixed, ok))
          × Changed (registers.read b) (registers.read fixed) policy
    configured unlocked = (
      unfold install in
          succeeds b policy unlocked both_match.0 (set_after locks enabled locks-Apart ls)
            both_match.1,
      record {
        beside_masks =
            beside (registers.read b) (registers.read fixed) permissions policy.values under
              fixed-Installed;
        elsewhere = λ x m p l.
            set-other registers is_monitor lawful locks enabled x l
            ∙ enable-other registers is_monitor lawful monitors permitted x m
            ∙ install-other registers is_monitor lawful permissions policy.values cleared x p
            ∙ clear-other registers is_monitor lawful monitors b x m;
      },
    )

  -- On registers that hold what is written to them, none of them locked, and for a policy that
  -- `Policy::new` made, `configure` succeeds: it changes no bit of a permission register outside its
  -- mask, and no register other than the monitors, the permissions and the locks.
  pub configure_succeeds :
      (b : S) (iram_end data_start : ℕ) (policy : Policy)
      → new iram_end data_start ≡ some policy
      → any_locked registers b locks ≡ false
      → Each (λ o. is_monitor o ≡ true) monitors
      → EachOffset (λ o. is_monitor o ≡ false) permissions
      → Each (λ o. is_monitor o ≡ false) locks
      → let r = configure registers b policy in
        (r.1 ≡ ok) × Changed (registers.read b) (registers.read r.0) policy
  configure_succeeds b iram_end data_start policy made unlocked ms ps ls =
      let s = new-Splits iram_end data_start policy made in
      let under : Under permissions policy.values =
        subst (λ (vs : List ℕ). Under permissions vs) (sym s.0)
          (policy-Under iram_end data_start s.6 s.7) in
      let (e, changed) = configured b policy under ms ps ls unlocked in
      (
        ap (λ (r : S × Outcome). r.1) e,
        subst (λ (r : S × Outcome). Changed (registers.read b) (registers.read r.0) policy) (sym e)
            changed,
      )
