-- ===== src/MemoryProtection/Enforced.antt =====
-- What `configure` of src/platform/memory_protection.rs guarantees whatever the registers do.
use salpa.Base.{
  ℕ, ◌≡◌, ◌≢◌, ◌⊎◌, inl, inr, refl, bit_and, Bool, true, not, ◌&&◌, ◌||◌, List, [], ◌∷◌, if-cases,
  not-false, arith,
}
use salpa.MemoryProtection.Policy.{Policy, Permission, locks, monitors, permissions}
use salpa.MemoryProtection.Registers.{
  Registers, Outcome, ok, replace_bits, permissions_match, monitors_match, matches_policy,
  any_locked, all_locked, all_set, clear_monitors, install_permissions, enable_monitors, set_locks,
  lock, install, configure_unlocked, configure,
}

-- Every offset of a list has the property.
abbrev pub Each : (ℕ → Type 0) → List ℕ → Type 0
Each P [] = Unit
Each P (offset ∷ others) = P offset × Each P others

abbrev pub EachOffset : (ℕ → Type 0) → List Permission → Type 0
EachOffset P [] = Unit
EachOffset P (p ∷ ps) = P p.offset × EachOffset P ps

module _ {S : Type 0} (registers : Registers S) where
  abbrev pub Permitted : S → List Permission → List ℕ → Type 0
  Permitted b (p ∷ ps) (v ∷ vs) =
      (bit_and (registers.read b p.offset) p.mask ≡ v) × Permitted b ps vs
  Permitted b [] vs = Unit
  Permitted b (p ∷ ps) [] = Unit

  -- The locks are set, the permissions are the policy's, and every monitor is on with no fault.
  pub record Enforced (b : S) (policy : Policy) : Type 0 where
    pub locked : Each (λ o. bit_and (registers.read b o) 1 ≢ 0) locks
    pub permitted : Permitted b permissions policy.values
    pub watched : Each (λ o. bit_and (registers.read b o) 7 ≡ 2) monitors

  permitted_of :
      (b : S) (ps : List Permission) (vs : List ℕ)
      → permissions_match registers b ps vs ≡ true
      → Permitted b ps vs
  unfolding permissions_match
  permitted_of b [] vs h = tt
  permitted_of b (p ∷ ps) [] h = tt
  permitted_of b (p ∷ ps) (v ∷ vs) h = (ground arith, permitted_of b ps vs (ground arith))

  watched_of :
      (b : S) (os : List ℕ)
      → monitors_match registers b os ≡ true
      → Each (λ o. bit_and (registers.read b o) 7 ≡ 2) os
  unfolding monitors_match
  watched_of b [] h = tt
  watched_of b (o ∷ os) h = (ground arith, watched_of b os (ground arith))

  locked_of :
      (b : S) (os : List ℕ)
      → all_locked registers b os ≡ true
      → Each (λ o. bit_and (registers.read b o) 1 ≢ 0) os
  unfolding all_locked
  locked_of b [] h = tt
  locked_of b (o ∷ os) h = (ground arith, locked_of b os (ground arith))

  set_of :
      (b : S) (os : List ℕ)
      → all_set registers b os ≡ true
      → Each (λ o. bit_and (registers.read b o) 1 ≢ 0) os
  unfolding all_set
  set_of b [] h = tt
  set_of b (o ∷ os) h = (ground arith, set_of b os (ground arith))

  match-Enforced :
      (b : S) (policy : Policy)
      → Each (λ o. bit_and (registers.read b o) 1 ≢ 0) locks
      → matches_policy registers b policy ≡ true
      → Enforced b policy
  unfolding matches_policy
  match-Enforced b policy locked h = record {
    locked = locked;
    permitted = permitted_of b permissions policy.values (both h).0;
    watched = watched_of b monitors (both h).1;
  }
    where
      both : {x y : Bool} → (x && y) ≡ true → (x ≡ true) × (y ≡ true)
      both {x} {y} e = (ground arith, ground arith)

  lock-Enforced :
      (b : S) (policy : Policy)
      → (lock registers b policy).1 ≡ ok
      → Enforced (lock registers b policy).0 policy
  unfolding lock
  lock-Enforced b policy =
      let c = set_locks registers b locks in
      if-cases (λ (r : S × Outcome). r.1 ≡ ok → Enforced r.0 policy)
        (not (all_set registers c locks) || not (matches_policy registers c policy)) (λ t h. cc)
        (λ t h. match-Enforced c policy (set_of c locks (ground arith)) (ground arith))

  -- Where `configure` succeeds, whatever the registers do with what is written to them, all four
  -- locks read as set, every permission reads as the policy's value in its bits, and every monitor
  -- reads as enabled with no pending fault.
  pub configure-Enforced :
      (b : S) (policy : Policy)
      → (configure registers b policy).1 ≡ ok
      → Enforced (configure registers b policy).0 policy
  unfolding configure configure_unlocked
  configure-Enforced b policy =
      let P : S × Outcome → Type 0 = λ r. r.1 ≡ ok → Enforced r.0 policy in
      let c = install registers b policy in
      if-cases P (any_locked registers b locks)
        (λ t.
          if-cases (λ (o : Outcome). o ≡ ok → Enforced b policy)
            (all_locked registers b locks && matches_policy registers b policy)
            (λ t h. match-Enforced b policy (locked_of b locks (ground arith)) (ground arith))
            (λ t h. cc))
        (λ t.
          if-cases P (not (matches_policy registers c policy)) (λ t h. cc)
            (λ t. lock-Enforced c policy))

  -- Every write to the register keeps the predicate.
  abbrev pub Kept : (S → Type 0) → ℕ → Type 0
  Kept Q offset = (b : S) (value : ℕ) → Q b → Q (registers.write b offset value)

  module _ (Q : S → Type 0) where
    clear-kept :
        (os : List ℕ) → Each (Kept Q) os → (b : S) → Q b → Q (clear_monitors registers b os)
    unfolding clear_monitors replace_bits
    clear-kept [] k b q = q
    clear-kept (o ∷ os) (k, ks) b q =
        clear-kept os ks (replace_bits registers (replace_bits registers b o 3 1) o 3 0)
          (k _ _ (k b _ q))

    enable-kept :
        (os : List ℕ) → Each (Kept Q) os → (b : S) → Q b → Q (enable_monitors registers b os)
    unfolding enable_monitors replace_bits
    enable-kept [] k b q = q
    enable-kept (o ∷ os) (k, ks) b q = enable-kept os ks (replace_bits registers b o 3 2) (k b _ q)

    permissions-kept :
        (ps : List Permission) (vs : List ℕ)
        → EachOffset (Kept Q) ps
        → (b : S) → Q b
        → Q (install_permissions registers b ps vs)
    unfolding install_permissions replace_bits
    permissions-kept [] vs k b q = q
    permissions-kept (p ∷ ps) [] k b q = q
    permissions-kept (p ∷ ps) (v ∷ vs) (k, ks) b q =
        permissions-kept ps vs ks (replace_bits registers b p.offset p.mask v) (k b _ q)

    install-kept :
        (b : S) (policy : Policy)
        → Each (Kept Q) monitors
        → EachOffset (Kept Q) permissions
        → Q b
        → Q (install registers b policy)
    unfolding install
    install-kept b policy ms ps q =
        enable-kept monitors ms _
          (permissions-kept permissions policy.values ps _ (clear-kept monitors ms b q))

    -- Registers with a lock already set are left as they are. Otherwise `configure` writes only to the
    -- monitors and permissions (a predicate that those writes keep is kept) until a state in which
    -- every permission and monitor read back as the policy's, and only from there on to the locks.
    pub locks_last :
        (b : S) (policy : Policy)
        → Each (Kept Q) monitors
        → EachOffset (Kept Q) permissions
        → Q b
        → let r = configure registers b policy in
          (any_locked registers b locks ≡ true → r.0 ≡ b)
          × (Q r.0
              ⊎ ((c : S) × Q c
                  × (matches_policy registers c policy ≡ true)
                  × (r ≡ lock registers c policy)))
    unfolding configure configure_unlocked
    locks_last b policy ms ps q =
        let c = install registers b policy in
        let installed : Q c = install-kept b policy ms ps q in
        let P : S × Outcome → Type 0 = λ r.
          (any_locked registers b locks ≡ true → r.0 ≡ b)
          × (Q r.0
              ⊎ ((c : S) × Q c
                  × (matches_policy registers c policy ≡ true)
                  × (r ≡ lock registers c policy))) in
        if-cases P (any_locked registers b locks) (λ t. (λ h. refl, inl q))
          (λ t.
            if-cases P (not (matches_policy registers c policy)) (λ n. (λ h. cc, inl installed))
              (λ n. (λ h. cc, inr (c, installed, not-false _ n, refl))))
