-- ===== src/MemoryProtection/Registers.antt =====
-- The registers of src/platform/memory_protection.rs, and how they are configured and reported.
use salpa.Base.{
  ℕ, ◌+◌, ◌-◌, ◌*◌, ◌/◌, ◌%◌, bit_and, bit_or, Bool, true, false, not, ◌&&◌, ◌||◌, List, [], ◌∷◌,
  ◌++◌, ◌==◌, if◌then◌else◌, replicate, u32_le_bytes, u32_mod,
}
use salpa.MemoryProtection.Policy.{
  Policy, Permission, Error, locked_policy, readback, locks, monitors, permissions,
}

-- The trait `Registers`.
pub record Registers (S : Type 0) : Type 0 where
  pub read : S → ℕ → ℕ
  pub write : S → ℕ → ℕ → S

-- `Result<(), Error>`
pub data Outcome : Type 0 where
  ok : Outcome
  err : Error → Outcome

-- `(previous & !mask) | (value & mask)`
unfoldable pub merged : ℕ → ℕ → ℕ → ℕ
merged previous mask value = bit_or (bit_and previous (u32_mod - 1 - mask)) (bit_and value mask)

module _ {S : Type 0} (registers : Registers S) where
  unfoldable pub replace_bits : S → ℕ → ℕ → ℕ → S
  replace_bits b offset mask value =
      registers.write b offset (merged (registers.read b offset) mask value)

  unfoldable pub permissions_match : S → List Permission → List ℕ → Bool
  permissions_match b (p ∷ ps) (expected ∷ values) =
      (bit_and (registers.read b p.offset) p.mask == expected) && permissions_match b ps values
  permissions_match b [] values = true
  permissions_match b (p ∷ ps) [] = true

  unfoldable pub monitors_match : S → List ℕ → Bool
  monitors_match b [] = true
  monitors_match b (offset ∷ others) =
      (bit_and (registers.read b offset) 7 == 2) && monitors_match b others

  unfoldable pub matches_policy : S → Policy → Bool
  unfolding permissions_match monitors_match
  matches_policy b policy =
      permissions_match b permissions policy.values && monitors_match b monitors

  -- `any` and `all` of the lock bits.
  unfoldable pub any_locked : S → List ℕ → Bool
  any_locked b [] = false
  any_locked b (offset ∷ others) =
      not (bit_and (registers.read b offset) 1 == 0) || any_locked b others

  unfoldable pub all_locked : S → List ℕ → Bool
  all_locked b [] = true
  all_locked b (offset ∷ others) =
      not (bit_and (registers.read b offset) 1 == 0) && all_locked b others

  -- The last check of the locks compares with 1.
  unfoldable pub all_set : S → List ℕ → Bool
  all_set b [] = true
  all_set b (offset ∷ others) = (bit_and (registers.read b offset) 1 == 1) && all_set b others

  unfoldable pub clear_monitors : S → List ℕ → S
  unfolding replace_bits
  clear_monitors b [] = b
  clear_monitors b (offset ∷ others) =
      clear_monitors (replace_bits (replace_bits b offset 3 1) offset 3 0) others

  unfoldable pub install_permissions : S → List Permission → List ℕ → S
  unfolding replace_bits
  install_permissions b (p ∷ ps) (value ∷ values) =
      install_permissions (replace_bits b p.offset p.mask value) ps values
  install_permissions b [] values = b
  install_permissions b (p ∷ ps) [] = b

  unfoldable pub enable_monitors : S → List ℕ → S
  unfolding replace_bits
  enable_monitors b [] = b
  enable_monitors b (offset ∷ others) = enable_monitors (replace_bits b offset 3 2) others

  unfoldable pub set_locks : S → List ℕ → S
  set_locks b [] = b
  set_locks b (offset ∷ others) = set_locks (registers.write b offset 1) others

  -- The end of `configure`, from the locks on.
  unfoldable pub lock : S → Policy → S × Outcome
  unfolding set_locks all_set matches_policy
  lock b policy =
      let b = set_locks b locks in
      if not (all_set b locks) || not (matches_policy b policy) then (b, err readback) else (b, ok)

  -- The writes before the policy is read back.
  unfoldable pub install : S → Policy → S
  unfolding clear_monitors install_permissions enable_monitors
  install b policy =
      enable_monitors (install_permissions (clear_monitors b monitors) permissions policy.values)
        monitors

  -- `configure` where no lock is set.
  unfoldable pub configure_unlocked : S → Policy → S × Outcome
  unfolding install matches_policy lock
  configure_unlocked b policy =
      let b = install b policy in
      if not (matches_policy b policy) then (b, err readback) else lock b policy

  unfoldable pub configure : S → Policy → S × Outcome
  unfolding any_locked all_locked matches_policy configure_unlocked
  configure b policy =
      if any_locked b locks
      then (b, if all_locked b locks && matches_policy b policy then ok else err locked_policy)
      else configure_unlocked b policy

  -- The bits of the loop over the four buses, each bit of a register in its place.
  unfoldable pub bitmap : S → ℕ → ℕ → List ℕ → ℕ
  bitmap b shift weight [] = 0
  bitmap b shift weight (offset ∷ others) =
      registers.read b offset / shift % 2 * weight + bitmap b shift (weight * 2) others

  unfoldable pub permission_bytes : S → List Permission → List ℕ
  permission_bytes b [] = []
  permission_bytes b (p ∷ ps) =
      u32_le_bytes (bit_and (registers.read b p.offset) p.mask) ++ permission_bytes b ps

  unfoldable pub encode_status : S → Policy → List ℕ
  unfolding bitmap permission_bytes
  encode_status b policy =
      (b'R'
        ∷ b'K'
        ∷ b'M'
        ∷ b'P'
        ∷ 1
        ∷ bitmap b 1 1 locks
        ∷ bitmap b 2 1 monitors
        ∷ bitmap b 4 1 monitors
        ∷ [])
      ++ u32_le_bytes policy.iram_end
      ++ u32_le_bytes policy.data_start
      ++ permission_bytes b permissions
      ++ replicate 16 0
