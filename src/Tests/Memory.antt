-- ===== src/Tests/Memory.antt =====
-- The memory policy of src/platform/memory_protection.rs over a file of registers.
use salpa.Base.{
  ℕ, ◌+◌, ◌*◌, ◌/◌, ◌%◌, ◌≡◌, ◌≢◌, ◌⊎◌, refl, Bool, true, false, ◌||◌, some, ◌==◌, if◌then◌else◌,
  arith,
}
use salpa.MemoryProtection.Policy.{Policy, new, policy_values, locks, readback}
use salpa.MemoryProtection.Registers.{
  Registers, ok, err, configure, any_locked, matches_policy, lock, merged,
}
use salpa.MemoryProtection.Enforced.{Kept, Enforced, configure-Enforced, locks_last}
use salpa.MemoryProtection.Writes.{Lawful}
use salpa.MemoryProtection.Configured.{Changed, configure_succeeds}

abbrev policy : Policy
policy = record {
  iram_end = 0x40030000;
  data_start = 0x3ffc0000;
  values = policy_values 0x40030000 0x3ffc0000;
}

made : new 0x40030000 0x3ffc0000 ≡ some policy
unfolding new
made = refl

abbrev is_monitor : ℕ → Bool
is_monitor o = (o == 0x20) || (o == 0x34) || (o == 0x54) || (o == 0x68)

abbrev monitor_word : ℕ → ℕ → ℕ
monitor_word old v = v % 4 + (if v % 2 == 1 then 0 else old / 4 % 2 * 4)

abbrev file : Registers (ℕ → ℕ)
file = record {
  read = λ b o. b o;
  write = λ b o v x. if x == o then (if is_monitor o then monitor_word (b o) v else v) else b x;
}

file-Lawful : Lawful file is_monitor
file-Lawful = record {
  other = λ b o v x n. ground arith;
  plain = λ b o v e. ground arith;
  enables = λ b o v e. ground arith;
  clears = λ b o v e odd. ground arith;
  holds = λ b o v e even. ground arith;
}

abbrev blank : ℕ → ℕ
blank o = if o == 0x14 then 0xfffff000 else if o == 0x20 then 7 else 0

unlocked : any_locked file blank locks ≡ false
unfolding any_locked
unlocked = refl

accepted : (configure file blank policy).1 ≡ ok
unfolding configure merged
accepted = refl

configure-Enforced_example : Enforced file (configure file blank policy).0 policy
configure-Enforced_example = configure-Enforced file blank policy accepted

configure_succeeds_example :
    ((configure file blank policy).1 ≡ ok)
    × Changed file is_monitor file-Lawful blank (configure file blank policy).0 policy
configure_succeeds_example =
    configure_succeeds file is_monitor file-Lawful blank 0x40030000 0x3ffc0000 policy made unlocked
      (refl, (refl, (refl, (refl, tt))))
      (refl, (refl, (refl, (refl, (refl, (refl, (refl, (refl, tt))))))))
      (refl, (refl, (refl, (refl, tt))))

-- A register that ignores writes: the policy does not read back, and nothing is locked.
abbrev stubborn : Registers (ℕ → ℕ)
stubborn = record {
  read = λ b o. b o;
  write = λ b o v x. if x == o then (if o == 0x2c then b o else v) else b x;
}

refused : (configure stubborn (λ o. 0) policy).1 ≡ err readback
unfolding configure merged
refused = refl

abbrev Unlocked : (ℕ → ℕ) → Type 0
Unlocked b = b 0x10 ≡ 0

kept : (o : ℕ) → o ≢ 0x10 → Kept stubborn Unlocked o
kept o n b v h = ground arith

locks_last_example :
    (any_locked stubborn (λ o. 0) locks ≡ true → (configure stubborn (λ o. 0) policy).0 ≡ (λ o. 0))
    × (Unlocked (configure stubborn (λ o. 0) policy).0
        ⊎ ((c : ℕ → ℕ) × Unlocked c
            × (matches_policy stubborn c policy ≡ true)
            × (configure stubborn (λ o. 0) policy ≡ lock stubborn c policy)))
locks_last_example =
    locks_last stubborn Unlocked (λ o. 0) policy
      (
        kept 0x20 (omega arith),
        (kept 0x34 (omega arith), (kept 0x54 (omega arith), (kept 0x68 (omega arith), tt))),
      )
      (
        kept 0x14 (omega arith),
        (
          kept 0x18 (omega arith),
          (
            kept 0x1c (omega arith),
            (
              kept 0x2c (omega arith),
              (
                kept 0x30 (omega arith),
                (kept 0x40 (omega arith), (kept 0x60 (omega arith), (kept 0x64 (omega arith), tt))),
              ),
            ),
          ),
        ),
      )
      refl
