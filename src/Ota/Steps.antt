-- ===== src/Ota/Steps.antt =====
-- The steps of src/platform/ota.rs that `confirm_running_image` and `activate_update` share: what
-- reading the MMU, reading the records and rewriting a record have done on success.
use salpa.Base.{
  not-false, some-injective, ℕ, ◌+◌, ◌*◌, ◌/◌, ◌%◌, ◌≡◌, refl, ap, ◌∙◌, Bool, true, if◌then◌else◌,
  not, ◌&&◌, Option, none, some, List, if-cases, leb, ltb, bytes_eq, bytes_eq→eq,
}
use salpa.Ota.Records.{Entries, decode, running_offset_from_mapping}
use salpa.Ota.Flash.{
  FlashDriver, ConfirmError, Attempt, done, failed, or_failed, and_then, flash_read, otadata_offset,
  ota_sector_size, read_flash, replace_entry, replace_and_check, running_app_offset, read_both,
  erase_and_write, check_readback, compare_readback,
}

-- To prove something of a step and what follows it.
pub attempt-cases :
    {S A B : Type 0} (P : S × Attempt B → Type 0) (r : S × Attempt A) (next : S → A → S × Attempt B)
    → ((e : ConfirmError) → P (r.0, failed e))
    → ((a : A) → r.1 ≡ done a → P (next r.0 a))
    → P (and_then r next)
attempt-cases P (b, done a) next bad good = good a refl
attempt-cases P (b, failed e) next bad good = bad e

abbrev pub value : {A : Type 0} → Attempt A → Option A
value (done a) = some a
value (failed e) = none

pub or_failed-done :
    {A : Type 0} (e : ConfirmError) (o : Option A) (a : A) → or_failed e o ≡ done a → o ≡ some a
or_failed-done e none a h = cc
or_failed-done e (some b) a h = ap value h

-- A pair whose second component is known.
pub known : {A B : Type 0} (r : A × B) (v : B) → r.1 ≡ v → r ≡ (r.0, v)
known r v e = ap (λ x. (r.0, x)) e

abbrev pub entries_of : List ℕ → List ℕ → Entries
entries_of first second = record { first = decode first; second = decode second }

module _ {S : Type 0} (driver : FlashDriver S) (encrypted : Bool) where
  -- `running_offset` is where the MMU says that the running image's descriptor is mapped from.
  abbrev pub Runs : ℕ → ℕ → Type 0
  Runs descriptor_address running_offset =
      (b : S) × (running_offset_from_mapping descriptor_address
          (driver.register b (0x61801000 + (0x80 + descriptor_address % 0x400000 / 0x10000) * 4)).1
        ≡ some running_offset)

  -- From `s` on, the sector at an address was erased, these bytes were written there, and they were
  -- read back, which leaves `end`; plain flash was unlocked first.
  pub record Rewritten (s : S) (address : ℕ) (bytes : List ℕ) (end : S) : Type 0 where
    pub unlocked : S
    pub unlocks : (if encrypted then (s, true) else driver.unlock s) ≡ (unlocked, true)
    pub erased : S
    pub erases : driver.erase unlocked address 0x1000 ≡ (erased, true)
    pub written : S
    pub writes : driver.write erased address bytes ≡ (written, true)
    pub reads_back : driver.read written address 32 ≡ (end, some bytes)

  -- The record is rewritten once it is read back.
  abbrev Replaced : S → ℕ → List ℕ → S × Attempt Unit → Type 0
  Replaced s address bytes r =
      r.1 ≡ done tt
      → (end : S) → driver.read r.0 address 32 ≡ (end, some bytes)
      → Rewritten s address bytes end

  erase_and_write-Replaced :
      (s unlocked : S) (address : ℕ) (bytes : List ℕ)
      → (if encrypted then (s, true) else driver.unlock s) ≡ (unlocked, true)
      → Replaced s address bytes (erase_and_write driver encrypted unlocked address bytes)
  unfolding erase_and_write
  erase_and_write-Replaced s unlocked address bytes unlocks =
      let P = Replaced s address bytes in
      let e = driver.erase unlocked address 0x1000 in
      let w = driver.write e.0 address bytes in
      if-cases P (not e.1) (λ _ h. cc)
        (λ erases.
          if-cases P (not w.1) (λ _ h. cc)
            (λ writes _ end reads_back. record {
              unlocked = unlocked;
              unlocks = unlocks;
              erased = e.0;
              erases = known e true (not-false _ erases);
              written = w.0;
              writes = known w true (not-false _ writes);
              reads_back = reads_back;
            }))

  replace_entry-Replaced :
      (s : S) (address : ℕ) (bytes : List ℕ)
      → Replaced s address bytes (replace_entry driver encrypted s address bytes)
  unfolding replace_entry
  replace_entry-Replaced s address bytes =
      let P = Replaced s address bytes in
      let u = driver.unlock s in
      if-cases P encrypted
        (λ e. erase_and_write-Replaced s s address bytes (ap (λ b. if b then (s, true) else u) e))
        (λ e.
          if-cases P (not u.1) (λ _ h. cc)
            (λ unlocks.
              erase_and_write-Replaced s u.0 address bytes
                (ap (λ b. if b then (s, true) else u) e ∙ known u true (not-false _ unlocks))))

  pub replace_and_check-done :
      (s : S) (place : ℕ) (bytes : List ℕ)
      → let r = replace_and_check driver encrypted s place bytes in
        r.1 ≡ done tt → Rewritten s (0xf000 + place * 0x1000) bytes r.0
  unfolding replace_and_check check_readback compare_readback read_flash
  replace_and_check-done s place bytes =
      let address = otadata_offset + place * ota_sector_size in
      let P : S × Attempt Unit → Type 0 = λ r. r.1 ≡ done tt → Rewritten s address bytes r.0 in
      let c = replace_entry driver encrypted s address bytes in
      attempt-cases P c (check_readback driver encrypted address bytes) (λ e h. cc)
        (λ u replaced.
          attempt-cases P (read_flash driver encrypted c.0 address 32)
            (compare_readback driver encrypted bytes) (λ e h. cc)
            (λ readback e.
              if-cases P (not (bytes_eq readback bytes)) (λ t h. cc)
                (λ same h. replace_entry-Replaced s address bytes replaced _ (
                  known (driver.read c.0 address 32) (some bytes) (
                    or_failed-done flash_read _ readback e
                    ∙ ap some (bytes_eq→eq _ _ (not-false _ same)))))))

  pub running_app_offset-done :
      (b : S) (descriptor_address running_offset : ℕ)
      → (running_app_offset driver encrypted b descriptor_address).1 ≡ done running_offset
      → Runs descriptor_address running_offset
  unfolding running_app_offset
  running_app_offset-done b descriptor_address running_offset =
      if-cases
        (λ (r : S × Attempt ℕ). r.1 ≡ done running_offset → Runs descriptor_address running_offset)
        (not (leb 0x3f000000 descriptor_address && ltb descriptor_address 0x3f390000)) (λ e h. cc)
        (λ e h. (b, or_failed-done _ _ running_offset h))

  -- Where the MMU maps the descriptor from, as it answers from `b` on.
  pub record Mapped (b : S) (descriptor_address running_offset : ℕ) (end : S) : Type 0 where
    pub mmu_entry : ℕ
    pub mapped :
        driver.register b (0x61801000 + (0x80 + descriptor_address % 0x400000 / 0x10000) * 4)
        ≡ (end, mmu_entry)
    pub running : running_offset_from_mapping descriptor_address mmu_entry ≡ some running_offset

  pub running_app_offset-Mapped :
      (b : S) (descriptor_address running_offset : ℕ)
      → let r = running_app_offset driver encrypted b descriptor_address in
        r.1 ≡ done running_offset → Mapped b descriptor_address running_offset r.0
  unfolding running_app_offset
  running_app_offset-Mapped b descriptor_address running_offset =
      if-cases
        (λ (r : S × Attempt ℕ).
          r.1 ≡ done running_offset → Mapped b descriptor_address running_offset r.0)
        (not (leb 0x3f000000 descriptor_address && ltb descriptor_address 0x3f390000)) (λ e h. cc)
        (λ e h. record {
          mmu_entry = _;
          mapped = refl;
          running = or_failed-done _ _ running_offset h;
        })

  -- Both records, as flash shows them from `b` on.
  pub record Both (b : S) (es : Entries) (end : S) : Type 0 where
    pub first : List ℕ
    pub at_second : S
    pub first_read : driver.read b 0xf000 32 ≡ (at_second, some first)
    pub second : List ℕ
    pub second_read : driver.read at_second 0x10000 32 ≡ (end, some second)
    pub same : entries_of first second ≡ es

  pub read_both-Both :
      (b : S) (es : Entries) → let r = read_both driver encrypted b in r.1 ≡ done es → Both b es r.0
  unfolding read_both read_flash
  read_both-Both b es =
      let P : S × Attempt Entries → Type 0 = λ r. r.1 ≡ done es → Both b es r.0 in
      let f = driver.read b 0xf000 32 in
      attempt-cases P (read_flash driver encrypted b otadata_offset 32)
        (λ c first.
          and_then (read_flash driver encrypted c (otadata_offset + ota_sector_size) 32)
            (λ d second. (d, done (entries_of first second))))
        (λ e h. cc)
        (λ first e.
          let g = driver.read f.0 0x10000 32 in
          attempt-cases P (read_flash driver encrypted f.0 (otadata_offset + ota_sector_size) 32)
            (λ d second. (d, done (entries_of first second))) (λ e h. cc)
            (λ second e' h. record {
              first = first;
              at_second = f.0;
              first_read = known f (some first) (or_failed-done flash_read _ first e);
              second = second;
              second_read = known g (some second) (or_failed-done flash_read _ second e');
              same = some-injective _ _ (ap value h);
            }))
