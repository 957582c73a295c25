-- ===== src/Ota/Confirm.antt =====
-- What `confirm_running_image` of src/platform/ota.rs has done on success.
use salpa.Base.{
  not-false, subst, sym, ℕ, ◌+◌, ◌*◌, ◌/◌, ◌%◌, ◌≡◌, Bool, true, not, some, List, arith, ◌==◌,
  option-cases, if-cases, read_u32_le,
}
use salpa.Ota.Records.{
  OtaEntry, Entries, entry_at, encode_with_state, active_entry, slot_offset, has_offset,
  running_offset_from_mapping, descriptor_matches_version, confirmation_matches_running_image,
  ota_state_pending_verify, ota_state_valid,
}
use salpa.Ota.Flash.{
  FlashDriver, Attempt, done, flash_read, read_flash, replace_and_check, running_app_offset,
  read_both, confirm_descriptor, confirm_active, confirm_running, confirm_running_image,
}
use salpa.Ota.Steps.{
  attempt-cases, or_failed-done, known, Rewritten, entries_of, Mapped, Both, replace_and_check-done,
  running_app_offset-Mapped, read_both-Both,
}

matches :
    (e : OtaEntry) (running_offset : ℕ) (descriptor version : List ℕ) (secure_version : ℕ)
    → confirmation_matches_running_image e running_offset descriptor version secure_version ≡ true
    → (e.state ≡ ota_state_pending_verify)
      × (has_offset e.sequence running_offset ≡ true)
      × (descriptor_matches_version descriptor version ≡ true)
      × (read_u32_le descriptor 4 ≡ secure_version)
unfolding confirmation_matches_running_image
matches e running_offset descriptor version secure_version h =
    (ground arith, ground arith, ground arith, ground arith)

offset_runs :
    (sequence running_offset app_offset : ℕ)
    → has_offset sequence running_offset ≡ true
    → slot_offset sequence ≡ some app_offset
    → app_offset ≡ running_offset
offset_runs sequence running_offset app_offset slot placed = ground arith

module _ {S : Type 0} (driver : FlashDriver S) (encrypted : Bool) where
  -- What a confirmation with this version does from `b` on, in this order, which leaves `end`: the MMU
  -- is asked, both records are read, the descriptor is read, and the record is rewritten.
  pub record Confirmed (b : S) (version : List ℕ) (secure_version descriptor_address : ℕ) (end : S)
      : Type 0 where
    pub mmu_entry : ℕ
    pub at_first : S
    pub mapped :
        driver.register b (0x61801000 + (0x80 + descriptor_address % 0x400000 / 0x10000) * 4)
        ≡ (at_first, mmu_entry)
    pub running_offset : ℕ
    pub running : running_offset_from_mapping descriptor_address mmu_entry ≡ some running_offset
    pub first : List ℕ
    pub at_second : S
    pub first_read : driver.read at_first 0xf000 32 ≡ (at_second, some first)
    pub second : List ℕ
    pub at_descriptor : S
    pub second_read : driver.read at_second 0x10000 32 ≡ (at_descriptor, some second)
    pub active : ℕ
    pub selected : active_entry (entries_of first second) ≡ some active
    pub pending : (entry_at (entries_of first second) active).state ≡ 1
    pub app_offset : ℕ
    pub placed : slot_offset (entry_at (entries_of first second) active).sequence ≡ some app_offset
    pub runs : app_offset ≡ running_offset
    pub descriptor : List ℕ
    pub at_rewrite : S
    pub described : driver.read at_descriptor (app_offset + 32) 256 ≡ (at_rewrite, some descriptor)
    pub same_version : descriptor_matches_version descriptor version ≡ true
    pub same_secure_version : read_u32_le descriptor 4 ≡ secure_version
    pub rewritten :
        Rewritten driver encrypted at_rewrite
          (0xf000 + active * 0x1000)
          (encode_with_state (entry_at (entries_of first second) active) 2)
          end

  abbrev Ends : S → List ℕ → ℕ → ℕ → S × Attempt Bool → Type 0
  Ends b version secure_version descriptor_address r =
      r.1 ≡ done true → Confirmed b version secure_version descriptor_address r.0

  module _ (b : S) (version : List ℕ) (secure_version descriptor_address running_offset : ℕ)
      (at_first : S) (m : Mapped driver encrypted b descriptor_address running_offset at_first)
      (es : Entries) (at_descriptor : S)
      (both : Both driver encrypted at_first es at_descriptor) where
    abbrev P : S × Attempt Bool → Type 0
    P = Ends b version secure_version descriptor_address

    confirm_descriptor-done :
        (active app_offset : ℕ) (descriptor : List ℕ) (at_rewrite : S)
        → active_entry es ≡ some active
        → slot_offset (entry_at es active).sequence ≡ some app_offset
        → driver.read at_descriptor (app_offset + 32) 256 ≡ (at_rewrite, some descriptor)
        → P (
            confirm_descriptor driver encrypted version secure_version running_offset active
              (entry_at es active)
              at_rewrite
              descriptor)
    unfolding confirm_descriptor
    confirm_descriptor-done active app_offset descriptor at_rewrite selected placed described =
        let e = entry_at es active in
        let bytes = encode_with_state e ota_state_valid in
        let c = replace_and_check driver encrypted at_rewrite active bytes in
        if-cases P
          (not
            (confirmation_matches_running_image e running_offset descriptor version secure_version))
          (λ t h. cc)
          (λ t.
            let (pending, slot, same_version, same_secure) =
              matches e running_offset descriptor version secure_version (not-false _ t) in
            attempt-cases P c (λ b _. (b, done true)) (λ e h. cc)
              (λ u written h. record {
                mmu_entry = m.mmu_entry;
                at_first = at_first;
                mapped = m.mapped;
                running_offset = running_offset;
                running = m.running;
                first = both.first;
                at_second = both.at_second;
                first_read = both.first_read;
                second = both.second;
                at_descriptor = at_descriptor;
                second_read = both.second_read;
                active = active;
                selected =
                    subst (λ (x : Entries). active_entry x ≡ some active) (sym both.same) selected;
                pending =
                    subst (λ (x : Entries). (entry_at x active).state ≡ 1) (sym both.same) pending;
                app_offset = app_offset;
                placed =
                    subst
                      (λ (x : Entries). slot_offset (entry_at x active).sequence ≡ some app_offset)
                      (sym both.same) placed;
                runs = offset_runs e.sequence running_offset app_offset slot placed;
                descriptor = descriptor;
                at_rewrite = at_rewrite;
                described = described;
                same_version = same_version;
                same_secure_version = same_secure;
                rewritten =
                    subst
                      (λ (x : Entries).
                        Rewritten driver encrypted at_rewrite (0xf000 + active * 0x1000)
                          (encode_with_state (entry_at x active) 2) c.0)
                      (sym both.same)
                      (replace_and_check-done driver encrypted at_rewrite active bytes written);
              }))

    confirm_active-done :
        P (confirm_active driver encrypted version secure_version running_offset at_descriptor es)
    unfolding confirm_active read_flash
    confirm_active-done =
        option-cases P (active_entry es) (λ e h. cc)
          (λ active selected.
            if-cases P (not ((entry_at es active).state == ota_state_pending_verify)) (λ t h. cc)
              (λ t.
                option-cases P (slot_offset (entry_at es active).sequence) (λ e h. cc)
                  (λ app_offset placed.
                    let d = driver.read at_descriptor (app_offset + 32) 256 in
                    attempt-cases P
                      (read_flash driver encrypted at_descriptor (app_offset + 32) 256)
                      (confirm_descriptor driver encrypted version secure_version running_offset
                        active (entry_at es active))
                      (λ e h. cc)
                      (λ descriptor e'.
                        confirm_descriptor-done active app_offset descriptor d.0 selected placed (
                          known d (some descriptor) (or_failed-done flash_read _ descriptor e'))))))

  -- Where `confirm_running_image` answers that it confirmed, it did this, in this order: the MMU maps
  -- the running descriptor from some offset; the two records read from flash select one to boot,
  -- which is pending and whose slot is at that offset; the descriptor read from that slot has the
  -- running version and secure version; and in that record's place the same record in the state VALID
  -- was written, after an erase, and read back.
  pub confirm_running_image-Confirmed :
      (b : S) (version : List ℕ) (secure_version descriptor_address : ℕ)
      → (confirm_running_image driver encrypted b version secure_version descriptor_address).1
        ≡ done true
      → Confirmed b version secure_version descriptor_address
          (confirm_running_image driver encrypted b version secure_version descriptor_address).0
  unfolding confirm_running_image confirm_running
  confirm_running_image-Confirmed b version secure_version descriptor_address =
      let P = Ends b version secure_version descriptor_address in
      let m = running_app_offset driver encrypted b descriptor_address in
      attempt-cases P m (confirm_running driver encrypted version secure_version) (λ e h. cc)
        (λ running_offset found.
          let r = read_both driver encrypted m.0 in
          attempt-cases P r (confirm_active driver encrypted version secure_version running_offset)
            (λ e h. cc)
            (λ es read.
              confirm_active-done b version secure_version descriptor_address running_offset m.0
                (running_app_offset-Mapped driver encrypted b descriptor_address running_offset
                  found)
                es r.0 (read_both-Both driver encrypted m.0 es read)))
