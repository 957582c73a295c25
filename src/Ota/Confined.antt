-- ===== src/Ota/Confined.antt =====
-- Which flash the layout and the activation of src/platform/ota.rs touch: the records of otadata.
use salpa.Base.{
  true, not-false, ℕ, ◌+◌, ◌*◌, ◌≤◌, ◌≡◌, refl, Bool, not, ◌&&◌, none, some, List, arith, ltb, leb,
  length, if-cases, if◌then◌else◌, option-cases, bytes_eq,
}
use salpa.Ota.Records.{
  OtaEntry, Offer, Entries, active_entry, decode, activation_is_valid, encode_with_state,
  update_layout_from_entries, ota_crc,
}
use salpa.Ota.Flash.{
  FlashDriver, Attempt, done, failed, and_then, or_failed, otadata_offset, ota_sector_size,
  read_flash, replace_entry, erase_and_write, replace_and_check, running_app_offset, read_both,
  read_entries, check_readback, compare_readback, update_layout, activate_update, invalid_layout,
}

-- A predicate on the platform that the driver keeps: erasing and writing are asked to keep it only
-- at the two records.
pub record KeepsRecords {S : Type 0} (driver : FlashDriver S) (Q : S → Type 0) : Type 0 where
  pub read : (b : S) (at n : ℕ) → Q b → Q (driver.read b at n).0
  pub unlock : (b : S) → Q b → Q (driver.unlock b).0
  pub register : (b : S) (at : ℕ) → Q b → Q (driver.register b at).0
  pub erase :
      (b : S) (place : ℕ)
      → place ≤ 1
      → Q b
      → Q (driver.erase b (otadata_offset + place * ota_sector_size) ota_sector_size).0
  pub write :
      (b : S) (place : ℕ) (bytes : List ℕ)
      → place ≤ 1
      → length bytes ≡ 32
      → Q b
      → Q (driver.write b (otadata_offset + place * ota_sector_size) bytes).0

and_then-keeps :
    {S A B : Type 0} (Q : S → Type 0) (r : S × Attempt A) (next : S → A → S × Attempt B)
    → Q r.0
    → ((b : S) (a : A) → Q b → Q (next b a).0)
    → Q (and_then r next).0
and_then-keeps Q (b, done a) next q keep = keep b a q
and_then-keeps Q (b, failed e) next q keep = q

module _ {S : Type 0} (driver : FlashDriver S) (encrypted : Bool) (Q : S → Type 0)
    (keeps : KeepsRecords driver Q) where
  -- What is proved of a step.
  abbrev Post : {A : Type 0} → S × Attempt A → Type 0
  Post r = Q r.0

  read_flash-keeps : (b : S) (at n : ℕ) → Q b → Q (read_flash driver encrypted b at n).0
  unfolding read_flash
  read_flash-keeps b at n q = keeps.read b at n q

  running_app_offset-keeps :
      (b : S) (descriptor : ℕ) → Q b → Q (running_app_offset driver encrypted b descriptor).0
  unfolding running_app_offset
  running_app_offset-keeps b descriptor q =
      if-cases (Post {A = ℕ}) (not (leb 0x3f000000 descriptor && ltb descriptor 0x3f390000))
        (λ _. q) (λ _. keeps.register b _ q)

  read_both-keeps : (b : S) → Q b → Q (read_both driver encrypted b).0
  unfolding read_both
  read_both-keeps b q =
      and_then-keeps Q (read_flash driver encrypted b otadata_offset 32)
        (λ (b : S) (first : List ℕ).
          and_then (read_flash driver encrypted b (otadata_offset + ota_sector_size) 32)
            (λ (b : S) (second : List ℕ).
              (b, done (record { first = decode first; second = decode second }))))
        (read_flash-keeps b otadata_offset 32 q)
        (λ b first q.
          and_then-keeps Q (read_flash driver encrypted b (otadata_offset + ota_sector_size) 32)
            (λ (b : S) (second : List ℕ).
              (b, done (record { first = decode first; second = decode second })))
            (read_flash-keeps b (otadata_offset + ota_sector_size) 32 q) (λ b second q. q))

  read_entries-keeps : (b : S) → Q b → Q (read_entries driver encrypted b).0
  unfolding read_entries
  read_entries-keeps b q =
      and_then-keeps Q (read_both driver encrypted b)
        (λ (b : S) (es : Entries). elim (active_entry es) [
          | none ↦ (b, failed invalid_layout)
          | some _ ↦ (b, done es)
        ])
        (read_both-keeps b q)
        (λ b es q. option-cases (Post {A = Entries}) (active_entry es) (λ _. q) (λ _ _. q))

  abbrev offered : ℕ → S → Entries → S × Attempt Offer
  offered offset b es = (b, or_failed invalid_layout (update_layout_from_entries es offset))

  pub update_layout-keeps :
      (b : S) (descriptor : ℕ) → Q b → Q (update_layout driver encrypted b descriptor).0
  unfolding update_layout
  update_layout-keeps b descriptor q =
      and_then-keeps Q (running_app_offset driver encrypted b descriptor)
        (λ (b : S) (offset : ℕ). and_then (read_entries driver encrypted b) (offered offset))
        (running_app_offset-keeps b descriptor q)
        (λ b offset q.
          and_then-keeps Q (read_entries driver encrypted b) (offered offset)
            (read_entries-keeps b q) (λ b es q. q))

  erase_and_write-keeps :
      (b : S) (place : ℕ) (bytes : List ℕ)
      → place ≤ 1
      → length bytes ≡ 32
      → Q b
      → Q (erase_and_write driver encrypted b (otadata_offset + place * ota_sector_size) bytes).0
  unfolding erase_and_write
  erase_and_write-keeps b place bytes p l q =
      let address = otadata_offset + place * ota_sector_size in
      let e = driver.erase b address ota_sector_size in
      let erased = keeps.erase b place p q in
      if-cases (Post {A = Unit}) (not e.1) (λ _. erased)
        (λ _.
          if-cases (Post {A = Unit}) (not (driver.write e.0 address bytes).1)
            (λ _. keeps.write e.0 place bytes p l erased)
            (λ _. keeps.write e.0 place bytes p l erased))

  replace_entry-keeps :
      (b : S) (place : ℕ) (bytes : List ℕ)
      → place ≤ 1
      → length bytes ≡ 32
      → Q b
      → Q (replace_entry driver encrypted b (otadata_offset + place * ota_sector_size) bytes).0
  unfolding replace_entry
  replace_entry-keeps b place bytes p l q =
      if-cases (Post {A = Unit}) encrypted (λ _. erase_and_write-keeps b place bytes p l q)
        (λ _.
          if-cases (Post {A = Unit}) (not (driver.unlock b).1) (λ _. keeps.unlock b q)
            (λ _. erase_and_write-keeps (driver.unlock b).0 place bytes p l (keeps.unlock b q)))

  compare_readback-keeps :
      (bytes : List ℕ) (b : S) (readback : List ℕ)
      → Q b
      → Q (compare_readback driver encrypted bytes b readback).0
  unfolding compare_readback
  compare_readback-keeps bytes b readback q =
      if-cases (Post {A = Unit}) (not (bytes_eq readback bytes)) (λ _. q) (λ _. q)

  replace_and_check-keeps :
      (b : S) (place : ℕ) (bytes : List ℕ)
      → place ≤ 1
      → length bytes ≡ 32
      → Q b
      → Q (replace_and_check driver encrypted b place bytes).0
  unfolding replace_and_check check_readback
  replace_and_check-keeps b place bytes p l q =
      let address = otadata_offset + place * ota_sector_size in
      and_then-keeps Q (replace_entry driver encrypted b address bytes)
        (check_readback driver encrypted address bytes) (replace_entry-keeps b place bytes p l q)
        (λ b _ q.
          and_then-keeps Q (read_flash driver encrypted b address 32)
            (compare_readback driver encrypted bytes) (read_flash-keeps b address 32 q)
            (compare_readback-keeps bytes))

  valid_place :
      (o : Offer) (slot sequence place : ℕ)
      → activation_is_valid o slot sequence place ≡ true
      → place ≤ 1
  unfolding activation_is_valid
  valid_place o slot sequence place h = ground arith

  length-encode_with_state : (e : OtaEntry) (state : ℕ) → length (encode_with_state e state) ≡ 32
  unfolding encode_with_state
  length-encode_with_state e state = refl

  pub activate_update-keeps :
      (b : S) (slot sequence place descriptor : ℕ)
      → Q b
      → Q (activate_update driver encrypted b slot sequence place descriptor).0
  unfolding activate_update
  activate_update-keeps b slot sequence place descriptor q =
      and_then-keeps Q (update_layout driver encrypted b descriptor)
        (λ (b : S) (o : Offer).
          if not (activation_is_valid o slot sequence place)
          then (b, failed invalid_layout)
          else replace_and_check driver encrypted b place (
              encode_with_state (record { sequence = sequence; state = 0; crc = ota_crc sequence })
                0))
        (update_layout-keeps b descriptor q)
        (λ b o q.
          if-cases (Post {A = Unit}) (not (activation_is_valid o slot sequence place)) (λ _. q)
            (λ valid.
              replace_and_check-keeps b place
                (encode_with_state
                  (record { sequence = sequence; state = 0; crc = ota_crc sequence }) 0)
                (valid_place o slot sequence place (not-false _ valid))
                (length-encode_with_state
                  (record { sequence = sequence; state = 0; crc = ota_crc sequence }) 0)
                q))
