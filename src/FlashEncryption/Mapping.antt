-- ===== src/FlashEncryption/Mapping.antt =====
-- The fixed DROM mappings of src/platform/flash_encryption.rs.
use salpa.Base.{
  ℕ, ◌+◌, ◌-◌, ◌%◌, ◌≤◌, ◌<◌, ◌≡◌, ◌⊎◌, inl, inr, Bool, not, ◌&&◌, Option-cases, ◌∙◌, Option, none,
  some, List, [], ◌∷◌, ltb, leb, ◌==◌, if◌then◌else◌, u32_mod, u32_checked_add, arith,
}

abbrev pub mmu_page_size : ℕ
mmu_page_size = 0x10000

abbrev pub reserved_drom_start : ℕ
reserved_drom_start = 0x3f390000

abbrev pub reserved_drom_end : ℕ
reserved_drom_end = 0x3f3f0000

pub record Mapping : Type 0 where
  pub virtual_start : ℕ
  pub physical_start : ℕ
  pub size : ℕ

abbrev pub otadata_mapping : Mapping
otadata_mapping = record { virtual_start = 0x3f390000; physical_start = 0; size = 0x20000 }

abbrev pub ota0_descriptor_mapping : Mapping
ota0_descriptor_mapping = record {
  virtual_start = 0x3f3b0000;
  physical_start = 0x20000;
  size = mmu_page_size;
}

abbrev pub ota1_descriptor_mapping : Mapping
ota1_descriptor_mapping = record {
  virtual_start = 0x3f3c0000;
  physical_start = 0x200000;
  size = mmu_page_size;
}

abbrev pub fido_store_mapping : Mapping
fido_store_mapping = record {
  virtual_start = 0x3f3d0000;
  physical_start = 0x3e0000;
  size = 0x20000;
}

abbrev pub mappings : List Mapping
mappings =
    otadata_mapping ∷ ota0_descriptor_mapping ∷ ota1_descriptor_mapping ∷ fido_store_mapping ∷ []

-- The closure of `mapped_virtual_address`.
unfoldable pub virtual_in : ℕ → ℕ → Mapping → Option ℕ
virtual_in address end mapping =
    if leb mapping.physical_start address && leb end (mapping.physical_start + mapping.size)
    then u32_checked_add mapping.virtual_start (address - mapping.physical_start)
    else none

-- `find_map` over the mappings.
unfoldable pub find_virtual : ℕ → ℕ → List Mapping → Option ℕ
unfolding virtual_in
find_virtual address end [] = none
find_virtual address end (mapping ∷ others) =
    let later = find_virtual address end others in
    elim (virtual_in address end mapping) [ none ↦ later | some v ↦ some v ]

unfoldable pub mapped_virtual_address : ℕ → ℕ → Option ℕ
unfolding find_virtual
mapped_virtual_address address count =
    if not (ltb count u32_mod) then none else elim (u32_checked_add address count) [
      | none ↦ none
      | some end ↦ find_virtual address end mappings
    ]

unfoldable pub encrypted_write_is_aligned : ℕ → ℕ → Bool
encrypted_write_is_aligned address count = (address % 32 == 0) && (count % 32 == 0)

-- `count` bytes from physical `address` on stand from virtual `v` on, by one mapping.
abbrev pub ServedBy : Mapping → ℕ → ℕ → ℕ → Type 0
ServedBy m address count v =
    (m.physical_start ≤ address)
    × (address + count ≤ m.physical_start + m.size)
    × (v + m.physical_start ≡ m.virtual_start + address)

pub data Served (address count v : ℕ) : Type 0 where
  by_otadata : ServedBy otadata_mapping address count v → Served address count v
  by_ota0 : ServedBy ota0_descriptor_mapping address count v → Served address count v
  by_ota1 : ServedBy ota1_descriptor_mapping address count v → Served address count v
  by_store : ServedBy fido_store_mapping address count v → Served address count v

pub virtual_in-ServedBy :
    (address count v : ℕ) (m : Mapping)
    → virtual_in address (address + count) m ≡ some v
    → ServedBy m address count v
unfolding virtual_in
virtual_in-ServedBy address count v m h = ground arith

pub found_by :
    (address end v : ℕ) (m : Mapping) (others : List Mapping)
    → find_virtual address end (m ∷ others) ≡ some v
    → (virtual_in address end m ≡ some v) ⊎ (find_virtual address end others ≡ some v)
unfolding find_virtual
found_by address end v m others h = elim (Option-cases (virtual_in address end m)) [
  | inl e ↦ inr (rw (e, find_virtual) at h)
  | inr (w, e) ↦ inl (e ∙ (rw (e, find_virtual) at h))
]

found-Served :
    (address count v : ℕ)
    → find_virtual address (address + count) mappings ≡ some v
    → Served address count v
found-Served address count v h = elim (found_by address (address + count) v _ _ h) [
  | inl e ↦ by_otadata (virtual_in-ServedBy address count v _ e)
  | inr h ↦ elim (found_by address (address + count) v _ _ h) [
    | inl e ↦ by_ota0 (virtual_in-ServedBy address count v _ e)
    | inr h ↦ elim (found_by address (address + count) v _ _ h) [
      | inl e ↦ by_ota1 (virtual_in-ServedBy address count v _ e)
      | inr h ↦ elim (found_by address (address + count) v _ _ h) [
        | inl e ↦ by_store (virtual_in-ServedBy address count v _ e)
        | inr h ↦ unfold find_virtual in cc
      ]
    ]
  ]
]

pub mapped-Served :
    (address count v : ℕ) → mapped_virtual_address address count ≡ some v → Served address count v
unfolding mapped_virtual_address
mapped-Served address count v h = found-Served address count v (ground arith)

-- The virtual range of a mapped physical range lies in the reserved DROM window, at the offset
-- within its MMU page that the physical range has within its own.
pub mapped_in_window :
    (address count v : ℕ)
    → mapped_virtual_address address count ≡ some v
    → (reserved_drom_start ≤ v)
      × (v + count ≤ reserved_drom_end)
      × (v % mmu_page_size ≡ address % mmu_page_size)
mapped_in_window address count v h = elim (mapped-Served address count v h) [
  | by_otadata s ↦ omega (arith, s)
  | by_ota0 s ↦ omega (arith, s)
  | by_ota1 s ↦ omega (arith, s)
  | by_store s ↦ omega (arith, s)
]

apart-Served :
    (a n v b m w i j : ℕ)
    → Served a n v
    → Served b m w
    → i < n
    → j < m
    → v + i ≡ w + j
    → a + i ≡ b + j
apart-Served a n v b m w i j (by_otadata s) t p q e = elim t [
  | by_otadata t ↦ omega (arith, s, t)
  | by_ota0 t ↦ omega (arith, s, t)
  | by_ota1 t ↦ omega (arith, s, t)
  | by_store t ↦ omega (arith, s, t)
]
apart-Served a n v b m w i j (by_ota0 s) t p q e = elim t [
  | by_otadata t ↦ omega (arith, s, t)
  | by_ota0 t ↦ omega (arith, s, t)
  | by_ota1 t ↦ omega (arith, s, t)
  | by_store t ↦ omega (arith, s, t)
]
apart-Served a n v b m w i j (by_ota1 s) t p q e = elim t [
  | by_otadata t ↦ omega (arith, s, t)
  | by_ota0 t ↦ omega (arith, s, t)
  | by_ota1 t ↦ omega (arith, s, t)
  | by_store t ↦ omega (arith, s, t)
]
apart-Served a n v b m w i j (by_store s) t p q e = elim t [
  | by_otadata t ↦ omega (arith, s, t)
  | by_ota0 t ↦ omega (arith, s, t)
  | by_ota1 t ↦ omega (arith, s, t)
  | by_store t ↦ omega (arith, s, t)
]

-- Two mapped ranges share a virtual address only where they share the physical byte behind it.
pub mapped_apart :
    (a n v b m w i j : ℕ)
    → mapped_virtual_address a n ≡ some v
    → mapped_virtual_address b m ≡ some w
    → i < n
    → j < m
    → v + i ≡ w + j
    → a + i ≡ b + j
mapped_apart a n v b m w i j p q =
    apart-Served a n v b m w i j (mapped-Served a n v p) (mapped-Served b m w q)
