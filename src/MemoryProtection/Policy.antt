-- ===== src/MemoryProtection/Policy.antt =====
-- The policy of src/platform/memory_protection.rs: which registers, which bits, which values.
use salpa.Base.{
  ℕ, ◌+◌, ◌-◌, ◌*◌, ◌/◌, ◌%◌, ◌≤◌, ◌<◌, ◌≡◌, not, ◌&&◌, ◌||◌, Option, none, some, some-injective,
  List, [], ◌∷◌, ltb, leb, ◌==◌, if◌then◌else◌, if-cases, sym, ap, arith,
}

abbrev pub sram_alias_offset : ℕ
sram_alias_offset = 0x70000

abbrev pub min_iram_split : ℕ
min_iram_split = 0x40028000

abbrev pub max_iram_split : ℕ
max_iram_split = 0x40050000

abbrev pub locks : List ℕ
locks = 0x10 ∷ 0x28 ∷ 0x3c ∷ 0x5c ∷ []

abbrev pub monitors : List ℕ
monitors = 0x20 ∷ 0x34 ∷ 0x54 ∷ 0x68 ∷ []

-- A register's offset and the bits of it that are modified.
pub record Permission : Type 0 where
  pub offset : ℕ
  pub mask : ℕ

abbrev pub permission : ℕ → ℕ → Permission
permission offset mask = record { offset = offset; mask = mask }

abbrev pub permissions : List Permission
permissions =
    permission 0x14 0xfff
    ∷ permission 0x18 0x7fffff
    ∷ permission 0x1c 0x1ffff
    ∷ permission 0x2c 0x1fffffff
    ∷ permission 0x30 0x7fff
    ∷ permission 0x40 0xfffe
    ∷ permission 0x60 0x1ffff
    ∷ permission 0x64 0x1ffff
    ∷ []

pub data Error : Type 0 where
  layout locked_policy readback : Error

pub record Policy : Type 0 where
  pub iram_end : ℕ
  pub data_start : ℕ
  pub values : List ℕ

-- The values of `Policy::new`; `|` of disjoint fields is a sum, `& 0x1ffff` a remainder.
abbrev pub fine_sram : ℕ → ℕ
fine_sram iram_end = iram_end / 4 % 0x20000 + 0x40000 + 0x20000

abbrev pub dram : ℕ → ℕ
dram data_start = 0x55 + data_start / 4 % 0x20000 * 256 + 0x2000000 + 0x8000000 + 0x10000000

abbrev pub policy_values : ℕ → ℕ → List ℕ
policy_values iram_end data_start =
    0x6db
    ∷ fine_sram iram_end
    ∷ 0
    ∷ dram data_start
    ∷ 0x7800
    ∷ 0
    ∷ (0x10000 + 0x8000 + 0x2000 + 0x1000)
    ∷ 0
    ∷ []

-- `none` is `Error::Layout`; `checked_sub` cannot fail from the least split on.
unfoldable pub new : ℕ → ℕ → Option Policy
new iram_end data_start =
    if not (leb min_iram_split iram_end && ltb iram_end max_iram_split)
      || not (iram_end % 4 == 0)
      || not (iram_end - sram_alias_offset == data_start)
    then none
    else some (record {
      iram_end = iram_end;
      data_start = data_start;
      values = policy_values iram_end data_start;
    })

-- What a fine register denies and allows: the address where its split stands, for a bus whose window
-- of 512 KiB starts at `start`.
abbrev pub split_at : ℕ → ℕ → ℕ
split_at start field = start + field % 0x20000 * 4

new-some :
    (iram_end data_start : ℕ) (p : Policy)
    → new iram_end data_start ≡ some p
    → (p.values ≡ policy_values iram_end data_start)
      × (min_iram_split ≤ iram_end)
      × (iram_end < max_iram_split)
      × (iram_end % 4 ≡ 0)
      × (iram_end - sram_alias_offset ≡ data_start)
unfolding new
new-some iram_end data_start p =
    if-cases
      (λ (r : Option Policy).
        r ≡ some p
        → (p.values ≡ policy_values iram_end data_start)
          × (min_iram_split ≤ iram_end)
          × (iram_end < max_iram_split)
          × (iram_end % 4 ≡ 0)
          × (iram_end - sram_alias_offset ≡ data_start))
      (not (leb min_iram_split iram_end && ltb iram_end max_iram_split)
        || not (iram_end % 4 == 0)
        || not (iram_end - sram_alias_offset == data_start))
      (λ t h. cc)
      (λ t h. (
        ap (λ (p : Policy). p.values) (sym (some-injective _ p h)),
        ground arith,
        ground arith,
        ground arith,
        ground arith,
      ))

split_code :
    (e : ℕ)
    → min_iram_split ≤ e
    → e < max_iram_split
    → e % 4 ≡ 0
    → split_at 0x40000000 (fine_sram e) ≡ e
split_code e low high aligned = omega arith

split_data :
    (e d : ℕ)
    → min_iram_split ≤ e
    → e < max_iram_split
    → e % 4 ≡ 0
    → e ≡ d + sram_alias_offset
    → split_at 0x3ff80000 (dram d / 256) ≡ d
split_data e d low high aligned alias =
    let field : (dram d / 256) % 0x20000 ≡ d / 4 % 0x20000 = omega arith in omega (arith, field)

pub new-Splits :
    (iram_end data_start : ℕ) (p : Policy)
    → new iram_end data_start ≡ some p
    → (p.values ≡ policy_values iram_end data_start)
      × (split_at 0x40000000 (fine_sram iram_end) ≡ iram_end)
      × (split_at 0x3ff80000 (dram data_start / 256) ≡ data_start)
      × (iram_end ≡ data_start + 0x70000)
      × (fine_sram iram_end / 0x20000 ≡ 3)
      × (dram data_start / 0x2000000 ≡ 13)
      × (fine_sram iram_end < 0x800000)
      × (dram data_start < 0x20000000)
      × (0x40028000 ≤ iram_end)
      × (iram_end < 0x40050000)
      × (0x3ffb8000 ≤ data_start)
      × (data_start < 0x3ffe0000)
      × (iram_end % 4 ≡ 0)
new-Splits iram_end data_start p h =
    let (values, low, high, aligned, alias) = new-some iram_end data_start p h in
    let bounds : (min_iram_split ≤ iram_end)
        × (iram_end < max_iram_split)
        × (iram_end % 4 ≡ 0)
        × (iram_end ≡ data_start + sram_alias_offset) =
      (low, high, aligned, omega arith) in
    (
      values,
      split_code iram_end bounds.0 bounds.1 bounds.2,
      split_data iram_end data_start bounds.0 bounds.1 bounds.2 bounds.3,
      bounds.3,
      omega arith,
      omega arith,
      omega arith,
      omega arith,
      low,
      high,
      omega arith,
      omega arith,
      aligned,
    )
