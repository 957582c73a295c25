-- ===== src/Ota/Offered.antt =====
-- The slot that `update_layout` of src/platform/ota.rs takes for the running one.
use salpa.Base.{ℕ, ◌-◌, ◌%◌, ◌≡◌, ◌⊎◌, Bool, true, some, arith}
use salpa.Ota.Records.{
  Offer, Entries, has_offset, slot_offset, update_layout_from_entries, ota_0_offset, ota_1_offset,
}
use salpa.Ota.Flash.{
  FlashDriver, Attempt, done, and_then, or_failed, running_app_offset, read_entries, update_layout,
  invalid_layout,
}
use salpa.Ota.Layout.{update_layout_from_entries-some}
use salpa.Ota.Steps.{Runs, attempt-cases, or_failed-done, running_app_offset-done}

offset-slot :
    (sequence offset : ℕ)
    → has_offset sequence offset ≡ true
    → (((sequence - 1) % 2 ≡ 0) × (offset ≡ ota_0_offset))
      ⊎ (((sequence - 1) % 2 ≡ 1) × (offset ≡ ota_1_offset))
unfolding slot_offset
offset-slot sequence offset h = ground arith

-- The slot of an offer is the one that the MMU maps the running image from.
abbrev pub Located : ℕ → ℕ → Type 0
Located slot offset =
    ((slot ≡ 0) × (offset ≡ ota_0_offset)) ⊎ ((slot ≡ 1) × (offset ≡ ota_1_offset))

offer-Located :
    (es : Entries) (offset : ℕ) (o : Offer)
    → update_layout_from_entries es offset ≡ some o
    → Located o.slot offset
offer-Located es offset o e =
    let (_, _, _, here, slot, _, _) = update_layout_from_entries-some es offset o e in
    rw slot (offset-slot o.sequence offset here)

module _ {S : Type 0} (driver : FlashDriver S) (encrypted : Bool) where
  pub update_layout-Located :
      (b : S) (descriptor : ℕ) (o : Offer)
      → (update_layout driver encrypted b descriptor).1 ≡ done o
      → (offset : ℕ) × Runs driver encrypted descriptor offset × Located o.slot offset
  unfolding update_layout
  update_layout-Located b descriptor o =
      let P : S × Attempt Offer → Type 0 = λ r.
        r.1 ≡ done o
        → (offset : ℕ) × Runs driver encrypted descriptor offset × Located o.slot offset in
      attempt-cases P (running_app_offset driver encrypted b descriptor)
        (λ (b : S) (offset : ℕ).
          and_then (read_entries driver encrypted b) (λ (b : S) (es : Entries).
            (b, or_failed invalid_layout (update_layout_from_entries es offset))))
        (λ e h. cc)
        (λ offset runs.
          attempt-cases P
            (read_entries driver encrypted (running_app_offset driver encrypted b descriptor).0)
            (λ (b : S) (es : Entries).
              (b, or_failed invalid_layout (update_layout_from_entries es offset)))
            (λ e h. cc)
            (λ es _ h. (
              offset,
              running_app_offset-done driver encrypted b descriptor offset runs,
              offer-Located es offset o (or_failed-done invalid_layout _ o h),
            )))
