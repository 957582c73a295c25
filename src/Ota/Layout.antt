-- ===== src/Ota/Layout.antt =====
-- What the records of src/platform/ota.rs say after they are written, and what a rewrite selects.
use salpa.Base.{
  not-false, ℕ, ◌+◌, ◌-◌, ◌*◌, ◌/◌, ◌%◌, ◌≤◌, ◌<◌, ◌≡◌, refl, ap, sym, ◌∙◌, true, false, not,
  Option, none, some, subst, some-injective, arith, ◌⊎◌, inl, inr, if◌then◌else◌, ◌==◌, u32_mod,
  option-cases, if-cases,
}
use salpa.Ota.Records.{
  OtaEntry, Entries, entry_at, Offer, ota_crc, decode, encode_with_state, is_selectable,
  active_entry, slot_offset, has_offset, update_layout_from_entries, activation_is_valid,
  update_slot_offset, ota_state_valid,
}

u32_round :
    (v : ℕ)
    → v < u32_mod
    → v % 256 + v / 256 % 256 * 256 + v / 65536 % 256 * 65536 + v / 16777216 % 256 * 16777216 ≡ v
u32_round v l = omega arith

crc_fits : (sequence : ℕ) → ota_crc sequence < u32_mod
unfolding ota_crc
crc_fits sequence = omega arith

abbrev pub entry : ℕ → ℕ → ℕ → OtaEntry
entry sequence state crc = record { sequence = sequence; state = state; crc = crc }

same_entry : {a b c a' b' c' : ℕ} → a ≡ a' → b ≡ b' → c ≡ c' → entry a b c ≡ entry a' b' c'
same_entry p q r = cc

-- A record that is written reads back with its number, its state and a matching CRC, for a number
-- and a state of 32 bits.
pub decode-encode_with_state :
    (e : OtaEntry) (state : ℕ)
    → e.sequence < u32_mod
    → state < u32_mod
    → decode (encode_with_state e state)
      ≡ (record { sequence = e.sequence; state = state; crc = ota_crc e.sequence })
unfolding decode encode_with_state
decode-encode_with_state e state l m =
    same_entry (u32_round e.sequence l) (u32_round state m)
      (u32_round (ota_crc e.sequence) (crc_fits e.sequence))

-- The records with another one at a place.
unfoldable pub put : Entries → ℕ → OtaEntry → Entries
put es place e = if place == 0 then record es { first = e } else record es { second = e }

active_entry-cases :
    (es : Entries) (active : ℕ)
    → active_entry es ≡ some active
    → ((active ≡ 0)
        × (is_selectable es.first ≡ true)
        × (is_selectable es.second ≡ true → es.second.sequence ≤ es.first.sequence))
      ⊎ ((active ≡ 1)
          × (is_selectable es.second ≡ true)
          × (is_selectable es.first ≡ true → es.first.sequence < es.second.sequence))
unfolding active_entry
active_entry-cases es active e = ground arith

pub update_layout_from_entries-some :
    (es : Entries) (running_offset : ℕ) (o : Offer)
    → update_layout_from_entries es running_offset ≡ some o
    → (active : ℕ) × (active_entry es ≡ some active)
      × ((entry_at es active).state ≡ ota_state_valid)
      × (has_offset o.sequence running_offset ≡ true)
      × (o.slot ≡ (o.sequence - 1) % 2)
      × (o.sequence ≡ (entry_at es active).sequence)
      × (o.activation_entry ≡ 1 - active)
unfolding update_layout_from_entries
update_layout_from_entries-some es running_offset o e =
    let Facts : Option Offer → Type 0 = λ r.
      r ≡ some o
      → (active : ℕ) × (active_entry es ≡ some active)
        × ((entry_at es active).state ≡ ota_state_valid)
        × (has_offset o.sequence running_offset ≡ true)
        × (o.slot ≡ (o.sequence - 1) % 2)
        × (o.sequence ≡ (entry_at es active).sequence)
        × (o.activation_entry ≡ 1 - active) in
    option-cases Facts (active_entry es) (λ n h. cc)
      (λ active found.
        if-cases Facts (not ((entry_at es active).state == ota_state_valid)) (λ t h. cc)
          (λ valid.
            if-cases Facts (not (has_offset (entry_at es active).sequence running_offset))
              (λ t h. cc)
              (λ runs h.
                let same = some-injective _ o h in
                let number = ap (λ (x : Offer). x.sequence) (sym same) in
                (
                  active,
                  found,
                  ground arith,
                  subst (λ n. has_offset n running_offset ≡ true) (sym number) (not-false _ runs),
                  ap (λ (x : Offer). x.slot) (sym same) ∙ ap (λ n. (n - 1) % 2) (sym number),
                  number,
                  ap (λ (x : Offer). x.activation_entry) (sym same),
                ))))
      e

-- What the state of a record is until its image is confirmed: new, as `activate_update` writes it, or
-- pending, as the bootloader marks it when it first boots the image.
abbrev pub Unconfirmed : ℕ → Type 0
Unconfirmed state = (state ≡ 0) ⊎ (state ≡ 1)

Unconfirmed-selectable :
    (sequence state : ℕ)
    → sequence < u32_mod - 1
    → Unconfirmed state
    → is_selectable (entry sequence state (ota_crc sequence)) ≡ true
unfolding is_selectable
Unconfirmed-selectable sequence state l (inl e) = ground arith
Unconfirmed-selectable sequence state l (inr e) = ground arith

pub new_selectable :
    (sequence : ℕ)
    → sequence < u32_mod - 1
    → is_selectable (entry sequence 0 (ota_crc sequence)) ≡ true
new_selectable sequence l = Unconfirmed-selectable sequence 0 l (inl refl)

-- Where the new record stands, it is selected, and the other record is as it was.
abbrev Selected : Entries → OtaEntry → ℕ → Type 0
Selected es e place =
    (active_entry (put es place e) ≡ some place)
    × (entry_at (put es place e) (1 - place) ≡ entry_at es (1 - place))
    × (entry_at (put es place e) place ≡ e)

put_first :
    (es : Entries) (e : OtaEntry)
    → is_selectable e ≡ true
    → es.second.sequence < e.sequence
    → Selected es e 0
unfolding put active_entry
put_first es e new above = (ground arith, refl, refl)

put_second :
    (es : Entries) (e : OtaEntry)
    → is_selectable e ≡ true
    → es.first.sequence < e.sequence
    → Selected es e 1
unfolding put active_entry
put_second es e new above = (ground arith, refl, refl)

put-active_entry :
    (es : Entries) (active place : ℕ) (e : OtaEntry)
    → active_entry es ≡ some active
    → place ≡ 1 - active
    → is_selectable e ≡ true
    → (entry_at es active).sequence < e.sequence
    → Selected es e place
put-active_entry es active place e found other new above =
    elim (active_entry-cases es active found) [
      | inl (zero, _, _) ↦
          subst (Selected es e) (let one : 1 ≡ place = omega (arith, zero, other) in one)
            (put_second es e new (subst (λ n. (entry_at es n).sequence < e.sequence) zero above))
      | inr (one, _, _) ↦
          subst (Selected es e) (let none : 0 ≡ place = omega (arith, one, other) in none)
            (put_first es e new (subst (λ n. (entry_at es n).sequence < e.sequence) one above))
    ]

slot_offset-valid :
    (o : Offer) (target sequence running_offset : ℕ)
    → activation_is_valid o target sequence o.activation_entry ≡ true
    → o.slot ≡ (o.sequence - 1) % 2
    → has_offset o.sequence running_offset ≡ true
    → (slot_offset sequence ≡ update_slot_offset target)
      × (has_offset sequence running_offset ≡ false)
      × (o.sequence < sequence)
unfolding activation_is_valid slot_offset update_slot_offset
slot_offset-valid o target sequence running_offset e slot runs =
    (ground arith, ground arith, ground arith)

Unconfirmed-none :
    (es : Entries) (running_offset place : ℕ)
    → active_entry es ≡ some place
    → Unconfirmed (entry_at es place).state
    → update_layout_from_entries es running_offset ≡ none
unfolding update_layout_from_entries
Unconfirmed-none es running_offset place found n =
    let Nothing : Option Offer → Type 0 = λ r. r ≡ none in
    option-cases Nothing (active_entry es) (λ e. refl)
      (λ active e.
        let same = some-injective place active (sym found ∙ e) in
        let unconfirmed = subst (λ a. Unconfirmed (entry_at es a).state) same n in
        if-cases Nothing (not ((entry_at es active).state == ota_state_valid)) (λ t. refl)
          (λ valid. absurd (not_both (entry_at es active).state unconfirmed valid)))
  where
    not_both : (state : ℕ) → Unconfirmed state → not (state == ota_state_valid) ≡ false → ⊥
    not_both state (inl e) v = ground arith
    not_both state (inr e) v = ground arith

-- Where an offer was made for the running slot, and an activation passes `activation_is_valid` with
-- a sequence number below `u32::MAX`, its record, written as new or then marked as pending, and read
-- back, is the one that boots: it names the target slot, which is not the running one; the other
-- record is as it was; and whichever slot runs, no further update is offered.
pub activation_boots :
    (es : Entries) (running_offset : ℕ) (o : Offer) (target sequence state later_offset : ℕ)
    → update_layout_from_entries es running_offset ≡ some o
    → activation_is_valid o target sequence o.activation_entry ≡ true
    → sequence < u32_mod - 1
    → Unconfirmed state
    → let written =
        put es o.activation_entry
          (decode (encode_with_state (entry sequence 0 (ota_crc sequence)) state)) in
      (active_entry written ≡ some o.activation_entry)
      × ((entry_at written o.activation_entry).sequence ≡ sequence)
      × (slot_offset sequence ≡ update_slot_offset target)
      × (has_offset sequence running_offset ≡ false)
      × (entry_at written (1 - o.activation_entry) ≡ entry_at es (1 - o.activation_entry))
      × (update_layout_from_entries written later_offset ≡ none)
activation_boots es running_offset o target sequence state later_offset offered valid small
      unconfirmed =
    let (active, found, confirmed, runs, slot, number, other) =
      update_layout_from_entries-some es running_offset o offered in
    let picked = slot_offset-valid o target sequence running_offset valid slot runs in
    let new = entry sequence 0 (ota_crc sequence) in
    let small_state : state < u32_mod = elim unconfirmed [
      | inl e ↦ omega (arith, e)
      | inr e ↦ omega (arith, e)
    ] in
    let read_back = decode-encode_with_state new state (omega arith) small_state in
    let chosen =
      subst (λ e. Selected es e o.activation_entry) (sym read_back)
        (put-active_entry es active o.activation_entry (entry sequence state (ota_crc sequence))
          found other (Unconfirmed-selectable sequence state small unconfirmed)
          (omega (arith, picked, number))) in
    let stored = chosen.2 ∙ read_back in
    (
      chosen.0,
      ap (λ (x : OtaEntry). x.sequence) stored,
      picked.0,
      picked.1,
      chosen.1,
      Unconfirmed-none _ later_offset o.activation_entry chosen.0
          (subst (λ (e : OtaEntry). Unconfirmed e.state) (sym stored) unconfirmed),
    )
