-- ===== src/Invoicing/Input.antt =====
-- What the checks on a billable item's input accept (api/src/invoicing/mod.rs).
use microticket.Prelude.{
  ℕ, ◌≤◌, Text, true, false, Option, none, some, ◌≡◌, ◌↔◌, refl, arith, inl, inr, Bool-cases, trim,
  is_empty, length, leb, ltb, text_eq, text_eq_iff, ok, ok_injective, sym, ap, ◌∙◌,
}
use microticket.Prelude.Int.{ℤ, pos, negsuc}
use microticket.Money.{max_unit_price_cents}
use microticket.Invoicing.{
  canonical_date, validate_item_date, validate_description, validate_unit_price_cents,
}

canonical_date_iff :
    (s d : Text) (parsed : Option Text)
    → (canonical_date s parsed ≡ ok d) ↔ ((d ≡ s) × (parsed ≡ some s))
canonical_date_iff s d none = (λ h. cc, λ (a, b). cc)
canonical_date_iff s d (some c) = elim (Bool-cases (text_eq c s)) [
  | inr e ↦ rw e (λ h. cc, λ (a, b). absurd (apart e (some_same b)))
  | inl e ↦
      let same : c ≡ s = (text_eq_iff c s).0 e in
      rw e (λ h. (sym (ok_injective h) ∙ same, ap some same), λ (a, b). ap ok (same ∙ sym a))
]
  where
    some_same : some c ≡ some s → c ≡ s
    some_same h = cc

    apart : text_eq c s ≡ false → c ≡ s → ⊥
    apart e h = true≢false (sym ((text_eq_iff c s).1 h) ∙ e)
      where
        true≢false : true ≡ false → ⊥
        true≢false x = cc

description_iff :
    (raw s : Text)
    → (validate_description raw ≡ ok s)
      ↔ ((s ≡ trim raw) × (is_empty (trim raw) ≡ false) × (length (trim raw) ≤ 2000))
unfolding validate_description
description_iff raw s = elim (Bool-cases (is_empty (trim raw))) [
  | inl e ↦ rw e (λ h. cc, λ (a, b, c). cc)
  | inr e ↦ elim (Bool-cases (leb (length (trim raw)) 2000)) [
    | inr l ↦ rw (e, l) (λ h. cc, λ (a, b, c). absurd (ground arith))
    | inl l ↦
        rw (e, l) (λ h. (sym (ok_injective h), refl, ground arith), λ (a, b, c). ap ok (sym a))
  ]
]

price_iff :
    (cents price : ℤ)
    → (validate_unit_price_cents cents ≡ ok price)
      ↔ ((price ≡ cents) × ((n : ℕ) × (cents ≡ pos n) × (n ≤ max_unit_price_cents)))
unfolding validate_unit_price_cents
price_iff (negsuc n) price = (λ h. cc, λ (a, (m, b, c)). cc)
price_iff (pos n) price = elim (Bool-cases (ltb max_unit_price_cents n)) [
  | inl l ↦ rw l (λ h. cc, λ (a, (m, b, c)). absurd (over m (pos_same m b) c l))
  | inr l ↦
      rw l (λ h. (sym (ok_injective h), (n, refl, ground arith)), λ (a, (m, b, c)). ap ok (sym a))
]
  where
    pos_same : (m : ℕ) → pos n ≡ pos m → n ≡ m
    pos_same m h = cc

    over : (m : ℕ) → n ≡ m → m ≤ max_unit_price_cents → ltb max_unit_price_cents n ≡ true → ⊥
    over m e le o = ground arith

-- A date is accepted, as its trimmed text, exactly if that text is a date that prints back as itself. A
-- description is accepted, trimmed, exactly if what is left is not empty and has at most 2000
-- characters. A price is accepted as it is exactly from 0 to the maximum.
pub validate_input_iff :
    (parse_date : Text → Option Text) (raw s : Text) (cents price : ℤ)
    → ((validate_item_date parse_date raw ≡ ok s)
        ↔ ((s ≡ trim raw) × (parse_date (trim raw) ≡ some (trim raw))))
      × ((validate_description raw ≡ ok s)
          ↔ ((s ≡ trim raw) × (is_empty (trim raw) ≡ false) × (length (trim raw) ≤ 2000)))
      × ((validate_unit_price_cents cents ≡ ok price)
          ↔ ((price ≡ cents) × ((n : ℕ) × (cents ≡ pos n) × (n ≤ max_unit_price_cents))))
unfolding validate_item_date
validate_input_iff parse_date raw s cents price = (
  canonical_date_iff (trim raw) s (parse_date (trim raw)),
  description_iff raw s,
  price_iff cents price,
)
