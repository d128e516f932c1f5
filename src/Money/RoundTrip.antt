-- ===== src/Money/RoundTrip.antt =====
-- `format_quantity` and `parse_quantity` of api/src/invoicing/money.rs together.
use microticket.Prelude.{
  ℕ, ◌+◌, ◌/◌, ◌%◌, ◌≤◌, ◌<◌, Text, [], ◌∷◌, ◌++◌, ◌≡◌, ◌≢◌, refl, false, arith, All, All-append,
  All-map, is_whitespace, trim, trim-All, ok, length,
}
use mathlib.Core.List.{cons-ne-nil}
use microticket.Prelude.Int.{pos}
use microticket.Decimal.{to_decimal}
use microticket.Decimal.RoundTrip.{
  IsDigit, value-to_decimal, to_decimal-digits, to_decimal-ne-nil, to_decimal_digit,
  zero_padded_two,
}
use microticket.Money.{parse_quantity, format_quantity, max_quantity_hundredths}
use microticket.Money.Digits.{digit-IsClean, frac_hundredths}
use microticket.Money.Quantity.{Spells, parse_quantity_iff}
use native.Mathlib.Decide.{ℕ_discrete}

abbrev IsClean : ℕ → Type 0
IsClean c = is_whitespace c ≡ false

digits-IsClean : (s : Text) → All IsDigit s → All IsClean s
digits-IsClean s h = All-map digit-IsClean s h

point-IsClean : (w f : Text) → All IsDigit w → All IsDigit f → All IsClean (w ++ b'.' ∷ f)
point-IsClean w f hw hf =
    All-append IsClean w (b'.' ∷ f) (digits-IsClean w hw)
      (unfold is_whitespace in refl, digits-IsClean f hf)

-- The three shapes of the print.
module _ (h : ℕ) where
  print_whole : h % 100 ≡ 0 → format_quantity (pos h) ≡ to_decimal (h / 100)
  unfolding format_quantity
  print_whole e = ground arith

  print_tenths :
      h % 100 ≢ 0
      → h % 100 % 10 ≡ 0
      → format_quantity (pos h) ≡ to_decimal (h / 100) ++ b'.' ∷ (b'0' + h % 100 / 10) ∷ []
  unfolding format_quantity
  print_tenths ne e = ground (arith, to_decimal_digit (h % 100 / 10) (omega arith))

  print_hundredths :
      h % 100 % 10 ≢ 0
      → format_quantity (pos h)
        ≡ to_decimal (h / 100) ++ b'.' ∷ (b'0' + h % 100 / 10) ∷ (b'0' + h % 100 % 10) ∷ []
  unfolding format_quantity
  print_hundredths ne = ground (arith, zero_padded_two (h % 100) (omega arith))

-- A print spells the number, and trimming leaves it alone.
abbrev Prints : Text → ℕ → Type 0
Prints s h = Spells s h × (trim s ≡ s)

whole-Prints : (h : ℕ) → h % 100 ≡ 0 → Prints (to_decimal (h / 100)) h
whole-Prints h e =
    let ds = to_decimal-digits (h / 100) in
    (
      Spells.integer (to_decimal-ne-nil (h / 100)) ds (omega (arith, value-to_decimal (h / 100))),
      trim-All _ (digits-IsClean _ ds),
    )

decimal-Prints :
    (h : ℕ) (f : Text)
    → All IsDigit f
    → f ≢ []
    → length f ≤ 2
    → frac_hundredths f ≡ h % 100
    → Prints (to_decimal (h / 100) ++ b'.' ∷ f) h
decimal-Prints h f fs ne l e =
    let ds = to_decimal-digits (h / 100) in
    (
      Spells.decimal _ f refl ds fs ne l (omega (arith, value-to_decimal (h / 100))),
      trim-All _ (point-IsClean _ f ds fs),
    )

format-Prints : (h : ℕ) → Prints (format_quantity (pos h)) h
format-Prints h = elim (ℕ_discrete (h % 100) 0) [
  | yes e ↦ rw (print_whole h e) (whole-Prints h e)
  | no ne ↦ elim (ℕ_discrete (h % 100 % 10) 0) [
    | yes e ↦ rw (print_tenths h ne e) (
        decimal-Prints h _ ((omega arith, omega arith), tt) (cons-ne-nil _ _) (omega arith)
          (omega arith))
    | no e ↦ rw (print_hundredths h e) (
        decimal-Prints h _ ((omega arith, omega arith), ((omega arith, omega arith), tt))
          (cons-ne-nil _ _) (omega arith) (omega arith))
  ]
]

-- Every positive quantity up to the maximum is read back from its print.
pub parse_quantity-format_quantity :
    (h : ℕ)
    → 0 < h
    → h ≤ max_quantity_hundredths
    → parse_quantity (format_quantity (pos h)) ≡ ok (pos h)
parse_quantity-format_quantity h p b =
    let (sp, tr) = format-Prints h in
    (parse_quantity_iff (format_quantity (pos h)) (pos h)).1 (h, refl, rw tr sp, p, b)
