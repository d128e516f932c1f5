-- ===== src/Money.antt =====
-- Integer money arithmetic of the invoicing side (api/src/invoicing/money.rs): quantities are
-- hundredths, prices and amounts are cents. An `i64` or `i128` is a ℤ, and its range is a hypothesis.
-- The error strings of `parse_quantity` are constructors.
pub mod Rounding
pub mod Digits
pub mod Quantity
pub mod RoundTrip
pub mod Cents
use microticket.Prelude.{
  ℕ, zero, suc, ◌+◌, ◌-◌, ◌*◌, ◌/◌, ◌%◌, ◌^◌, Text, Bool, true, false, not, ◌&&◌, [], ◌∷◌, ◌++◌,
  Option, none, some, ltb, leb, ◌==◌, if◌then◌else◌, is_ascii_digit, is_empty, length, all, trim,
  trim_start_matches, starts_with, ends_with, split_once, codes, Result, ok, err, ◌>>=◌, ◌>>◌,
  ensure,
}
use microticket.Prelude.Int.{ℤ, pos, negsuc, neg, abs, is_negative, ◌*ℤ◌, i64_max}
use microticket.Decimal.{to_decimal, zero_padded, parse_nonempty}

abbrev pub max_quantity_hundredths : ℕ
max_quantity_hundredths = 100_000_000

abbrev pub max_unit_price_cents : ℕ
max_unit_price_cents = 1_000_000_000

abbrev pub max_safe_total_cents : ℕ
max_safe_total_cents = 9_007_199_254_740_991

pub data QuantityError : Type 0 where
  required not_positive too_precise too_large : QuantityError
  not_valid : Text → QuantityError

-- `parse().map_err(…)`
valid_number : Text → Option ℕ → Result QuantityError ℕ
valid_number s none = err (not_valid s)
valid_number s (some n) = ok n

pub whole_and_frac : Text → Text × Text
whole_and_frac s = elim (split_once b'.' s) [ some (w, f) ↦ (w, f) | none ↦ (s, []) ]

pub well_formed : Text → Text → Text → Bool
well_formed s whole frac =
    not (is_empty whole && is_empty frac)
    && all is_ascii_digit whole
    && all is_ascii_digit frac
    && not (ends_with b'.' s)

pub whole_value : Text → Text → Result QuantityError ℕ
unfolding valid_number
whole_value s whole =
    let trimmed = trim_start_matches (λ c. c == b'0') whole in
    if ltb 7 (length trimmed)
    then err too_large
    else if is_empty trimmed
    then ok 0
    else valid_number s (parse_nonempty i64_max trimmed)

pub frac_value : Text → Text → Result QuantityError ℕ
unfolding valid_number
frac_value s [] = ok 0
frac_value s (d ∷ []) = ok ((d - b'0') * 10)
frac_value s (d ∷ e ∷ f) = valid_number s (parse_nonempty i64_max (d ∷ e ∷ f))

pub hundredths_of : Text → Text → Text → Result QuantityError ℤ
unfolding well_formed whole_value frac_value
hundredths_of s whole frac = do
  ensure (well_formed s whole frac) (not_valid s)
  ensure (leb (length frac) 2) too_precise
  w ← whole_value s whole
  f ← frac_value s frac
  let hundredths = w * 100 + f
  ensure (ltb 0 hundredths) not_positive
  ensure (leb hundredths max_quantity_hundredths) too_large
  ok (pos hundredths)

pub parse_trimmed : Text → Result QuantityError ℤ
unfolding whole_and_frac
parse_trimmed s = do
  ensure (not (is_empty s)) required
  ensure (not (starts_with b'-' s)) not_positive
  let p = whole_and_frac s
  hundredths_of s p.0 p.1

unfoldable pub parse_quantity : Text → Result QuantityError ℤ
unfolding parse_trimmed hundredths_of trim split_once parse_nonempty
parse_quantity raw = parse_trimmed (trim raw)

-- the `-` of a negative amount
pub sign_of : ℤ → Text
sign_of v = if is_negative v then b'-' ∷ [] else []

unfoldable pub format_quantity : ℤ → Text
unfolding sign_of to_decimal zero_padded
format_quantity hundredths =
    let whole = abs hundredths / 100 in
    let frac = abs hundredths % 100 in
    if frac == 0
    then sign_of hundredths ++ to_decimal whole
    else if frac % 10 == 0
    then sign_of hundredths ++ to_decimal whole ++ b'.' ∷ to_decimal (frac / 10)
    else sign_of hundredths ++ to_decimal whole ++ b'.' ∷ zero_padded 2 frac

-- The denominator is positive; halves go away from zero.
div_round_half_up : ℤ → ℕ → ℤ
div_round_half_up (pos n) d = pos ((n + d / 2) / d)
div_round_half_up (negsuc n) d = neg ((suc n + d / 2) / d)

clamp_i64 : ℤ → ℤ
clamp_i64 (pos n) = if leb n i64_max then pos n else pos i64_max
clamp_i64 (negsuc n) = if leb n i64_max then negsuc n else negsuc i64_max

unfoldable pub line_amount_cents : ℤ → ℤ → ℤ
unfolding div_round_half_up clamp_i64 ◌*ℤ◌
line_amount_cents quantity_hundredths unit_price_cents =
    clamp_i64 (div_round_half_up (quantity_hundredths *ℤ unit_price_cents) 100)

unfoldable pub gst_cents : ℤ → ℤ
unfolding div_round_half_up clamp_i64
gst_cents subtotal_cents = clamp_i64 (div_round_half_up subtotal_cents 10)

-- A comma before each digit that has a multiple of three digits from it on, but the first.
pub grouped : ℕ → ℕ → Text → Text
grouped len i [] = []
grouped len i (c ∷ s) =
    let rest = grouped len (i + 1) s in
    if ltb 0 i && ((len - i) % 3 == 0) then b',' ∷ c ∷ rest else c ∷ rest

unfoldable pub format_cents : ℤ → Text
unfolding sign_of grouped to_decimal zero_padded
format_cents cents =
    let whole = to_decimal (abs cents / 100) in
    sign_of cents ++ grouped (length whole) 0 whole ++ b'.' ∷ zero_padded 2 (abs cents % 100)
