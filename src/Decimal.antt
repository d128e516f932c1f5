-- ===== src/Decimal.antt =====
-- Decimal text: the print of an unsigned number (`to_string`, `{}`, `{:02}`, `{:03}`), and
-- `str::parse` for unsigned integers, which skips one leading `+` and refuses overflow.
pub mod RoundTrip
use microticket.Prelude.{
  ℕ, zero, suc, ◌+◌, ◌-◌, ◌*◌, ◌/◌, ◌%◌, ◌^◌, Text, Bool, true, false, not, [], ◌∷◌, ◌++◌, Option,
  none, some, ltb, ◌==◌, if◌then◌else◌, is_ascii_digit, length,
}

-- The loop writes one digit each round; `fuel` above the number is enough.
decimal : ℕ → ℕ → Text
decimal zero n = []
decimal (suc fuel) n = elim (ltb n 10) [
  | true ↦ (b'0' + n) ∷ []
  | false ↦ decimal fuel (n / 10) ++ (b'0' + n % 10) ∷ []
]

unfoldable pub to_decimal : ℕ → Text
unfolding decimal
to_decimal n = decimal (suc n) n

zeros : ℕ → Text
zeros zero = []
zeros (suc n) = b'0' ∷ zeros n

-- `{n:0width}`: at least `width` digits.
unfoldable pub zero_padded : ℕ → ℕ → Text
unfolding to_decimal zeros
zero_padded width n = let s = to_decimal n in zeros (width - length s) ++ s

-- The digits read after `acc`, refusing what passes `max`.
unfoldable pub parse_digits : ℕ → ℕ → Text → Option ℕ
parse_digits max acc [] = some acc
parse_digits max acc (c ∷ s) =
    let v = acc * 10 + (c - b'0') in
    let rest = parse_digits max v s in
    if not (is_ascii_digit c) then none else if ltb max v then none else rest

-- At least one digit.
unfoldable pub parse_nonempty : ℕ → Text → Option ℕ
unfolding parse_digits
parse_nonempty max [] = none
parse_nonempty max (c ∷ s) = parse_digits max 0 (c ∷ s)

unfoldable pub parse_unsigned : ℕ → Text → Option ℕ
unfolding parse_nonempty
parse_unsigned max [] = none
parse_unsigned max (c ∷ s) = if c == b'+' then parse_nonempty max s else parse_nonempty max (c ∷ s)

abbrev pub u64_max : ℕ
u64_max = 2 ^ 64 - 1
