-- ===== src/Money/Digits.antt =====
-- Digit strings as `parse_quantity` of api/src/invoicing/money.rs reads them: leading zeros, the
-- length test, the whole part and the decimals.
use microticket.Prelude.{
  ℕ, zero, suc, ◌+◌, ◌-◌, ◌*◌, ◌≤◌, ◌<◌, Text, true, false, not, [], ◌∷◌, ◌++◌, ◌≡◌, ◌≢◌, refl,
  arith, ltb, ◌==◌, length, All, all, is_ascii_digit, is_whitespace, is_empty, ends_with,
  starts_with, trim_start_matches, trim_start_matches-cons, trim_start_matches-skip, ok, err, inl,
  inr, Bool-cases, if◌then◌else◌, &&-true,
}
use mathlib.Core.List.{cons-ne-nil}
use microticket.Prelude.Int.{i64_max}
use microticket.Decimal.{parse_nonempty}
use microticket.Decimal.RoundTrip.{IsDigit, value, pow10, parse_nonempty_complete}
use microticket.Money.{whole_value, frac_value, valid_number, too_large}

pub digit-IsClean : (c : ℕ) → IsDigit c → is_whitespace c ≡ false
unfolding is_whitespace
digit-IsClean c h = ground arith

pub digit-ne-dot : (c : ℕ) → IsDigit c → c ≢ b'.'
digit-ne-dot c h = omega arith

pub all-digits : (s : Text) → All IsDigit s → all is_ascii_digit s ≡ true
all-digits [] h = refl
all-digits (c ∷ s) (hc, hs) = ground (arith, all-digits s hs)

pub ends_with-digits : (s : Text) → All IsDigit s → ends_with b'.' s ≡ false
ends_with-digits [] h = refl
ends_with-digits (c ∷ []) (hc, _) = ground arith
ends_with-digits (c ∷ d ∷ s) (hc, hs) = ends_with-digits (d ∷ s) hs

pub ends_with-append :
    (s : Text) (c x : ℕ) (t : Text) → ends_with c (s ++ x ∷ t) ≡ ends_with c (x ∷ t)
ends_with-append [] c x t = refl
ends_with-append (y ∷ []) c x t = refl
ends_with-append (y ∷ z ∷ s) c x t = ends_with-append (z ∷ s) c x t

pub digits-all : (s : Text) → all is_ascii_digit s ≡ true → All IsDigit s
digits-all [] h = tt
digits-all (c ∷ s) h =
    let (hc, hs) = &&-true (is_ascii_digit c) (all is_ascii_digit s) h in
    (ground arith, digits-all s hs)

-- Leading zeros do not count.
value-trim_zeros : (t : Text) → value 0 (trim_start_matches (λ c. c == b'0') t) ≡ value 0 t
unfolding trim_start_matches
value-trim_zeros [] = refl
value-trim_zeros (c ∷ t) = ground (arith, value-trim_zeros t)

trim_zeros-digits : (t : Text) → All IsDigit t → All IsDigit (trim_start_matches (λ c. c == b'0') t)
trim_zeros-digits [] h = unfold trim_start_matches in tt
trim_zeros-digits (c ∷ t) (hc, ht) = elim (Bool-cases (c == b'0')) [
  | inl e ↦ rw (trim_start_matches-skip _ c t e) (trim_zeros-digits t ht)
  | inr e ↦ rw (trim_start_matches-cons _ c t e) (hc, ht)
]

trim_zeros-head : (t : Text) → starts_with b'0' (trim_start_matches (λ c. c == b'0') t) ≡ false
unfolding trim_start_matches
trim_zeros-head [] = refl
trim_zeros-head (c ∷ t) = ground (arith, trim_zeros-head t)

-- The size of a number by the count of its digits.
value-lower : (t : Text) (acc : ℕ) → pow10 (length t) * acc ≤ value acc t
value-lower [] acc = omega arith
value-lower (c ∷ t) acc = let d = c - b'0' in omega (arith, value-lower t (acc * 10 + d))

value-upper : (t : Text) (acc : ℕ) → All IsDigit t → value acc t < pow10 (length t) * (acc + 1)
value-upper [] acc h = omega arith
value-upper (c ∷ t) acc (hc, ht) =
    let d = c - b'0' in
    let small : d + 1 ≤ 10 = omega arith in
    let scaled : pow10 (length t) * (acc * 10 + d + 1) ≤ pow10 (length t) * (acc * 10 + 10) =
      grind arith in
    omega (arith, value-upper t (acc * 10 + d) ht, scaled)

pow10_pos : (k : ℕ) → 0 < pow10 k
pow10_pos zero = omega arith
pow10_pos (suc k) = omega (arith, pow10_pos k)

pow10_mono : (j k : ℕ) → j ≤ k → pow10 j ≤ pow10 k
pow10_mono zero k h = pow10_pos k
pow10_mono (suc j) zero h = absurd (omega arith)
pow10_mono (suc j) (suc k) h = omega (arith, pow10_mono j k (omega arith))

long_number : (t : Text) (d : ℕ) → 0 < d → 7 ≤ length t → 10_000_000 ≤ value d t
long_number t d p h =
    let scaled : pow10 (length t) * 1 ≤ pow10 (length t) * d = grind arith in
    omega (arith, value-lower t d, pow10_mono 7 (length t) h, scaled)

short_number : (t : Text) (d : ℕ) → All IsDigit t → d < 10 → length t ≤ 6 → value d t < 10_000_000
short_number t d ht b h =
    let scaled : pow10 (length t) * (d + 1) ≤ pow10 (length t) * 10 = grind arith in
    omega (arith, value-upper t d ht, pow10_mono (length t) 6 h, scaled)

-- The length test on the trimmed digits is a test of the number.
length_test :
    (t : Text)
    → All IsDigit t
    → starts_with b'0' t ≡ false
    → ltb 7 (length t) ≡ not (ltb (value 0 t) 10_000_000)
length_test [] h z = refl
length_test (c ∷ t) (hc, ht) z =
    ground (arith, long_number t (c - b'0'), short_number t (c - b'0') ht)

-- The whole part is the number of its digits, or too large.
pub whole_value_lem :
    (s whole : Text)
    → All IsDigit whole
    → whole_value s whole
      ≡ (if ltb (value 0 whole) 10_000_000 then ok (value 0 whole) else err too_large)
unfolding whole_value
whole_value_lem s whole ds =
    let t = trim_start_matches (λ c. c == b'0') whole in
    rw (← value-trim_zeros whole)
      (number_of_trimmed t (trim_zeros-digits whole ds) (trim_zeros-head whole))
  where
    number_of_trimmed :
        (t : Text)
        → All IsDigit t
        → starts_with b'0' t ≡ false
        → (if ltb 7 (length t)
            then err too_large
            else if is_empty t
            then ok 0
            else valid_number s (parse_nonempty i64_max t))
          ≡ (if ltb (value 0 t) 10_000_000 then ok (value 0 t) else err too_large)
    number_of_trimmed [] ds' z = refl
    number_of_trimmed (c ∷ t) ds' z = ground (
      arith,
      length_test (c ∷ t) ds' z,
      parse_nonempty_complete i64_max (c ∷ t) (cons-ne-nil c t) ds',
    )

-- The digits behind the point, as hundredths.
abbrev pub frac_hundredths : Text → ℕ
frac_hundredths [] = 0
frac_hundredths (d ∷ []) = (d - b'0') * 10
frac_hundredths (d ∷ e ∷ f) = value 0 (d ∷ e ∷ f)

pub frac_value_lem :
    (s frac : Text)
    → All IsDigit frac
    → length frac ≤ 2
    → frac_value s frac ≡ ok (frac_hundredths frac)
unfolding frac_value
frac_value_lem s [] ds l = refl
frac_value_lem s (d ∷ []) ds l = refl
frac_value_lem s (d ∷ e ∷ []) ds l =
    ground (arith, parse_nonempty_complete i64_max (d ∷ e ∷ []) (cons-ne-nil d (e ∷ [])) ds)
frac_value_lem s (d ∷ e ∷ f ∷ g) ds l = absurd (omega arith)
