-- ===== src/Decimal/RoundTrip.antt =====
-- Digits of the decimal print, and its parse.
use microticket.Prelude.{
  Option, none, if◌then◌else◌, ℕ, zero, suc, ◌+◌, ◌-◌, ◌*◌, ◌/◌, ◌%◌, ◌≤◌, ◌<◌, Text, Bool, true,
  false, text_eq, text_eq_iff, [], ◌∷◌, ◌++◌, some, ◌≡◌, ◌≢◌, refl, arith, ltb, length,
  length-append, All, All-append, starts_with, inl, inr, Bool-cases, ◌∙◌, ap,
}
use microticket.Decimal.{decimal, to_decimal, zero_padded, parse_digits, parse_nonempty}

abbrev pub IsDigit : ℕ → Type 0
IsDigit c = (b'0' ≤ c) × (c ≤ b'9')

-- The number that a text of digits spells behind `acc`.
abbrev pub value : ℕ → Text → ℕ
value acc [] = acc
value acc (c ∷ s) = value (acc * 10 + (c - b'0')) s

abbrev pub pow10 : ℕ → ℕ
pow10 zero = 1
pow10 (suc k) = 10 * pow10 k

pub value-append : (acc : ℕ) (s t : Text) → value acc (s ++ t) ≡ value (value acc s) t
value-append acc [] t = refl
value-append acc (c ∷ s) t = value-append (acc * 10 + (c - b'0')) s t

decimal_last : (fuel n : ℕ) → ltb n 10 ≡ true → decimal (suc fuel) n ≡ (b'0' + n) ∷ []
unfolding decimal
decimal_last fuel n h = ground arith

decimal_more :
    (fuel n : ℕ)
    → ltb n 10 ≡ false
    → decimal (suc fuel) n ≡ decimal fuel (n / 10) ++ (b'0' + n % 10) ∷ []
unfolding decimal
decimal_more fuel n h = ground arith

value-decimal : (fuel n : ℕ) → n < fuel → value 0 (decimal fuel n) ≡ n
unfolding decimal
value-decimal zero n h = absurd (omega arith)
value-decimal (suc fuel) n h = elim (Bool-cases (ltb n 10)) [
  | inl small ↦ rw (decimal_last fuel n small) (omega arith)
  | inr big ↦ rw (decimal_more fuel n big) (
      value-append 0 (decimal fuel (n / 10)) ((b'0' + n % 10) ∷ [])
      ∙ ground (arith, value-decimal fuel (n / 10) (ground arith)))
]

decimal-digits : (fuel n : ℕ) → All IsDigit (decimal fuel n)
unfolding decimal
decimal-digits zero n = tt
decimal-digits (suc fuel) n = elim (Bool-cases (ltb n 10)) [
  | inl small ↦ rw (decimal_last fuel n small) ((omega arith, ground arith), tt)
  | inr big ↦ rw (decimal_more fuel n big) (
      All-append IsDigit (decimal fuel (n / 10)) ((b'0' + n % 10) ∷ [])
        (decimal-digits fuel (n / 10)) ((omega arith, omega arith), tt))
]

length-decimal : (k fuel n : ℕ) → n < pow10 (suc k) → length (decimal fuel n) ≤ suc k
unfolding decimal
length-decimal k zero n h = omega arith
length-decimal zero (suc fuel) n h = ground arith
length-decimal (suc k) (suc fuel) n h = elim (Bool-cases (ltb n 10)) [
  | inl small ↦ rw (decimal_last fuel n small) (omega arith)
  | inr big ↦ rw (decimal_more fuel n big) (
      omega (
        arith,
        length-append (decimal fuel (n / 10)) ((b'0' + n % 10) ∷ []),
        length-decimal k fuel (n / 10) (omega arith),
      ))
]

starts_with-append : (c : ℕ) (s t : Text) → s ≢ [] → starts_with c (s ++ t) ≡ starts_with c s
starts_with-append c [] t h = absurd (h refl)
starts_with-append c (x ∷ s) t h = refl

append-ne-nil : (s t : Text) (c : ℕ) → s ++ c ∷ t ≢ []
append-ne-nil [] t c = λ e. cc
append-ne-nil (x ∷ s) t c = λ e. cc

decimal-ne-nil : (fuel n : ℕ) → n < fuel → decimal fuel n ≢ []
unfolding decimal
decimal-ne-nil zero n h = absurd (omega arith)
decimal-ne-nil (suc fuel) n h = elim (Bool-cases (ltb n 10)) [
  | inl small ↦ rw (decimal_last fuel n small) (λ e. cc)
  | inr big ↦
      rw (decimal_more fuel n big) (append-ne-nil (decimal fuel (n / 10)) [] (b'0' + n % 10))
]

-- No leading zero.
starts_with-decimal : (fuel n : ℕ) → n < fuel → 0 < n → starts_with b'0' (decimal fuel n) ≡ false
unfolding decimal
starts_with-decimal zero n h p = absurd (omega arith)
starts_with-decimal (suc fuel) n h p = elim (Bool-cases (ltb n 10)) [
  | inl small ↦ rw (decimal_last fuel n small) (ground arith)
  | inr big ↦ rw (decimal_more fuel n big) (
      starts_with-append b'0' (decimal fuel (n / 10)) ((b'0' + n % 10) ∷ [])
        (decimal-ne-nil fuel (n / 10) (ground arith))
      ∙ starts_with-decimal fuel (n / 10) (ground arith) (ground arith))
]

module _ (n : ℕ) where
  pub value-to_decimal : value 0 (to_decimal n) ≡ n
  unfolding to_decimal
  value-to_decimal = value-decimal (suc n) n (omega arith)

  pub to_decimal-digits : All IsDigit (to_decimal n)
  unfolding to_decimal
  to_decimal-digits = decimal-digits (suc n) n

  pub length-to_decimal : (k : ℕ) → n < pow10 (suc k) → length (to_decimal n) ≤ suc k
  unfolding to_decimal
  length-to_decimal k h = length-decimal k (suc n) n h

  pub to_decimal-ne-nil : to_decimal n ≢ []
  unfolding to_decimal
  to_decimal-ne-nil = decimal-ne-nil (suc n) n (omega arith)

  pub starts_with-to_decimal : 0 < n → starts_with b'0' (to_decimal n) ≡ false
  unfolding to_decimal
  starts_with-to_decimal = starts_with-decimal (suc n) n (omega arith)

le-value : (s : Text) (acc : ℕ) → acc ≤ value acc s
le-value [] acc = omega arith
le-value (c ∷ s) acc = omega (arith, le-value s (acc * 10 + (c - b'0')))

-- The reader accepts exactly the digits whose value fits.
pub parse_digits_complete :
    (max : ℕ) (s : Text) (acc : ℕ)
    → All IsDigit s
    → value acc s ≤ max
    → parse_digits max acc s ≡ some (value acc s)
unfolding parse_digits
parse_digits_complete max [] acc _ _ = refl
parse_digits_complete max (c ∷ s) acc (hc, hs) fits =
    let v = acc * 10 + (c - b'0') in
    ground (arith, parse_digits_complete max s v hs fits, le-value s v)

pub parse_digits_sound :
    (max : ℕ) (s : Text) (acc r : ℕ)
    → acc ≤ max
    → parse_digits max acc s ≡ some r
    → All IsDigit s × (r ≡ value acc s) × (r ≤ max)
unfolding parse_digits
parse_digits_sound max [] acc r fits h = ground arith
parse_digits_sound max (c ∷ s) acc r fits h =
    ground (arith, parse_digits_sound max s (acc * 10 + (c - b'0')) r)

pub parse_nonempty_complete :
    (max : ℕ) (s : Text)
    → s ≢ []
    → All IsDigit s
    → value 0 s ≤ max
    → parse_nonempty max s ≡ some (value 0 s)
unfolding parse_nonempty
parse_nonempty_complete max [] h _ _ = absurd (h refl)
parse_nonempty_complete max (c ∷ s) _ ds fits = parse_digits_complete max (c ∷ s) 0 ds fits

-- The print of a number that fits is read back.
pub parse-to_decimal : (max n : ℕ) → n ≤ max → parse_nonempty max (to_decimal n) ≡ some n
parse-to_decimal max n h =
    parse_nonempty_complete max (to_decimal n) (to_decimal-ne-nil n) (to_decimal-digits n)
      (omega (arith, value-to_decimal n))
    ∙ ap some (value-to_decimal n)

pub to_decimal_digit : (n : ℕ) → n < 10 → to_decimal n ≡ (b'0' + n) ∷ []
unfolding to_decimal
to_decimal_digit n h = decimal_last n n (ground arith)

-- The largest number below a bound that fails a test.
failure : (ℕ → Bool) → ℕ → Option ℕ
failure test zero = none
failure test (suc bound) =
    let below = failure test bound in if test bound then below else some bound

failure-none :
    (test : ℕ → Bool) (bound k : ℕ) → failure test bound ≡ none → k < bound → test k ≡ true
unfolding failure
failure-none test zero k passed lt = absurd (omega arith)
failure-none test (suc bound) k passed lt = ground (arith, failure-none test bound k)

padded_table :
    failure (λ n. text_eq (zero_padded 2 n) ((b'0' + n / 10) ∷ (b'0' + n % 10) ∷ [])) 100 ≡ none
unfolding failure zero_padded
padded_table = refl

pub zero_padded_two : (n : ℕ) → n < 100 → zero_padded 2 n ≡ (b'0' + n / 10) ∷ (b'0' + n % 10) ∷ []
zero_padded_two n h =
    let test = λ (m : ℕ). text_eq (zero_padded 2 m) ((b'0' + m / 10) ∷ (b'0' + m % 10) ∷ []) in
    (text_eq_iff _ _).0 (failure-none test 100 n padded_table h)
