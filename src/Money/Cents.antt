-- ===== src/Money/Cents.antt =====
-- The output of `format_cents` of api/src/invoicing/money.rs.
use microticket.Prelude.{
  ℕ, zero, suc, ◌+◌, ◌-◌, ◌*◌, ◌/◌, ◌%◌, Text, [], ◌∷◌, ◌++◌, ◌≡◌, refl, arith, length, All, filter,
  is_ascii_digit, codes, ◌∙◌, ap, ◌⊎◌, inl, inr, ◌≢◌, ◌<◌,
}
use native.Mathlib.Decide.{ℕ_discrete}
use microticket.Prelude.Int.{ℤ, pos, negsuc, abs}
use microticket.Decimal.{to_decimal}
use microticket.Decimal.RoundTrip.{
  IsDigit, value, value-append, value-to_decimal, to_decimal-digits, to_decimal-ne-nil,
  zero_padded_two,
}
use microticket.Money.{format_cents, grouped, sign_of}

-- Groups of a comma and three digits.
abbrev pub Triples : Text → Type 0
Triples [] = Unit
Triples (p ∷ a ∷ b ∷ c ∷ s) = (p ≡ b',') × IsDigit a × IsDigit b × IsDigit c × Triples s
Triples _ = ⊥

-- One to three digits, then groups of a comma and three digits.
pub data Grouped : Text → Type 0 where
  one : {s : Text} (a : ℕ) (t : Text) → IsDigit a → Triples t → s ≡ a ∷ t → Grouped s
  two :
      {s : Text} (a b : ℕ) (t : Text)
      → IsDigit a
      → IsDigit b
      → Triples t
      → s ≡ a ∷ b ∷ t
      → Grouped s
  three :
      {s : Text} (a b c : ℕ) (t : Text)
      → IsDigit a
      → IsDigit b
      → IsDigit c
      → Triples t
      → s ≡ a ∷ b ∷ c ∷ t
      → Grouped s

-- A digit behind the first: a comma stands before it exactly if a multiple of three is left.
grouped-comma :
    (len i c : ℕ) (s : Text)
    → 0 < i
    → (len - i) % 3 ≡ 0
    → grouped len i (c ∷ s) ≡ b',' ∷ c ∷ grouped len (i + 1) s
unfolding grouped
grouped-comma len i c s p e = ground arith

grouped-plain :
    (len i c : ℕ) (s : Text)
    → (i ≡ 0) ⊎ ((len - i) % 3 ≢ 0)
    → grouped len i (c ∷ s) ≡ c ∷ grouped len (i + 1) s
unfolding grouped
grouped-plain len i c s h = ground arith

grouped-Triples :
    (k len i : ℕ) (s : Text)
    → 0 < i
    → length s ≡ 3 * k
    → len ≡ i + length s
    → All IsDigit s
    → Triples (grouped len i s)
grouped-Triples k len i [] p l e h = unfold grouped in tt
grouped-Triples zero len i (a ∷ s) p l e h = absurd (omega arith)
grouped-Triples (suc k) len i (a ∷ []) p l e h = absurd (omega arith)
grouped-Triples (suc k) len i (a ∷ b ∷ []) p l e h = absurd (omega arith)
grouped-Triples (suc k) len i (a ∷ b ∷ c ∷ s) p l e (ha, (hb, (hc, hs))) =
    rw
      (
        grouped-comma len i a (b ∷ c ∷ s) p (omega arith),
        grouped-plain len (i + 1) b (c ∷ s) (inr (omega arith)),
        grouped-plain len (i + 1 + 1) c s (inr (omega arith)),
      )
      (
        refl,
        ha,
        hb,
        hc,
        grouped-Triples k len (i + 1 + 1 + 1) s (omega arith) (omega arith) (omega arith) hs,
      )

-- The first group has as many digits as the length leaves over.
grouped_one :
    (a : ℕ) (t : Text)
    → length t % 3 ≡ 0
    → All IsDigit (a ∷ t)
    → Grouped (grouped (length (a ∷ t)) 0 (a ∷ t))
grouped_one a t m (ha, ht) =
    Grouped.one a _ ha
      (grouped-Triples (length t / 3) _ 1 t (omega arith) (omega arith) (omega arith) ht)
      (grouped-plain (length (a ∷ t)) 0 a t (inl refl))

grouped_two :
    (a b : ℕ) (t : Text)
    → length t % 3 ≡ 0
    → All IsDigit (a ∷ b ∷ t)
    → Grouped (grouped (length (a ∷ b ∷ t)) 0 (a ∷ b ∷ t))
grouped_two a b t m (ha, (hb, ht)) =
    Grouped.two a b _ ha hb
      (grouped-Triples (length t / 3) _ 2 t (omega arith) (omega arith) (omega arith) ht)
      (grouped-plain (length (a ∷ b ∷ t)) 0 a (b ∷ t) (inl refl)
        ∙ ap (λ r. a ∷ r) (grouped-plain (length (a ∷ b ∷ t)) 1 b t (inr (omega arith))))

grouped_three :
    (a b c : ℕ) (t : Text)
    → length t % 3 ≡ 0
    → All IsDigit (a ∷ b ∷ c ∷ t)
    → Grouped (grouped (length (a ∷ b ∷ c ∷ t)) 0 (a ∷ b ∷ c ∷ t))
grouped_three a b c t m (ha, (hb, (hc, ht))) =
    let n : ℕ = length (a ∷ b ∷ c ∷ t) in
    Grouped.three a b c _ ha hb hc
      (grouped-Triples (length t / 3) n 3 t (omega arith) (omega arith) (omega arith) ht)
      (grouped-plain n 0 a (b ∷ c ∷ t) (inl refl)
        ∙ ap (λ r. a ∷ r)
            (grouped-plain n 1 b (c ∷ t) (inr (omega arith))
              ∙ ap (λ r. b ∷ r) (grouped-plain n 2 c t (inr (omega arith)))))

grouped-Grouped : (s : Text) → s ≢ [] → All IsDigit s → Grouped (grouped (length s) 0 s)
grouped-Grouped [] ne h = absurd (ne refl)
grouped-Grouped (a ∷ []) ne h = grouped_one a [] (omega arith) h
grouped-Grouped (a ∷ b ∷ []) ne h = grouped_two a b [] (omega arith) h
grouped-Grouped (a ∷ b ∷ c ∷ t) ne h = elim (ℕ_discrete (length t % 3) 0) [
  | yes e ↦ grouped_three a b c t e h
  | no n1 ↦ elim (ℕ_discrete (length t % 3) 1) [
    | yes e ↦ grouped_one a (b ∷ c ∷ t) (omega arith) h
    | no n2 ↦ grouped_two a b (c ∷ t) (omega arith) h
  ]
]

-- Reading the digits and skipping all else.
abbrev pub digits_value : Text → ℕ
digits_value s = value 0 (filter is_ascii_digit s)

filter-grouped :
    (s : Text) (len i : ℕ) → All IsDigit s → filter is_ascii_digit (grouped len i s) ≡ s
unfolding grouped
filter-grouped [] len i h = refl
filter-grouped (c ∷ s) len i (hc, hs) = ground (arith, filter-grouped s len (i + 1) hs)

filter-append :
    (s t : Text)
    → filter is_ascii_digit (s ++ t) ≡ filter is_ascii_digit s ++ filter is_ascii_digit t
filter-append [] t = refl
filter-append (c ∷ s) t = ground (arith, filter-append s t)

filter_two :
    (a b : ℕ) → IsDigit a → IsDigit b → filter is_ascii_digit (b'.' ∷ a ∷ b ∷ []) ≡ a ∷ b ∷ []
filter_two a b ha hb = ground arith

filter-sign : (v : ℤ) → filter is_ascii_digit (sign_of v) ≡ []
unfolding sign_of
filter-sign (pos n) = refl
filter-sign (negsuc n) = refl

print-digits :
    (sg g w : Text) (a b : ℕ)
    → filter is_ascii_digit sg ≡ []
    → filter is_ascii_digit g ≡ w
    → IsDigit a
    → IsDigit b
    → filter is_ascii_digit (sg ++ g ++ b'.' ∷ a ∷ b ∷ []) ≡ w ++ a ∷ b ∷ []
print-digits sg g w a b es eg ha hb =
    filter-append (sg ++ g) (b'.' ∷ a ∷ b ∷ [])
    ∙ cc (filter-append sg g, es, eg, filter_two a b ha hb)

-- A minus exactly for the negative amounts.
abbrev pub minus : ℤ → Text
minus (pos n) = []
minus (negsuc n) = codes "-"

sign_of-minus : (v : ℤ) → sign_of v ≡ minus v
unfolding sign_of
sign_of-minus (pos n) = refl
sign_of-minus (negsuc n) = refl

-- The print of an amount is a minus if it is negative, the dollars in groups of three behind the first
-- group, a point and two digits; its digits, read as one number, are the cents.
pub format_cents_shape :
    (cents : ℤ)
    → (g : Text) × (a b : ℕ) × (format_cents cents ≡ minus cents ++ g ++ b'.' ∷ a ∷ b ∷ [])
      × Grouped g
      × IsDigit a
      × IsDigit b
      × (digits_value (format_cents cents) ≡ abs cents)
unfolding format_cents
format_cents_shape cents =
    let n : ℕ = abs cents in
    let w = to_decimal (n / 100) in
    let g = grouped (length w) 0 w in
    let ds = to_decimal-digits (n / 100) in
    let two = zero_padded_two (n % 100) (omega arith) in
    let a : ℕ = b'0' + n % 100 / 10 in
    let b : ℕ = b'0' + n % 100 % 10 in
    let digits : filter is_ascii_digit (format_cents cents) ≡ w ++ a ∷ b ∷ [] = rw two (
      print-digits (sign_of cents) g w a b (filter-sign cents) (filter-grouped w _ 0 ds)
        (omega arith, omega arith) (omega arith, omega arith)) in
    (
      g,
      a,
      b,
      rw two (ap (λ sg. sg ++ g ++ b'.' ∷ a ∷ b ∷ []) (sign_of-minus cents)),
      grouped-Grouped w (to_decimal-ne-nil (n / 100)) ds,
      (omega arith, omega arith),
      (omega arith, omega arith),
      ap (value 0) digits
          ∙ value-append 0 w (a ∷ b ∷ [])
          ∙ omega (arith, value-to_decimal (n / 100)),
    )
