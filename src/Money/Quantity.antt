-- ===== src/Money/Quantity.antt =====
-- The texts that `parse_quantity` of api/src/invoicing/money.rs accepts.
use mathlib.Core.List.{cons-ne-nil}
use microticket.Prelude.{
  ℕ, ◌+◌, ◌*◌, ◌≤◌, ◌<◌, Text, true, false, ◌&&◌, [], ◌∷◌, ◌++◌, none, some, ◌≡◌, ◌≢◌, ◌↔◌, refl,
  arith, ltb, ◌==◌, if◌then◌else◌, length, All, All-map, is_empty, ends_with, starts_with,
  split_once, split_once-append, split_once-none, split_once_sound, trim, Lacks, Result, ok, err,
  inl, inr, ◌∙◌, Option-cases,
}
use microticket.Prelude.Int.{ℤ, pos}
use microticket.Decimal.RoundTrip.{IsDigit, value}
use microticket.Money.{
  QuantityError, parse_quantity, parse_trimmed, hundredths_of, well_formed, whole_and_frac,
  max_quantity_hundredths, not_positive, too_large,
}
use microticket.Money.Digits.{
  digit-ne-dot, all-digits, ends_with-digits, ends_with-append, digits-all, whole_value_lem,
  frac_value_lem, frac_hundredths,
}

-- The texts that name a quantity of `n` hundredths: digits, or digits, a point and one or two more
-- digits; before the point there may be none.
pub data Spells : Text → ℕ → Type 0 where
  integer : {w : Text} {n : ℕ} → w ≢ [] → All IsDigit w → n ≡ value 0 w * 100 → Spells w n
  decimal :
      {s : Text} {n : ℕ} (w f : Text)
      → s ≡ w ++ b'.' ∷ f
      → All IsDigit w
      → All IsDigit f
      → f ≢ []
      → length f ≤ 2
      → n ≡ value 0 w * 100 + frac_hundredths f
      → Spells s n

-- The last two checks, on the number read.
checked : ℕ → Result QuantityError ℤ
checked n =
    if n == 0
    then err not_positive
    else if ltb max_quantity_hundredths n
    then err too_large
    else ok (pos n)

hundredths_of_lem :
    (s whole frac : Text)
    → well_formed s whole frac ≡ true
    → length frac ≤ 2
    → hundredths_of s whole frac ≡ checked (value 0 whole * 100 + frac_hundredths frac)
unfolding hundredths_of checked well_formed
hundredths_of_lem s whole frac h l =
    let ds : All IsDigit whole = digits-all whole (ground arith) in
    let fs : All IsDigit frac = digits-all frac (ground arith) in
    ground (arith, whole_value_lem s whole ds, frac_value_lem s frac fs l)

hundredths_of-well_formed :
    (s whole frac : Text) (v : ℤ)
    → hundredths_of s whole frac ≡ ok v
    → (well_formed s whole frac ≡ true) × (length frac ≤ 2)
unfolding hundredths_of
hundredths_of-well_formed s whole frac v h = ground arith

checked_sound :
    (m : ℕ) (v : ℤ) → checked m ≡ ok v → (v ≡ pos m) × (0 < m) × (m ≤ max_quantity_hundredths)
unfolding checked
checked_sound m v h = ground arith

checked_complete : (m : ℕ) → 0 < m → m ≤ max_quantity_hundredths → checked m ≡ ok (pos m)
unfolding checked
checked_complete m p b = ground arith

abbrev Accepted : Text → ℤ → Type 0
Accepted s v = (n : ℕ) × (v ≡ pos n) × Spells s n × (0 < n) × (n ≤ max_quantity_hundredths)

whole_and_frac-none : (s : Text) → split_once b'.' s ≡ none → whole_and_frac s ≡ (s, [])
unfolding whole_and_frac
whole_and_frac-none s e = ground arith

whole_and_frac-some : (s w f : Text) → split_once b'.' s ≡ some (w, f) → whole_and_frac s ≡ (w, f)
unfolding whole_and_frac
whole_and_frac-some s w f e = ground arith

-- What acceptance by the parts says.
accepted_parts :
    (s whole frac : Text) (v : ℤ)
    → hundredths_of s whole frac ≡ ok v
    → (well_formed s whole frac ≡ true)
      × (length frac ≤ 2)
      × (checked (value 0 whole * 100 + frac_hundredths frac) ≡ ok v)
accepted_parts s whole frac v h =
    let (wf, l) = hundredths_of-well_formed s whole frac v h in
    (wf, l, cc (hundredths_of_lem s whole frac wf l))

well_formed_parts :
    (s whole frac : Text)
    → well_formed s whole frac ≡ true
    → All IsDigit whole
      × All IsDigit frac
      × (ends_with b'.' s ≡ false)
      × ((is_empty whole && is_empty frac) ≡ false)
unfolding well_formed
well_formed_parts s whole frac h =
    (digits-all whole (ground arith), digits-all frac (ground arith), ground arith, ground arith)

ends_in_point : (w f : Text) → ends_with b'.' (w ++ b'.' ∷ f) ≡ false → f ≢ []
ends_in_point w [] h = λ _. cc (ends_with-append w b'.' b'.' [])
ends_in_point w (c ∷ f) h = cons-ne-nil c f

not_empty : (s : Text) → (is_empty s && true) ≡ false → s ≢ []
not_empty [] h = λ _. cc
not_empty (c ∷ s) h = cons-ne-nil c s

Accepted-integer : (s : Text) (v : ℤ) → hundredths_of s s [] ≡ ok v → Accepted s v
Accepted-integer s v h =
    let (wf, _, c) = accepted_parts s s [] v h in
    let (ds, _, _, ne) = well_formed_parts s s [] wf in
    let (e, p, b) = checked_sound _ v c in
    (value 0 s * 100 + 0, e, Spells.integer (not_empty s ne) ds (omega arith), p, b)

Accepted-decimal :
    (s w f : Text) (v : ℤ) → s ≡ w ++ b'.' ∷ f → hundredths_of s w f ≡ ok v → Accepted s v
Accepted-decimal s w f v e h =
    let (wf, l, c) = accepted_parts s w f v h in
    let (ds, fs, ends, _) = well_formed_parts s w f wf in
    let (ev, p, b) = checked_sound _ v c in
    (
      value 0 w * 100 + frac_hundredths f,
      ev,
      Spells.decimal w f e ds fs (ends_in_point w f (rw e at ends)) l refl,
      p,
      b,
    )

parse_trimmed_parts :
    (s : Text) (v : ℤ)
    → parse_trimmed s ≡ ok v
    → hundredths_of s (whole_and_frac s).0 (whole_and_frac s).1 ≡ ok v
unfolding parse_trimmed
parse_trimmed_parts s v h = ground arith

parse_trimmed_sound : (s : Text) (v : ℤ) → parse_trimmed s ≡ ok v → Accepted s v
parse_trimmed_sound s v h = elim (Option-cases (split_once b'.' s)) [
  | inl e ↦ Accepted-integer s v (rw (whole_and_frac-none s e) at (parse_trimmed_parts s v h))
  | inr (p, e) ↦
      Accepted-decimal s p.0 p.1 v (split_once_sound b'.' s p.0 p.1 e).0
        (rw (whole_and_frac-some s p.0 p.1 e) at (parse_trimmed_parts s v h))
]

no_minus : (s : Text) → All IsDigit s → starts_with b'-' s ≡ false
no_minus [] h = refl
no_minus (c ∷ s) (hc, hs) = ground arith

parse_trimmed-step :
    (s w f : Text)
    → is_empty s ≡ false
    → starts_with b'-' s ≡ false
    → whole_and_frac s ≡ (w, f)
    → parse_trimmed s ≡ hundredths_of s w f
unfolding parse_trimmed
parse_trimmed-step s w f ne m e = ground arith

integer_well_formed : (w : Text) → w ≢ [] → All IsDigit w → well_formed w w [] ≡ true
unfolding well_formed
integer_well_formed [] ne h = absurd (ne refl)
integer_well_formed (c ∷ w) ne h = ground (arith, all-digits (c ∷ w) h, ends_with-digits (c ∷ w) h)

decimal_well_formed :
    (w f : Text) → All IsDigit w → All IsDigit f → f ≢ [] → well_formed (w ++ b'.' ∷ f) w f ≡ true
unfolding well_formed
decimal_well_formed w [] ds fs ne = absurd (ne refl)
decimal_well_formed w (c ∷ f) ds fs ne = ground (
  arith,
  all-digits w ds,
  all-digits (c ∷ f) fs,
  ends_with-append w b'.' b'.' (c ∷ f),
  ends_with-digits (c ∷ f) fs,
)

empty-append : (w f : Text) (c : ℕ) → is_empty (w ++ c ∷ f) ≡ false
empty-append [] f c = refl
empty-append (d ∷ w) f c = refl

minus-append : (w f : Text) → All IsDigit w → starts_with b'-' (w ++ b'.' ∷ f) ≡ false
minus-append [] f h = refl
minus-append (c ∷ w) f (hc, hw) = ground arith

not_empty-false : (s : Text) → s ≢ [] → is_empty s ≡ false
not_empty-false [] h = absurd (h refl)
not_empty-false (c ∷ s) h = refl

Lacks-point : (w : Text) → All IsDigit w → Lacks b'.' w
Lacks-point w h = All-map digit-ne-dot w h

parse_trimmed_complete :
    (s : Text) (n : ℕ)
    → Spells s n
    → 0 < n
    → n ≤ max_quantity_hundredths
    → parse_trimmed s ≡ ok (pos n)
parse_trimmed_complete s n (Spells.integer ne ds e) p b =
    parse_trimmed-step s s [] (not_empty-false s ne) (no_minus s ds)
      (whole_and_frac-none s (split_once-none b'.' s (Lacks-point s ds)))
    ∙ hundredths_of_lem s s [] (integer_well_formed s ne ds) (omega arith)
    ∙ (let e' : value 0 s * 100 + 0 ≡ n = omega arith in rw e' (checked_complete n p b))
parse_trimmed_complete s n (Spells.decimal w f es ds fs ne l e) p b = rw es (
    parse_trimmed-step (w ++ b'.' ∷ f) w f (empty-append w f b'.') (minus-append w f ds)
      (whole_and_frac-some _ w f (split_once-append b'.' w f (Lacks-point w ds)))
    ∙ hundredths_of_lem (w ++ b'.' ∷ f) w f (decimal_well_formed w f ds fs ne) l
    ∙ rw (← e) (checked_complete n p b))

-- A text is accepted with the value `v` exactly if, trimmed, it spells a quantity of `v` hundredths
-- that is positive and at most the maximum.
pub parse_quantity_iff :
    (raw : Text) (v : ℤ)
    → (parse_quantity raw ≡ ok v)
      ↔ ((n : ℕ) × (v ≡ pos n) × Spells (trim raw) n × (0 < n) × (n ≤ max_quantity_hundredths))
unfolding parse_quantity
parse_quantity_iff raw v = (
  parse_trimmed_sound (trim raw) v,
  λ (n, e, sp, p, b). rw e (parse_trimmed_complete (trim raw) n sp p b),
)
