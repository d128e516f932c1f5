-- ===== src/Inbound/Tokens.antt =====
-- `constant_time_eq` of api/src/inbound/resolution.rs, bit by bit.
use microticket.Prelude.{
  ℕ, zero, suc, ◌*◌, ◌/◌, ◌<◌, ◌≡◌, ◌↔◌, true, List, [], ◌∷◌, ◌==◌, ==_iff, length, refl, arith,
  All, inl, inr, Bool-cases,
}
use microticket.Inbound.{xor, or, difference, constant_time_eq}

abbrev pub IsByte : ℕ → Type 0
IsByte b = b < 256

-- 2 ^ width
abbrev size : ℕ → ℕ
size zero = 1
size (suc width) = size width * 2

xor_zero : (width x y : ℕ) → x < size width → y < size width → xor width x y ≡ 0 → x ≡ y
xor_zero zero x y hx hy h = omega arith
xor_zero (suc width) x y hx hy h =
    omega (arith, xor_zero width (x / 2) (y / 2) (omega arith) (omega arith) (omega arith))

xor_self : (width x : ℕ) → xor width x x ≡ 0
xor_self zero x = refl
xor_self (suc width) x = omega (arith, xor_self width (x / 2))

xor_small : (width x y : ℕ) → xor width x y < size width
xor_small zero x y = omega arith
xor_small (suc width) x y = omega (arith, xor_small width (x / 2) (y / 2))

or_zero : (width x y : ℕ) → x < size width → y < size width → or width x y ≡ 0 → (x ≡ 0) × (y ≡ 0)
or_zero zero x y hx hy h = (omega arith, omega arith)
or_zero (suc width) x y hx hy h =
    let (a, b) = or_zero width (x / 2) (y / 2) (omega arith) (omega arith) (omega arith) in
    (omega arith, omega arith)

or_zeros : (width : ℕ) → or width 0 0 ≡ 0
or_zeros zero = refl
or_zeros (suc width) = omega (arith, or_zeros width)

or_small : (width x y : ℕ) → or width x y < size width
or_small zero x y = omega arith
or_small (suc width) x y = omega (arith, or_small width (x / 2) (y / 2))

difference_sound :
    (a b : List ℕ) (diff : ℕ)
    → IsByte diff
    → All IsByte a
    → All IsByte b
    → length a ≡ length b
    → difference diff a b ≡ 0
    → (diff ≡ 0) × (a ≡ b)
difference_sound [] [] diff d ha hb l h = (h, refl)
difference_sound [] (y ∷ b) diff d ha hb l h = absurd (omega arith)
difference_sound (x ∷ a) [] diff d ha hb l h = absurd (omega arith)
difference_sound (x ∷ a) (y ∷ b) diff d (hx, ha) (hy, hb) l h =
    let (step, same) =
      difference_sound a b (or 8 diff (xor 8 x y)) (or_small 8 diff (xor 8 x y)) ha hb (omega arith)
        h in
    let (z, x') = or_zero 8 diff (xor 8 x y) d (xor_small 8 x y) step in
    let e : x ≡ y = xor_zero 8 x y hx hy x' in (z, rw (e, same) refl)

difference_self : (a : List ℕ) → difference 0 a a ≡ 0
difference_self [] = refl
difference_self (x ∷ a) = rw (xor_self 8 x) (rw (or_zeros 8) (difference_self a))

-- On bytes the comparison in constant time says exactly whether the two are equal.
pub constant_time_eq_iff :
    (a b : List ℕ) → All IsByte a → All IsByte b → (constant_time_eq a b ≡ true) ↔ (a ≡ b)
unfolding constant_time_eq
constant_time_eq_iff a b ha hb = (sound, complete)
  where
    sound : constant_time_eq a b ≡ true → a ≡ b
    sound h = elim (Bool-cases (length a == length b)) [
      | inr e ↦ ground arith
      | inl e ↦
          (difference_sound a b 0 (omega arith) ha hb ((==_iff _ _).0 e)
            ((==_iff (difference 0 a b) 0).0 (ground arith))).1
    ]

    complete : a ≡ b → constant_time_eq a b ≡ true
    complete e = rw (← e) (rw ((==_iff (length a) (length a)).1 refl) (rw (difference_self a) refl))
