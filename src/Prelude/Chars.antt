-- ===== src/Prelude/Chars.antt =====
-- Text as the list of its code points, and the operations of `str` that the program calls.
-- A test on bytes that holds of ASCII only reads the same on code points.
use microticket.Prelude.Lists.{All, All-reverse}
use microticket.Prelude.Tests.{leb, ◌==◌, if◌then◌else◌}
use mathlib.Core.List.{List, [], ◌∷◌, ◌++◌, reverse, reverse-reverse}
use Prim.Native.Char.{code}
use Prim.Native.Nat.{ℕ}
use Prim.Native.String.{String}
use mathlib.Core.Bool.{◌&&◌, ◌||◌, Bool, false, true}
use mathlib.Core.Logic.{◌≢◌, ◌↔◌}
use mathlib.Core.Option.{Option, none, some}
use mathlib.Core.Path.{◌≡◌, refl}
use native.Mathlib.Omega.{arith}

abbrev pub Text : Type 0
Text = List ℕ

-- The code points of a literal.
abbrev pub codes : String → Text
codes String.[] = []
codes (String.◌∷◌ c s) = code c ∷ codes s

abbrev pub text_eq : Text → Text → Bool
text_eq [] [] = true
text_eq [] (y ∷ ys) = false
text_eq (x ∷ xs) [] = false
text_eq (x ∷ xs) (y ∷ ys) = (x == y) && text_eq xs ys

pub text_eq_iff : (s t : Text) → (text_eq s t ≡ true) ↔ (s ≡ t)
text_eq_iff [] [] = (λ _. refl, λ _. refl)
text_eq_iff [] (y ∷ ys) = (λ h. cc, λ h. cc)
text_eq_iff (x ∷ xs) [] = (λ h. cc, λ h. cc)
text_eq_iff (x ∷ xs) (y ∷ ys) = ground (arith, text_eq_iff xs ys)

abbrev pub is_empty : Text → Bool
is_empty [] = true
is_empty (c ∷ s) = false

-- `u8::is_ascii_digit`.
abbrev pub is_ascii_digit : ℕ → Bool
is_ascii_digit c = leb b'0' c && leb c b'9'

-- `char::is_whitespace`: the Unicode property White_Space.
unfoldable pub is_whitespace : ℕ → Bool
is_whitespace c =
    leb 9 c && leb c 13
    || c == 32
    || c == 0x85
    || c == 0xa0
    || c == 0x1680
    || leb 0x2000 c && leb c 0x200a
    || c == 0x2028
    || c == 0x2029
    || c == 0x202f
    || c == 0x205f
    || c == 0x3000

-- `str::trim_start_matches` with a test on characters.
unfoldable pub trim_start_matches : (ℕ → Bool) → Text → Text
trim_start_matches p [] = []
trim_start_matches p (c ∷ s) = if p c then trim_start_matches p s else c ∷ s

unfoldable pub trim : Text → Text
unfolding trim_start_matches is_whitespace
trim s = reverse (trim_start_matches is_whitespace (reverse (trim_start_matches is_whitespace s)))

abbrev pub starts_with : ℕ → Text → Bool
starts_with c [] = false
starts_with c (x ∷ s) = x == c

abbrev pub ends_with : ℕ → Text → Bool
ends_with c [] = false
ends_with c (x ∷ []) = x == c
ends_with c (x ∷ y ∷ s) = ends_with c (y ∷ s)

abbrev pub cons_left : ℕ → Option (Text × Text) → Option (Text × Text)
cons_left x none = none
cons_left x (some (a, b)) = some (x ∷ a, b)

-- `str::split_once` at the first occurrence of a character.
unfoldable pub split_once : ℕ → Text → Option (Text × Text)
split_once c [] = none
split_once c (x ∷ s) =
    let rest = split_once c s in if x == c then some ([], s) else cons_left x rest

abbrev pub Lacks : ℕ → Text → Type 0
Lacks c = All (λ x. x ≢ c)

pub split_once-append : (c : ℕ) (a b : Text) → Lacks c a → split_once c (a ++ c ∷ b) ≡ some (a, b)
unfolding split_once
split_once-append c [] b h = ground arith
split_once-append c (x ∷ a) b (hx, ha) = ground (arith, split_once-append c a b ha)

pub split_once-none : (c : ℕ) (s : Text) → Lacks c s → split_once c s ≡ none
unfolding split_once
split_once-none c [] h = refl
split_once-none c (x ∷ s) (hx, hs) = ground (arith, split_once-none c s hs)

-- What a successful split says of its input.
pub split_once_sound :
    (c : ℕ) (s a b : Text) → split_once c s ≡ some (a, b) → (s ≡ a ++ c ∷ b) × Lacks c a
unfolding split_once
split_once_sound c [] a b h = cc
split_once_sound c (x ∷ s) [] b h = ground arith
split_once_sound c (x ∷ s) (y ∷ a) b h = ground (arith, split_once_sound c s a b)

-- A text that starts with none of the characters is not shortened.
pub trim_start_matches-cons :
    (p : ℕ → Bool) (c : ℕ) (s : Text) → p c ≡ false → trim_start_matches p (c ∷ s) ≡ c ∷ s
unfolding trim_start_matches
trim_start_matches-cons p c s h = rw h

pub trim_start_matches-skip :
    (p : ℕ → Bool) (c : ℕ) (s : Text)
    → p c ≡ true
    → trim_start_matches p (c ∷ s) ≡ trim_start_matches p s
unfolding trim_start_matches
trim_start_matches-skip p c s h = rw h

trim_start_matches-All :
    (p : ℕ → Bool) (s : Text) → All (λ c. p c ≡ false) s → trim_start_matches p s ≡ s
unfolding trim_start_matches
trim_start_matches-All p [] h = refl
trim_start_matches-All p (c ∷ s) (hc, hs) = rw hc

-- Text with no whitespace is its own trimmed form.
pub trim-All : (s : Text) → All (λ c. is_whitespace c ≡ false) s → trim s ≡ s
trim-All s h =
    unfold trim in
    rw (trim_start_matches-All is_whitespace s h) (
      rw (trim_start_matches-All is_whitespace (reverse s) (All-reverse _ s h)) (reverse-reverse s))
