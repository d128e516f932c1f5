-- ===== src/Invoicing/Sorting.antt =====
-- The order of a snapshot's lines (api/src/invoicing/snapshot.rs).
use microticket.Prelude.{
  ℕ, Text, Bool, true, false, if◌then◌else◌, Option, List, [], ◌∷◌, ◌≡◌, refl, arith, leb, inl, inr,
  Bool-cases, ◌<◌, ◌≤◌, ◌⊎◌, ltb, ltb→lt, leb→le, ◌==◌, ==_iff, ◌&&◌, &&-true, text_eq, text_eq_iff,
  filter, sym, ap, ◌∙◌,
}
use mathlib.Core.List.{Perm}
use mathlib.Core.List.Perm
use microticket.Db.{Instance, Project, BillableItem}
use microticket.Money.{format_quantity, line_amount_cents}
use microticket.Invoicing.{
  Line, line_of, text_leb, in_order, insert, sorted_items, lines_of, build_snapshot,
}

-- Each item is not after its neighbour.
abbrev pub IsSorted : List BillableItem → Type 0
IsSorted [] = Unit
IsSorted (x ∷ []) = Unit
IsSorted (x ∷ y ∷ ys) = (in_order x y ≡ true) × IsSorted (y ∷ ys)

text_leb-total :
    (s t : Text) (a b : Bool)
    → (a ≡ false → b ≡ true)
    → text_leb s t a ≡ false
    → text_leb t s b ≡ true
text_leb-total [] [] a b h e = h e
text_leb-total [] (y ∷ t) a b h e = cc
text_leb-total (x ∷ s) [] a b h e = refl
text_leb-total (x ∷ s) (y ∷ t) a b h e = ground (arith, text_leb-total s t a b h)

in_order-total : (x y : BillableItem) → in_order x y ≡ false → in_order y x ≡ true
in_order-total x y =
    text_leb-total x.date y.date (leb x.created_at y.created_at) (leb y.created_at x.created_at)
      (λ e. ground arith)

insert-IsSorted : (x : BillableItem) (l : List BillableItem) → IsSorted l → IsSorted (insert x l)
insert-IsSorted x [] h = tt
insert-IsSorted x (y ∷ []) h = elim (Bool-cases (in_order x y)) [
  | inl e ↦ rw e (e, tt)
  | inr e ↦ rw e (in_order-total x y e, tt)
]
insert-IsSorted x (y ∷ z ∷ l) (hyz, h) =
    let rest : IsSorted (insert x (z ∷ l)) = insert-IsSorted x (z ∷ l) h in
    elim (Bool-cases (in_order x y)) [
      | inl e ↦ rw e (e, (hyz, h))
      | inr e ↦ rw e (elim (Bool-cases (in_order x z)) [
        | inl f ↦ rw f (in_order-total x y e, (f, h))
        | inr f ↦
            let kept : IsSorted (z ∷ insert x l) = subst_tests (in_order x z) f rest in
            rw f (hyz, kept)
      ])
    ]
  where
    subst_tests :
        (b : Bool)
        → b ≡ false
        → IsSorted (if b then x ∷ z ∷ l else z ∷ insert x l)
        → IsSorted (z ∷ insert x l)
    subst_tests true e h = cc
    subst_tests false e h = h

pub sorted_items-IsSorted : (l : List BillableItem) → IsSorted (sorted_items l)
sorted_items-IsSorted [] = tt
sorted_items-IsSorted (x ∷ l) = insert-IsSorted x (sorted_items l) (sorted_items-IsSorted l)

insert-Perm : (x : BillableItem) (l : List BillableItem) → Perm (insert x l) (x ∷ l)
insert-Perm x [] = Perm.refl (x ∷ [])
insert-Perm x (y ∷ l) = elim (Bool-cases (in_order x y)) [
  | inl e ↦ rw e (Perm.refl (x ∷ y ∷ l))
  | inr e ↦ rw e (Perm.trans (Perm.cons y (insert-Perm x l)) (Perm.swap x y l))
]

pub sorted_items-Perm : (l : List BillableItem) → Perm (sorted_items l) l
sorted_items-Perm [] = Perm.refl []
sorted_items-Perm (x ∷ l) =
    Perm.trans (insert-Perm x (sorted_items l)) (Perm.cons x (sorted_items-Perm l))

-- Which text comes first in the order of `str`.
abbrev pub Below : Text → Text → Type 0
Below [] [] = ⊥
Below [] (y ∷ t) = Unit
Below (x ∷ s) [] = ⊥
Below (x ∷ s) (y ∷ t) = (x < y) ⊎ ((x ≡ y) × Below s t)

text_leb_sound :
    (s t : Text) (ties : Bool) → text_leb s t ties ≡ true → Below s t ⊎ ((s ≡ t) × (ties ≡ true))
text_leb_sound [] [] ties e = inr (refl, e)
text_leb_sound [] (y ∷ t) ties e = inl tt
text_leb_sound (x ∷ s) [] ties e = cc
text_leb_sound (x ∷ s) (y ∷ t) ties e = elim (Bool-cases (ltb x y)) [
  | inl less ↦ inl (inl (ltb→lt x y less))
  | inr more ↦ elim (Bool-cases (x == y)) [
    | inr other ↦ absurd (false≢true (rw (more, other) at e))
    | inl equal ↦
        let same : x ≡ y = (==_iff x y).0 equal in
        elim (text_leb_sound s t ties (rw (more, equal) at e)) [
          | inl below ↦ inl (inr (same, below))
          | inr (rest, tie) ↦ inr (rw (same, rest) refl, tie)
        ]
  ]
]
  where
    false≢true : false ≡ true → ⊥
    false≢true h = cc

-- By date, and on one date by time of creation.
abbrev pub Before : BillableItem → BillableItem → Type 0
Before x y = Below x.date y.date ⊎ ((x.date ≡ y.date) × (x.created_at ≤ y.created_at))

abbrev pub InOrder : List BillableItem → Type 0
InOrder [] = Unit
InOrder (x ∷ []) = Unit
InOrder (x ∷ y ∷ ys) = Before x y × InOrder (y ∷ ys)

IsSorted-InOrder : (l : List BillableItem) → IsSorted l → InOrder l
IsSorted-InOrder [] h = tt
IsSorted-InOrder (x ∷ []) h = tt
IsSorted-InOrder (x ∷ y ∷ ys) (e, h) = (
  elim (text_leb_sound x.date y.date (leb x.created_at y.created_at) e) [
    | inl below ↦ inl below
    | inr (same, tie) ↦ inr (same, leb→le x.created_at y.created_at tie)
  ],
  IsSorted-InOrder (y ∷ ys) h,
)

-- The line of an item.
abbrev pub IsLine : BillableItem → Line → Type 0
IsLine item line =
    (line.date ≡ item.date)
    × (line.description ≡ item.description)
    × (line.quantity ≡ format_quantity item.quantity_hundredths)
    × (line.quantity_hundredths ≡ item.quantity_hundredths)
    × (line.unit_price_cents ≡ item.unit_price_cents)
    × (line.amount_cents ≡ line_amount_cents item.quantity_hundredths item.unit_price_cents)

abbrev pub AreLines : List BillableItem → List Line → Type 0
AreLines [] [] = Unit
AreLines [] (line ∷ lines) = ⊥
AreLines (item ∷ items) [] = ⊥
AreLines (item ∷ items) (line ∷ lines) = IsLine item line × AreLines items lines

lines_of-AreLines : (items : List BillableItem) → AreLines items (lines_of items)
unfolding line_of
lines_of-AreLines [] = tt
lines_of-AreLines (item ∷ items) = ((refl, refl, refl, refl, refl, refl), lines_of-AreLines items)

-- Of a date and a time of creation.
abbrev pub is_of : Text → ℕ → BillableItem → Bool
is_of date created_at item = text_eq item.date date && (item.created_at == created_at)

text_leb_refl : (s : Text) → text_leb s s true ≡ true
text_leb_refl [] = refl
text_leb_refl (x ∷ s) = ground (arith, text_leb_refl s)

same_in_order :
    (date : Text) (c : ℕ) (x y : BillableItem)
    → is_of date c x ≡ true
    → is_of date c y ≡ true
    → in_order x y ≡ true
same_in_order date c x y ex ey =
    let (dx, cx) = &&-true (text_eq x.date date) (x.created_at == c) ex in
    let (dy, cy) = &&-true (text_eq y.date date) (y.created_at == c) ey in
    let dates : x.date ≡ y.date =
      (text_eq_iff x.date date).0 dx ∙ sym ((text_eq_iff y.date date).0 dy) in
    let times : leb x.created_at y.created_at ≡ true = ground arith in
    rw (dates, times) (text_leb_refl y.date)

insert_keeps :
    (date : Text) (c : ℕ) (x : BillableItem) (l : List BillableItem)
    → filter (is_of date c) (insert x l) ≡ filter (is_of date c) (x ∷ l)
insert_keeps date c x [] = refl
insert_keeps date c x (y ∷ l) = elim (Bool-cases (in_order x y)) [
  | inl e ↦ rw e refl
  | inr e ↦ elim (Bool-cases (is_of date c y)) [
    | inr off ↦ rw e (rw off (insert_keeps date c x l))
    | inl on ↦ elim (Bool-cases (is_of date c x)) [
      | inl both ↦ absurd (true≢false (sym (same_in_order date c x y both on) ∙ e))
      | inr off ↦
          let rest : filter (is_of date c) (insert x l) ≡ filter (is_of date c) l =
            insert_keeps date c x l ∙ rw off refl in
          rw e (rw (on, off, rest) refl)
    ]
  ]
]
  where
    true≢false : true ≡ false → ⊥
    true≢false h = cc

sorted_items_stable :
    (date : Text) (c : ℕ) (l : List BillableItem)
    → filter (is_of date c) (sorted_items l) ≡ filter (is_of date c) l
sorted_items_stable date c [] = refl
sorted_items_stable date c (x ∷ l) =
    insert_keeps date c x (sorted_items l)
    ∙ ap (λ r. if is_of date c x then x ∷ r else r) (sorted_items_stable date c l)

-- The lines of a snapshot are, one by one, those of all the items, each once, with the item's date,
-- description, quantity (as a number and printed), price and amount, by date and then by time of
-- creation; items of one date and time stay in the order that they were given in.
pub build_snapshot-lines :
    (inst : Instance) (project : Project) (items : List BillableItem) (number : Option ℕ)
    (issue_date : Option Text)
    → (order : List BillableItem) × Perm order items
      × InOrder order
      × ((date : Text) (c : ℕ) → filter (is_of date c) order ≡ filter (is_of date c) items)
      × AreLines order (build_snapshot inst project items number issue_date).lines
unfolding build_snapshot
build_snapshot-lines inst project items number issue_date = (
  sorted_items items,
  sorted_items-Perm items,
  IsSorted-InOrder (sorted_items items) (sorted_items-IsSorted items),
  (λ date c. sorted_items_stable date c items),
  lines_of-AreLines (sorted_items items),
)
