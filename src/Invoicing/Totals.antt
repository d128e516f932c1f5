-- ===== src/Invoicing/Totals.antt =====
-- Totals of a snapshot (api/src/invoicing/snapshot.rs).
use microticket.Prelude.{
  ℕ, ◌+◌, ◌*◌, ◌/◌, ◌≤◌, Text, Bool, true, false, Option, List, [], ◌∷◌, ◌≡◌, refl, ap, ◌∙◌, arith,
  inl, inr, Bool-cases, All, length,
}
use microticket.Prelude.Int.{pos, abs}
use microticket.Db.{Instance, Project, BillableItem}
use microticket.Money.{line_amount_cents, gst_cents, max_quantity_hundredths, max_unit_price_cents}
use microticket.Money.Rounding.{line_amount_cents_rounds, IsRounded}
use microticket.Invoicing.{
  add_i64, in_order, insert, sorted_items, line_of, lines_of, sum_from, subtotal, gst_of,
  build_snapshot,
}

-- An item whose quantity and price passed the checks.
abbrev pub InRange : BillableItem → Type 0
InRange i =
    (q : ℕ) × (p : ℕ) × (i.quantity_hundredths ≡ pos q)
    × (i.unit_price_cents ≡ pos p)
    × (q ≤ max_quantity_hundredths)
    × (p ≤ max_unit_price_cents)

-- The exact sum of the amounts.
abbrev pub amount : BillableItem → ℕ
unfolding line_amount_cents
amount i = abs (line_amount_cents i.quantity_hundredths i.unit_price_cents)

abbrev pub total_amount : List BillableItem → ℕ
total_amount [] = 0
total_amount (i ∷ items) = amount i + total_amount items

amount_lem :
    (i : BillableItem)
    → InRange i
    → ((line_of i).amount_cents ≡ pos (amount i)) × (amount i ≤ 1_000_000_000_000_000)
unfolding line_of
amount_lem i (q, p, eq, ep, hq, hp) =
    let (a, e, _, b) = line_amount_cents_rounds q p hq hp in
    let e' : line_amount_cents i.quantity_hundredths i.unit_price_cents ≡ pos a = rw (eq, ep) e in
    rw e' (refl, b)

total_amount-insert :
    (x : BillableItem) (l : List BillableItem)
    → total_amount (insert x l) ≡ amount x + total_amount l
total_amount-insert x [] = refl
total_amount-insert x (y ∷ l) = elim (Bool-cases (in_order x y)) [
  | inl e ↦ rw e refl
  | inr e ↦ rw e (omega (arith, total_amount-insert x l))
]

total_amount-sorted_items : (l : List BillableItem) → total_amount (sorted_items l) ≡ total_amount l
total_amount-sorted_items [] = refl
total_amount-sorted_items (x ∷ l) =
    omega (arith, total_amount-insert x (sorted_items l), total_amount-sorted_items l)

insert-InRange :
    (x : BillableItem) (l : List BillableItem)
    → InRange x
    → All InRange l
    → All InRange (insert x l) × (length (insert x l) ≡ 1 + length l)
insert-InRange x [] hx h = ((hx, tt), refl)
insert-InRange x (y ∷ l) hx (hy, h) = elim (Bool-cases (in_order x y)) [
  | inl e ↦ rw e ((hx, (hy, h)), omega arith)
  | inr e ↦ let (r, n) = insert-InRange x l hx h in rw e ((hy, r), omega arith)
]

sorted_items-InRange :
    (l : List BillableItem)
    → All InRange l
    → All InRange (sorted_items l) × (length (sorted_items l) ≡ length l)
sorted_items-InRange [] h = (tt, refl)
sorted_items-InRange (x ∷ l) (hx, h) =
    let (r, n) = sorted_items-InRange l h in
    let (r', n') = insert-InRange x (sorted_items l) hx r in (r', omega arith)

add_i64-pos : (a b : ℕ) → a + b ≤ 1_000_000_000_000_000_000 → add_i64 (pos a) (pos b) ≡ pos (a + b)
unfolding add_i64
add_i64-pos a b h = ground arith

-- Sixty lines leave room for the tax.
sum_from-pos :
    (l : List BillableItem) (acc : ℕ)
    → All InRange l
    → acc + length l * 1_000_000_000_000_000 ≤ 60_000_000_000_000_000
    → (sum_from (pos acc) (lines_of l) ≡ pos (acc + total_amount l))
      × (acc + total_amount l ≤ 60_000_000_000_000_000)
sum_from-pos [] acc h b = (ap pos (omega arith), omega arith)
sum_from-pos (x ∷ l) acc (hx, h) b =
    let (e, a) = amount_lem x hx in
    let step : add_i64 (pos acc) (line_of x).amount_cents ≡ pos (acc + amount x) =
      rw e (add_i64-pos acc (amount x) (omega arith)) in
    let (s, t) = sum_from-pos l (acc + amount x) h (omega arith) in
    (ap (λ z. sum_from z (lines_of l)) step ∙ s ∙ ap pos (omega arith), omega arith)

-- The tax on a subtotal: a tenth, or nothing.
abbrev pub IsTax : Bool → ℕ → ℕ → Type 0
IsTax true subtotal tax = IsRounded subtotal 10 tax
IsTax false subtotal tax = tax ≡ 0

gst_of_lem :
    (b : Bool) (n : ℕ)
    → n ≤ 60_000_000_000_000_000
    → (g : ℕ) × (gst_of b (pos n) ≡ pos g) × (g ≤ n) × IsTax b n g
unfolding gst_cents
gst_of_lem true n h = ((n + 5) / 10, ground arith, omega arith, (omega arith, omega arith))
gst_of_lem false n h = (0, refl, omega arith, refl)

-- Up to fifty items in range give a snapshot whose subtotal is the exact sum of the items' amounts,
-- whose GST is a tenth of it rounded half up if the instance is registered and else nothing, and
-- whose total is the exact sum of the two: nothing wraps.
pub build_snapshot-totals :
    (inst : Instance) (project : Project) (items : List BillableItem) (number : Option ℕ)
    (issue_date : Option Text)
    → All InRange items
    → length items ≤ 50
    → (g : ℕ) × ((build_snapshot inst project items number issue_date).subtotal_cents
        ≡ pos (total_amount items))
      × ((build_snapshot inst project items number issue_date).gst_cents ≡ pos g)
      × ((build_snapshot inst project items number issue_date).total_cents
          ≡ pos (total_amount items + g))
      × IsTax inst.gst_registered (total_amount items) g
unfolding build_snapshot
build_snapshot-totals inst project items number issue_date h b =
    let (r, n) = sorted_items-InRange items h in
    let (s, t) = sum_from-pos (sorted_items items) 0 r (omega arith) in
    let same = total_amount-sorted_items items in
    let e : subtotal (lines_of (sorted_items items)) ≡ pos (total_amount items) =
      s ∙ ap pos (omega (arith, total_amount-sorted_items items)) in
    let (g, tax, small, taxed) =
      gst_of_lem inst.gst_registered (total_amount items) (omega arith) in
    (g, e, rw e tax, rw (e, tax) (add_i64-pos (total_amount items) g (omega arith)), taxed)
