-- ===== src/Billing/Outcomes.antt =====
-- The rows after a transaction of api/src/dynamodb.rs that attaches items to an invoice or detaches
-- them was made.
use microticket.Prelude.{
  Text, Bool, true, Option, none, some, List, [], ◌∷◌, ◌≡◌, refl, arith, All, text_eq_iff, &&-true,
}
use microticket.Db.{Invoice, BillableItem}
use microticket.Dynamo.{Tables, all_hold, apply_all, mem, on_invoice, update}
use microticket.Dynamo.Effects.{invoice-on_items, item-on_items, holds-on_items}
use microticket.Billing.{
  attach, detach, unbilled_in, billed_on, is_on, on_row, set_invoice_id, is_absent,
}
use microticket.Billing.Version.{set_invoice_id_idem}

pub All-mem :
    (P : Text → Type 0) (ids : List Text) → ((i : Text) → mem i ids ≡ true → P i) → All P ids
All-mem P [] h = tt
All-mem P (i ∷ ids) h = (h i (first i ids), All-mem P ids (λ j m. h j (later i j ids m)))
  where
    first : (i : Text) (ids : List Text) → mem i (i ∷ ids) ≡ true
    first i ids = rw ((text_eq_iff i i).1 refl) refl

    later : (i j : Text) (ids : List Text) → mem j ids ≡ true → mem j (i ∷ ids) ≡ true
    later i j ids m = ground arith

-- An item that a transaction put on the invoice `v` of a project.
abbrev pub WasAttached : Text → Text → Tables → Tables → Text → Type 0
WasAttached v p t t' i =
    (r : BillableItem) × (t.billable_item i ≡ some r)
    × (r.invoice_id ≡ none)
    × (r.project_id ≡ p)
    × (t'.billable_item i ≡ some (set_invoice_id (some v) r))

-- An item that a transaction took off the invoice `v`.
abbrev pub WasDetached : Text → Tables → Tables → Text → Type 0
WasDetached v t t' i =
    (r : BillableItem) × (t.billable_item i ≡ some r)
    × (r.invoice_id ≡ some v)
    × (t'.billable_item i ≡ some (set_invoice_id none r))

absent_none : (o : Option Text) → is_absent o ≡ true → o ≡ none
absent_none none e = refl
absent_none (some v) e = cc

unbilled_in_lem :
    (p : Text) (o : Option BillableItem)
    → unbilled_in p o ≡ true
    → (r : BillableItem) × (o ≡ some r) × (r.invoice_id ≡ none) × (r.project_id ≡ p)
unbilled_in_lem p none e = cc
unbilled_in_lem p (some r) e =
    let (off, own) = &&-true _ _ e in
    (r, refl, absent_none r.invoice_id off, (text_eq_iff r.project_id p).0 own)

pub is_on_lem : (v : Text) (o : Option Text) → is_on v o ≡ true → o ≡ some v
is_on_lem v none e = cc
is_on_lem v (some w) e = rw ((text_eq_iff w v).0 e) refl

billed_on_lem :
    (v : Text) (o : Option BillableItem)
    → billed_on v o ≡ true
    → (r : BillableItem) × (o ≡ some r) × (r.invoice_id ≡ some v)
billed_on_lem v none e = cc
billed_on_lem v (some r) e = (r, refl, is_on_lem v r.invoice_id e)

module _ (t : Tables) (v : Text) (ids : List Text) (c : Option Invoice → Bool)
    (u : Option Invoice → Option Invoice) where
  pub attach_made :
      (p : Text)
      → all_hold t (on_invoice v c u ∷ attach v p ids) ≡ true
      → (c (t.invoice v) ≡ true)
        × ((apply_all t (on_invoice v c u ∷ attach v p ids)).invoice v ≡ u (t.invoice v))
        × All (WasAttached v p t (apply_all t (on_invoice v c u ∷ attach v p ids))) ids
  attach_made p h =
      let f = on_row (set_invoice_id (some v)) in
      let s = record t { invoice = update t.invoice v (u (t.invoice v)) } in
      let items : all_hold t (attach v p ids) ≡ true = (&&-true (c (t.invoice v)) _ h).1 in
      (
        (&&-true (c (t.invoice v)) _ h).0,
        rw invoice-on_items (rw ((text_eq_iff v v).1 refl) refl),
        All-mem _ ids (λ i m.
            let (r, at, off, own) =
              unbilled_in_lem p _ (holds-on_items (unbilled_in p) f ids t i items m) in
            let item = item-on_items (unbilled_in p) f (set_invoice_id_idem (some v)) ids s i in
            (r, at, off, own, rw item (rw (m, at) refl))),
      )

  pub detach_made :
      all_hold t (on_invoice v c u ∷ detach v ids) ≡ true
      → (c (t.invoice v) ≡ true)
        × ((apply_all t (on_invoice v c u ∷ detach v ids)).invoice v ≡ u (t.invoice v))
        × All (WasDetached v t (apply_all t (on_invoice v c u ∷ detach v ids))) ids
  detach_made h =
      let f = on_row (set_invoice_id none) in
      let s = record t { invoice = update t.invoice v (u (t.invoice v)) } in
      let items : all_hold t (detach v ids) ≡ true = (&&-true (c (t.invoice v)) _ h).1 in
      (
        (&&-true (c (t.invoice v)) _ h).0,
        rw invoice-on_items (rw ((text_eq_iff v v).1 refl) refl),
        All-mem _ ids (λ i m.
            let (r, at, on) = billed_on_lem v _ (holds-on_items (billed_on v) f ids t i items m) in
            let item = item-on_items (billed_on v) f (set_invoice_id_idem none) ids s i in
            (r, at, on, rw item (rw (m, at) refl))),
      )
