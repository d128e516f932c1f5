-- ===== src/Billing/Linked.antt =====
-- The link between an item's `invoice_id` and an invoice's `item_ids` under the writes of
-- api/src/dynamodb.rs.
use microticket.Prelude.{
  ℕ, Text, Bool, true, false, Option, none, some, List, ◌∷◌, ◌≡◌, refl, arith, text_eq, text_eq_iff,
  inl, inr, Bool-cases, &&-true, sym, subst,
}
use microticket.Db.{Invoice, BillableItem}
use microticket.Dynamo.{Tables, Handler, all_hold, apply_all, mem, on_invoice, update}
use microticket.Dynamo.Effects.{Effect, invoice-on_items, item-on_items, holds-on_items}
use microticket.Billing.{
  attach, detach, unbilled_in, billed_on, on_row, set_invoice_id, set_fields, draft_at, bump,
  add_items, remove_items, freeze, set_paid, set_pdf_key, is_absent, delete_invoice, new_item,
  new_invoice,
}
use microticket.Billing.Sets.{mem-set_add, mem-set_delete}
use microticket.Billing.Version.{set_invoice_id_idem, RowSince}
use microticket.Billing.Interleaving.{NeverCreates, run_all-Since}
use microticket.Billing.Commands.{Command, run, run_all, writes_of, run-Effect}

abbrev pub Lists : Option Invoice → Text → Type 0
Lists none i = ⊥
Lists (some w) i = mem i w.item_ids ≡ true

abbrev pub PointsTo : (Text → Option Invoice) → Text → Option Text → Type 0
PointsTo inv i none = Unit
PointsTo inv i (some v) = Lists (inv v) i

abbrev pub Points : (Text → Option Invoice) → Text → Option BillableItem → Type 0
Points inv i none = Unit
Points inv i (some r) = PointsTo inv i r.invoice_id

-- The item names no invoice, or one that is there and lists it.
abbrev pub Linked : Tables → Type 0
Linked t = (i : Text) → Points t.invoice i (t.billable_item i)

-- What the caller of `delete_invoice` passes: the ids of the row at the version that it read.
abbrev pub PassesAll : Tables → Command → Type 0
PassesAll t (Command.delete v ids version) =
    (w : Invoice)
    → t.invoice v ≡ some w
    → w.version ≡ version
    → (i : Text) → mem i w.item_ids ≡ true
    → mem i ids ≡ true
PassesAll t _ = Unit

-- One invoice row is replaced by one that lists the item if the row before did.
Points-update :
    (inv : Text → Option Invoice) (k : Text) (o : Option Invoice) (i : Text)
    → (Lists (inv k) i → Lists o i)
    → (b : Option BillableItem) → Points inv i b
    → Points (update inv k o) i b
Points-update inv k o i more none p = tt
Points-update inv k o i more (some r) p = to r.invoice_id p
  where
    to : (v : Option Text) → PointsTo inv i v → PointsTo (update inv k o) i v
    to none h = tt
    to (some v) h = elim (Bool-cases (text_eq k v)) [
      | inl e ↦ let same : k ≡ v = (text_eq_iff k v).0 e in rw e (more (rw same h))
      | inr e ↦ rw e h
    ]

-- A write of one item that does not put it on an invoice.
Points-item :
    (t : Tables) (k : Text) (o : Option BillableItem)
    → Points t.invoice k o
    → Linked t
    → (i : Text) → Points t.invoice i (update t.billable_item k o i)
Points-item t k o p l i = elim (Bool-cases (text_eq k i)) [
  | inl e ↦ let same : k ≡ i = (text_eq_iff k i).0 e in rw e (rw (← same) p)
  | inr e ↦ rw e (l i)
]

Points-set_fields :
    (inv : Text → Option Invoice) (k : Text) (o : Option BillableItem)
    (u : BillableItem → BillableItem)
    → ((r : BillableItem) → (u r).invoice_id ≡ r.invoice_id)
    → Points inv k o
    → Points inv k (on_row u o)
Points-set_fields inv k none u same p = tt
Points-set_fields inv k (some r) u same p = rw same p

-- A row whose list of items stays.
Lists-on_row :
    (u : Invoice → Invoice) (o : Option Invoice)
    → ((w : Invoice) → (u w).item_ids ≡ w.item_ids)
    → (i : Text) → Lists o i
    → Lists (on_row u o) i
Lists-on_row u none same i h = h
Lists-on_row u (some w) same i h = rw same h

Lists-add :
    (ids : List Text) (now : ℕ) (o : Option Invoice) (i : Text)
    → Lists o i
    → Lists (on_row (add_items ids now) o) i
Lists-add ids now none i h = h
Lists-add ids now (some w) i h = rw mem-set_add (rw h refl)

Lists-added :
    (ids : List Text) (now version : ℕ) (o : Option Invoice) (i : Text)
    → draft_at version o ≡ true
    → mem i ids ≡ true
    → Lists (on_row (add_items ids now) o) i
Lists-added ids now version none i d m = cc
Lists-added ids now version (some w) i d m = ground (arith, mem-set_add i w.item_ids ids)

-- The items of the transactions that attach or detach.
module _ (inv : Text → Option Invoice) (v : Text) (i : Text) where
  attached :
      (p : Text) (o : Option BillableItem)
      → unbilled_in p o ≡ true
      → Lists (inv v) i
      → Points inv i (on_row (set_invoice_id (some v)) o)
  attached p none u h = cc
  attached p (some r) u h = h

  detached : (o : Option BillableItem) → Points inv i (on_row (set_invoice_id none) o)
  detached none = tt
  detached (some r) = tt

there : (inv : Text → Option Invoice) (v : Text) (o : Option Invoice) → update inv v o v ≡ o
there inv v o = rw ((text_eq_iff v v).1 refl) refl

module _ (t : Tables) (v : Text) (ids : List Text) (c : Option Invoice → Bool)
    (u : Option Invoice → Option Invoice) where
  attach-Linked :
      (p : Text)
      → all_hold t (on_invoice v c u ∷ attach v p ids) ≡ true
      → ((i : Text) → Lists (t.invoice v) i → Lists (u (t.invoice v)) i)
      → ((i : Text) → mem i ids ≡ true → Lists (u (t.invoice v)) i)
      → Linked t
      → Linked (apply_all t (on_invoice v c u ∷ attach v p ids))
  attach-Linked p holds more new l i =
      let f = on_row (set_invoice_id (some v)) in
      let s = record t { invoice = update t.invoice v (u (t.invoice v)) } in
      let rows = invoice-on_items (unbilled_in p) f ids s in
      let item = item-on_items (unbilled_in p) f (set_invoice_id_idem (some v)) ids s i in
      elim (Bool-cases (mem i ids)) [
        | inl m ↦
            let unb = holds-on_items (unbilled_in p) f ids t i (&&-true _ _ holds).1 m in
            rw rows (
              rw item (
                rw m (
                  attached s.invoice v i p (t.billable_item i) unb
                    (rw (there t.invoice v (u (t.invoice v))) (new i m)))))
        | inr m ↦ rw rows (
            rw item (
              rw m
                (Points-update t.invoice v (u (t.invoice v)) i (more i) (t.billable_item i) (l i))))
      ]

  detach-Linked :
      ((i : Text) → mem i ids ≡ false → Lists (t.invoice v) i → Lists (u (t.invoice v)) i)
      → Linked t
      → Linked (apply_all t (on_invoice v c u ∷ detach v ids))
  detach-Linked more l i =
      let f = on_row (set_invoice_id none) in
      let s = record t { invoice = update t.invoice v (u (t.invoice v)) } in
      let rows = invoice-on_items (billed_on v) f ids s in
      let item = item-on_items (billed_on v) f (set_invoice_id_idem none) ids s i in
      elim (Bool-cases (mem i ids)) [
        | inl m ↦ rw rows (rw item (rw m (detached s.invoice v i (t.billable_item i))))
        | inr m ↦ rw rows (
            rw item (
              rw m (
                Points-update t.invoice v (u (t.invoice v)) i (more i m) (t.billable_item i)
                  (l i))))
      ]

-- An invoice row is written that lists what it did.
row-Linked :
    (t : Tables) (k : Text) (o : Option Invoice)
    → ((i : Text) → Lists (t.invoice k) i → Lists o i)
    → Linked t
    → (i : Text) → Points (update t.invoice k o) i (t.billable_item i)
row-Linked t k o more l i = Points-update t.invoice k o i (more i) (t.billable_item i) (l i)

Lists-removed :
    (ids : List Text) (now : ℕ) (o : Option Invoice) (i : Text)
    → mem i ids ≡ false
    → Lists o i
    → Lists (on_row (remove_items ids now) o) i
Lists-removed ids now none i m h = h
Lists-removed ids now (some w) i m h = ground (arith, mem-set_delete i w.item_ids ids)

Lists-deleted :
    (t : Tables) (v : Text) (ids : List Text) (version : ℕ)
    → PassesAll t (Command.delete v ids version)
    → (o : Option Invoice) → t.invoice v ≡ o
    → draft_at version o ≡ true
    → (i : Text) → mem i ids ≡ false
    → Lists o i
    → ⊥
Lists-deleted t v ids version all none e d i m h = h
Lists-deleted t v ids version all (some w) e d i m h =
    let same : w.version ≡ version = ground arith in ground (arith, all w e same i h)

Lists-absent : (o : Option Invoice) (i : Text) → is_absent o ≡ true → Lists o i → ⊥
Lists-absent none i e h = h
Lists-absent (some w) i e h = cc

writes-Linked :
    (t : Tables) (c : Command)
    → all_hold t (writes_of c) ≡ true
    → PassesAll t c
    → Linked t
    → Linked (apply_all t (writes_of c))
writes-Linked t (Command.create_item id now inst p f user) h a l i =
    Points-item t id (some (new_item id now inst p f user)) tt l i
writes-Linked t (Command.update_item id none f now) h a l i =
    Points-item t id _
      (Points-set_fields t.invoice id (t.billable_item id) (set_fields f now) (λ r. refl) (l id)) l
      i
writes-Linked t (Command.update_item id (some v) f now) h a l i =
    let o = on_row (set_fields f now) (t.billable_item id) in
    let s = record t { billable_item = update t.billable_item id o } in
    let linked : Linked s =
      Points-item t id o
        (Points-set_fields t.invoice id (t.billable_item id) (set_fields f now) (λ r. refl) (l id))
        l in
    row-Linked s v (on_row (bump now) (t.invoice v))
      (Lists-on_row (bump now) (t.invoice v) (λ w. refl)) linked i
writes-Linked t (Command.delete_item id) h a l i = Points-item t id none tt l i
writes-Linked t (Command.create v now inst p ids user) h a l i =
    attach-Linked t v ids is_absent (λ _. some (new_invoice v now inst p ids user)) p h
      (λ j x. absurd (Lists-absent (t.invoice v) j (&&-true _ _ h).0 x)) (λ j m. m) l i
writes-Linked t (Command.add v p ids version now) h a l i =
    attach-Linked t v ids (draft_at version) (on_row (add_items ids now)) p h
      (Lists-add ids now (t.invoice v))
      (λ i. Lists-added ids now version (t.invoice v) i (&&-true _ _ h).0) l i
writes-Linked t (Command.remove v ids version now) h a l i =
    detach-Linked t v ids (draft_at version) (on_row (remove_items ids now))
      (Lists-removed ids now (t.invoice v)) l i
writes-Linked t (Command.delete v ids version) h a l i =
    detach-Linked t v ids (draft_at version) (λ _. none)
      (λ i m. Lists-deleted t v ids version a (t.invoice v) refl (&&-true _ _ h).0 i m) l i
writes-Linked t (Command.finalize v version f now) h a l i =
    row-Linked t v _ (Lists-on_row (freeze f now) (t.invoice v) (λ w. refl)) l i
writes-Linked t (Command.pay v d now) h a l i =
    row-Linked t v _ (Lists-on_row (set_paid d now) (t.invoice v) (λ w. refl)) l i
writes-Linked t (Command.keep_pdf v key) h a l i =
    row-Linked t v _ (Lists-on_row (set_pdf_key key) (t.invoice v) (λ w. refl)) l i
writes-Linked t (Command.increment inst) h a l i = l i
writes-Linked t (Command.set_next inst n) h a l i = l i

-- If each billed item is on an invoice that is there and lists it, so it is after any request,
-- where a deletion must be given all the items of the row if the row has the version given.
pub run-Linked :
    (h : Handler) (c : Command) (t : Tables) → PassesAll t c → Linked t → Linked (run h c t)
run-Linked h c t a l = made (run-Effect h c t)
  where
    made : Effect t (writes_of c) (run h c t) → Linked (run h c t)
    made (inl e) = subst Linked (sym e) l
    made (inr (holds, e)) = subst Linked (sym e) (writes-Linked t c holds a l)

run-delete :
    (h : Handler) (v : Text) (ids : List Text) (version : ℕ) (t : Tables)
    → run h (Command.delete v ids version) t ≡ (delete_invoice h v ids version t).1
unfolding run
run-delete h v ids version t = refl

-- A client reads an invoice and later deletes it with the ids and the version that it read; other
-- requests run in between, none of which creates an invoice under this id. If before the deletion
-- each billed item is on an invoice that is there and lists it, so it is after it.
pub delete_read-Linked :
    (h : Handler) (v : Text) (between : List Command) (t : Tables) (w : Invoice)
    → NeverCreates v between
    → t.invoice v ≡ some w
    → Linked (run_all h between t)
    → Linked (delete_invoice h v w.item_ids w.version (run_all h between t)).1
delete_read-Linked h v between t w n e l =
    subst Linked (run-delete h v w.item_ids w.version _)
      (run-Linked h (Command.delete v w.item_ids w.version) (run_all h between t) all l)
  where
    all : PassesAll (run_all h between t) (Command.delete v w.item_ids w.version)
    all w' e' same i m =
        let row : RowSince (some w) (some w') = rw (e, e') at (run_all-Since h v between t n).row in
        let ids : w'.item_ids ≡ w.item_ids = (row.1 same).0 in
        subst (λ ids'. mem i ids' ≡ true) ids m
