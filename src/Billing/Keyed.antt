-- ===== src/Billing/Keyed.antt =====
-- The key of a row and its `id` attribute under the writes of api/src/dynamodb.rs.
use microticket.Prelude.{
  Text, Bool, true, false, Option, none, some, List, [], ◌∷◌, ◌≡◌, refl, sym, subst, inl, inr,
  Bool-cases, text_eq, text_eq_iff, if◌then◌else◌,
}
use microticket.Db.{Invoice, BillableItem}
use microticket.Dynamo.{Tables, Handler, apply_all, on_items, update, mem}
use microticket.Dynamo.Effects.{Effect, invoice-on_items, item-on_items}
use microticket.Billing.{
  on_row, set_invoice_id, set_fields, new_item, new_invoice, add_items, remove_items, freeze,
  set_paid, set_pdf_key, bump, unbilled_in, billed_on,
}
use microticket.Billing.Version.{set_invoice_id_idem}
use microticket.Billing.Commands.{Command, run, run_all, writes_of, run-Effect}

abbrev pub InvoiceHasId : Text → Option Invoice → Type 0
InvoiceHasId k none = Unit
InvoiceHasId k (some w) = w.id ≡ k

abbrev pub ItemHasId : Text → Option BillableItem → Type 0
ItemHasId k none = Unit
ItemHasId k (some r) = r.id ≡ k

-- Each row stands under its own id.
pub record IsKeyed (t : Tables) : Type 0 where
  pub invoices : (k : Text) → InvoiceHasId k (t.invoice k)
  pub items : (k : Text) → ItemHasId k (t.billable_item k)

-- An update of one key of a map that has a property at every key.
update-all {ℓ} :
    {A : Type ℓ} (P : Text → A → Type 0) (f : Text → A) (k : Text) (a : A)
    → ((j : Text) → P j (f j))
    → P k a
    → (j : Text) → P j (update f k a j)
update-all P f k a h p j = elim (Bool-cases (text_eq k j)) [
  | inl e ↦ rw e (subst (λ i. P i a) ((text_eq_iff k j).0 e) p)
  | inr e ↦ rw e (h j)
]

invoice-on_row :
    (k : Text) (u : Invoice → Invoice) (o : Option Invoice)
    → ((w : Invoice) → (u w).id ≡ w.id)
    → InvoiceHasId k o
    → InvoiceHasId k (on_row u o)
invoice-on_row k u none same h = tt
invoice-on_row k u (some w) same h = rw same h

item-on_row :
    (k : Text) (u : BillableItem → BillableItem) (o : Option BillableItem)
    → ((r : BillableItem) → (u r).id ≡ r.id)
    → ItemHasId k o
    → ItemHasId k (on_row u o)
item-on_row k u none same h = tt
item-on_row k u (some r) same h = rw same h

module _ (t : Tables) (h : IsKeyed t) where
  invoice-IsKeyed :
      (k : Text) (o : Option Invoice)
      → InvoiceHasId k o
      → IsKeyed (record t { invoice = update t.invoice k o })
  invoice-IsKeyed k o p = record {
    invoices = update-all InvoiceHasId t.invoice k o h.invoices p;
    items = h.items;
  }

  item-IsKeyed :
      (k : Text) (o : Option BillableItem)
      → ItemHasId k o
      → IsKeyed (record t { billable_item = update t.billable_item k o })
  item-IsKeyed k o p = record {
    invoices = h.invoices;
    items = update-all ItemHasId t.billable_item k o h.items p;
  }

  row-IsKeyed :
      (k : Text) (u : Invoice → Invoice)
      → ((w : Invoice) → (u w).id ≡ w.id)
      → IsKeyed (record t { invoice = update t.invoice k (on_row u (t.invoice k)) })
  row-IsKeyed k u same = invoice-IsKeyed k _ (invoice-on_row k u (t.invoice k) same (h.invoices k))

-- The items of a transaction get another `invoice_id` at most.
items-IsKeyed :
    (t : Tables) (c : Option BillableItem → Bool) (v : Option Text) (ids : List Text)
    → IsKeyed t
    → IsKeyed (apply_all t (on_items ids c (on_row (set_invoice_id v))))
items-IsKeyed t c v ids h = record {
  invoices = λ k. rw invoice-on_items (h.invoices k);
  items = λ k.
      rw (item-on_items c (on_row (set_invoice_id v)) (set_invoice_id_idem v) ids t k)
        (either k (mem k ids));
}
  where
    either :
        (k : Text) (b : Bool)
        → ItemHasId k
            (if b then on_row (set_invoice_id v) (t.billable_item k) else t.billable_item k)
    either k true = item-on_row k (set_invoice_id v) (t.billable_item k) (λ r. refl) (h.items k)
    either k false = h.items k

writes-IsKeyed : (t : Tables) (c : Command) → IsKeyed t → IsKeyed (apply_all t (writes_of c))
writes-IsKeyed t (Command.create_item id now inst p f user) h =
    item-IsKeyed t h id (some (new_item id now inst p f user)) refl
writes-IsKeyed t (Command.update_item id none f now) h =
    item-IsKeyed t h id _
      (item-on_row id (set_fields f now) (t.billable_item id) (λ r. refl) (h.items id))
writes-IsKeyed t (Command.update_item id (some v) f now) h =
    row-IsKeyed _
      (item-IsKeyed t h id _
        (item-on_row id (set_fields f now) (t.billable_item id) (λ r. refl) (h.items id)))
      v (bump now) (λ w. refl)
writes-IsKeyed t (Command.delete_item id) h = item-IsKeyed t h id none tt
writes-IsKeyed t (Command.create v now inst p ids user) h =
    items-IsKeyed _ (unbilled_in p) (some v) ids
      (invoice-IsKeyed t h v (some (new_invoice v now inst p ids user)) refl)
writes-IsKeyed t (Command.add v p ids version now) h =
    items-IsKeyed _ (unbilled_in p) (some v) ids (row-IsKeyed t h v (add_items ids now) (λ w. refl))
writes-IsKeyed t (Command.remove v ids version now) h =
    items-IsKeyed _ (billed_on v) none ids (row-IsKeyed t h v (remove_items ids now) (λ w. refl))
writes-IsKeyed t (Command.delete v ids version) h =
    items-IsKeyed _ (billed_on v) none ids (invoice-IsKeyed t h v none tt)
writes-IsKeyed t (Command.finalize v version f now) h = row-IsKeyed t h v (freeze f now) (λ w. refl)
writes-IsKeyed t (Command.pay v d now) h = row-IsKeyed t h v (set_paid d now) (λ w. refl)
writes-IsKeyed t (Command.keep_pdf v key) h = row-IsKeyed t h v (set_pdf_key key) (λ w. refl)
writes-IsKeyed t (Command.increment inst) h = record { invoices = h.invoices; items = h.items }
writes-IsKeyed t (Command.set_next inst n) h = record { invoices = h.invoices; items = h.items }

run-IsKeyed : (h : Handler) (c : Command) (t : Tables) → IsKeyed t → IsKeyed (run h c t)
run-IsKeyed h c t k = made (run-Effect h c t)
  where
    made : Effect t (writes_of c) (run h c t) → IsKeyed (run h c t)
    made (inl e) = subst IsKeyed (sym e) k
    made (inr (holds, e)) = subst IsKeyed (sym e) (writes-IsKeyed t c k)

-- If each row stands under its own id, so it does after any requests.
pub run_all-IsKeyed :
    (h : Handler) (cs : List Command) (t : Tables) → IsKeyed t → IsKeyed (run_all h cs t)
unfolding run_all
run_all-IsKeyed h [] t k = k
run_all-IsKeyed h (c ∷ cs) t k = run_all-IsKeyed h cs (run h c t) (run-IsKeyed h c t k)
