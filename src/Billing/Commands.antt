-- ===== src/Billing/Commands.antt =====
-- Every write of the billing tables as a command, so that an interleaving of requests is a list.
use microticket.Prelude.{
  ℕ, ◌+◌, Text, Bool, true, false, Option, none, some, List, [], ◌∷◌, leb, ok, err, Result, ◌≡◌,
  refl,
}
use microticket.Db.{Error, ItemFields}
use microticket.Dynamo.{Tables, Write, on_invoice, on_item, on_counter, Handler, transact_write}
use microticket.Dynamo.Effects.{Effect, transact_write-Effect}
use microticket.Billing.{
  Frozen, create_billable_item, update_billable_item, delete_billable_item, create_invoice,
  add_invoice_items, remove_invoice_items, delete_invoice, finalize_invoice, set_invoice_paid,
  set_invoice_pdf_key, is_absent, unbilled, draft_at, any_finalized, on_row, new_item, freeze,
  set_paid, set_pdf_key, update_item_writes, create_invoice_writes, add_items_writes,
  remove_items_writes, delete_invoice_writes, unless_refused, if_committed,
}
use microticket.Billing.Numbers.{
  increment_invoice_counter, set_next_invoice_number, or_zero, counter_value,
}

pub data Command : Type 0 where
  create_item : Text → ℕ → Text → Text → ItemFields → Text → Command
  update_item : Text → Option Text → ItemFields → ℕ → Command
  delete_item : Text → Command
  create : Text → ℕ → Text → Text → List Text → Text → Command
  add : Text → Text → List Text → ℕ → ℕ → Command
  remove : Text → List Text → ℕ → ℕ → Command
  delete : Text → List Text → ℕ → Command
  finalize : Text → ℕ → Frozen → ℕ → Command
  pay : Text → Option Text → ℕ → Command
  keep_pdf : Text → Text → Command
  increment : Text → Command
  set_next : Text → ℕ → Command

unfoldable pub run : Handler → Command → Tables → Tables
run h (create_item id now inst proj f user) t = (create_billable_item h id now inst proj f user t).1
run h (update_item id v f now) t = (update_billable_item h id v f now t).1
run h (delete_item id) t = (delete_billable_item h id t).1
run h (create id now inst proj ids user) t = (create_invoice h id now inst proj ids user t).1
run h (add v proj ids version now) t = (add_invoice_items h v proj ids version now t).1
run h (remove v ids version now) t = (remove_invoice_items h v ids version now t).1
run h (delete v ids version) t = (delete_invoice h v ids version t).1
run h (finalize v version f now) t = (finalize_invoice h v version f now t).1
run h (pay v date now) t = (set_invoice_paid h v date now t).1
run h (keep_pdf v key) t = (set_invoice_pdf_key h v key t).1
run h (increment inst) t = (increment_invoice_counter h inst t).1
run h (set_next inst n) t = (set_next_invoice_number h inst n t).1

unfoldable pub run_all : Handler → List Command → Tables → Tables
run_all h [] t = t
run_all h (c ∷ cs) t = run_all h cs (run h c t)

-- The writes that a command sends.
abbrev pub writes_of : Command → List Write
writes_of (create_item id now inst proj f user) =
    on_item id is_absent (λ _. some (new_item id now inst proj f user)) ∷ []
writes_of (update_item id v f now) = update_item_writes id v f now
writes_of (delete_item id) = on_item id unbilled (λ _. none) ∷ []
writes_of (create id now inst proj ids user) = create_invoice_writes id now inst proj ids user
writes_of (add v proj ids version now) = add_items_writes v proj ids version now
writes_of (remove v ids version now) = remove_items_writes v ids version now
writes_of (delete v ids version) = delete_invoice_writes v ids version
writes_of (finalize v version f now) = on_invoice v (draft_at version) (on_row (freeze f now)) ∷ []
writes_of (pay v date now) = on_invoice v any_finalized (on_row (set_paid date now)) ∷ []
writes_of (keep_pdf v key) = on_invoice v any_finalized (on_row (set_pdf_key key)) ∷ []
writes_of (increment inst) = on_counter inst (λ _. true) (λ c. some (or_zero c + 1)) ∷ []
writes_of (set_next inst n) = on_counter inst (λ c. leb (or_zero c) n) (λ _. some n) ∷ []

unless_refused-tables :
    {A : Type 0} (a : A) (msg : Text) (r : Result Error Bool × Tables)
    → (unless_refused a msg r).1 ≡ r.1
unless_refused-tables a msg (ok true, t) = refl
unless_refused-tables a msg (ok false, t) = refl
unless_refused-tables a msg (err e, t) = refl

if_committed-tables :
    {A : Type 0} (a : A) (r : Result Error Bool × Tables) → (if_committed a r).1 ≡ r.1
if_committed-tables a (ok true, t) = refl
if_committed-tables a (ok false, t) = refl
if_committed-tables a (err e, t) = refl

counter_value-tables : (i : Text) (r : Result Error Bool × Tables) → (counter_value i r).1 ≡ r.1
counter_value-tables i (ok true, t) = refl
counter_value-tables i (ok false, t) = refl
counter_value-tables i (err e, t) = refl

run-transact_write :
    (h : Handler) (c : Command) (t : Tables) → run h c t ≡ (transact_write h (writes_of c) t).1
unfolding run create_billable_item update_billable_item delete_billable_item create_invoice
    add_invoice_items remove_invoice_items delete_invoice finalize_invoice set_invoice_paid
    set_invoice_pdf_key increment_invoice_counter set_next_invoice_number
run-transact_write h (create_item id now inst proj f user) t = unless_refused-tables _ _ _
run-transact_write h (create id now inst proj ids user) t = if_committed-tables _ _
run-transact_write h (increment inst) t = counter_value-tables inst _
run-transact_write h c t = refl

-- A command does nothing, or makes all its writes with their conditions true.
pub run-Effect : (h : Handler) (c : Command) (t : Tables) → Effect t (writes_of c) (run h c t)
run-Effect h c t = rw run-transact_write (transact_write-Effect h (writes_of c) t)
