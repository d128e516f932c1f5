-- ===== src/Billing.antt =====
-- Billable items and invoices in the database (api/src/dynamodb.rs, the `billable_item` and `invoice`
-- methods of `Handler`): each method is the list of conditional writes that it sends. `now` is the
-- clock's answer and `id` the fresh id of `new_id`.
pub mod Sets
pub mod Numbers
pub mod Numbering
pub mod Commands
pub mod Version
pub mod Interleaving
pub mod Freeze
pub mod Final
pub mod Linked
pub mod Keyed
pub mod Outcomes
use microticket.Prelude.{
  ℕ, ◌+◌, Text, Bool, true, false, not, ◌&&◌, Option, none, some, List, [], ◌∷◌, ◌++◌, ◌==◌,
  text_eq, if◌then◌else◌, filter, Result, ok, err, codes,
}
use microticket.Prelude.Int.{ℤ}
use microticket.Db.{
  Error, infrastructure, Invoice, InvoiceStatus, draft, finalized, BillableItem, ItemFields,
}
use microticket.Dynamo.{
  Tables, Write, on_invoice, on_item, on_items, mem, Handler, Op, transact_write,
}

-- Condition expressions. A missing row has no attribute, so a comparison fails on it.
abbrev pub is_absent {ℓ} : {A : Type ℓ} → Option A → Bool
is_absent none = true
is_absent (some r) = false

abbrev pub is_draft : InvoiceStatus → Bool
is_draft draft = true
is_draft finalized = false

abbrev pub draft_at : ℕ → Option Invoice → Bool
draft_at version none = false
draft_at version (some w) = is_draft w.status && (w.version == version)

abbrev pub any_draft : Option Invoice → Bool
any_draft none = false
any_draft (some w) = is_draft w.status

abbrev pub any_finalized : Option Invoice → Bool
any_finalized none = false
any_finalized (some w) = not (is_draft w.status)

abbrev pub is_on : Text → Option Text → Bool
is_on v none = false
is_on v (some w) = text_eq w v

abbrev pub unbilled : Option BillableItem → Bool
unbilled none = false
unbilled (some r) = is_absent r.invoice_id

abbrev pub unbilled_in : Text → Option BillableItem → Bool
unbilled_in project_id none = false
unbilled_in project_id (some r) = is_absent r.invoice_id && text_eq r.project_id project_id

abbrev pub billed_on : Text → Option BillableItem → Bool
billed_on v none = false
billed_on v (some r) = is_on v r.invoice_id

-- Update expressions, on the row that the condition found.
abbrev pub on_row {ℓ} : {A : Type ℓ} → (A → A) → Option A → Option A
on_row f none = none
on_row f (some r) = some (f r)

abbrev pub set_invoice_id : Option Text → BillableItem → BillableItem
set_invoice_id v r = record r { invoice_id = v }

abbrev pub set_fields : ItemFields → ℕ → BillableItem → BillableItem
set_fields f now r = record r {
  date = f.date;
  description = f.description;
  quantity_hundredths = f.quantity_hundredths;
  unit_price_cents = f.unit_price_cents;
  updated_at = now;
}

-- `ADD item_ids :ids` and `DELETE item_ids :ids` on a string set.
abbrev pub set_add : List Text → List Text → List Text
set_add ids more = ids ++ filter (λ i. not (mem i ids)) more

abbrev pub set_delete : List Text → List Text → List Text
set_delete ids gone = filter (λ i. not (mem i gone)) ids

abbrev pub bump : ℕ → Invoice → Invoice
bump now w = record w { version = w.version + 1; updated_at = now }

-- The items of an invoice are attached and detached together with the write of the invoice.
abbrev pub attach : Text → Text → List Text → List Write
attach v project_id ids = on_items ids (unbilled_in project_id) (on_row (set_invoice_id (some v)))

abbrev pub detach : Text → List Text → List Write
detach v ids = on_items ids (billed_on v) (on_row (set_invoice_id none))

-- `put_item` of a new row: a refusal is an error here.
abbrev pub unless_refused :
    {A : Type 0} → A → Text → Result Error Bool × Tables → Result Error A × Tables
unless_refused a msg (ok true, t) = (ok a, t)
unless_refused a msg (ok false, t) = (err (infrastructure msg), t)
unless_refused a msg (err e, t) = (err e, t)

abbrev pub new_item : Text → ℕ → Text → Text → ItemFields → Text → BillableItem
new_item id now instance_id project_id f user = record {
  id = id;
  instance_id = instance_id;
  project_id = project_id;
  date = f.date;
  description = f.description;
  quantity_hundredths = f.quantity_hundredths;
  unit_price_cents = f.unit_price_cents;
  invoice_id = none;
  created_by_user_id = user;
  created_at = now;
  updated_at = now;
}

unfoldable pub create_billable_item :
    Handler → Text → ℕ → Text → Text → ItemFields → Text → Op BillableItem
create_billable_item h id now instance_id project_id f user t =
    let r = new_item id now instance_id project_id f user in
    unless_refused r (codes "conditional check failed")
      (transact_write h (on_item id is_absent (λ _. some r) ∷ []) t)

-- Off an invoice the write stands alone; on one, it bumps the draft's version too.
abbrev pub update_item_writes : Text → Option Text → ItemFields → ℕ → List Write
update_item_writes id none f now = on_item id unbilled (on_row (set_fields f now)) ∷ []
update_item_writes id (some v) f now =
    on_item id (billed_on v) (on_row (set_fields f now))
    ∷ on_invoice v any_draft (on_row (bump now))
    ∷ []

unfoldable pub update_billable_item : Handler → Text → Option Text → ItemFields → ℕ → Op Bool
update_billable_item h id invoice_id f now =
    transact_write h (update_item_writes id invoice_id f now)

pub delete_billable_item : Handler → Text → Op Bool
delete_billable_item h id = transact_write h (on_item id unbilled (λ _. none) ∷ [])

abbrev pub new_invoice : Text → ℕ → Text → Text → List Text → Text → Invoice
new_invoice id now instance_id project_id item_ids user = record {
  id = id;
  instance_id = instance_id;
  project_id = project_id;
  status = draft;
  version = 1;
  item_ids = item_ids;
  created_by_user_id = user;
  created_at = now;
  updated_at = now;
  number = none;
  issue_date = none;
  snapshot = none;
  total_cents = none;
  finalized_at = none;
  finalized_by_user_id = none;
  paid_date = none;
  pdf_s3_key = none;
}

abbrev pub create_invoice_writes : Text → ℕ → Text → Text → List Text → Text → List Write
create_invoice_writes id now instance_id project_id item_ids user =
    on_invoice id is_absent (λ _. some (new_invoice id now instance_id project_id item_ids user))
    ∷ attach id project_id item_ids

-- `None` when the transaction was refused.
abbrev pub if_committed :
    {A : Type 0} → A → Result Error Bool × Tables → Result Error (Option A) × Tables
if_committed a (ok true, t) = (ok (some a), t)
if_committed a (ok false, t) = (ok none, t)
if_committed a (err e, t) = (err e, t)

pub create_invoice : Handler → Text → ℕ → Text → Text → List Text → Text → Op (Option Invoice)
create_invoice h id now instance_id project_id item_ids user t =
    if_committed (new_invoice id now instance_id project_id item_ids user)
      (transact_write h (create_invoice_writes id now instance_id project_id item_ids user) t)

abbrev pub add_items : List Text → ℕ → Invoice → Invoice
add_items ids now w = record w {
  version = w.version + 1;
  updated_at = now;
  item_ids = set_add w.item_ids ids;
}

abbrev pub remove_items : List Text → ℕ → Invoice → Invoice
remove_items ids now w = record w {
  version = w.version + 1;
  updated_at = now;
  item_ids = set_delete w.item_ids ids;
}

abbrev pub add_items_writes : Text → Text → List Text → ℕ → ℕ → List Write
add_items_writes v project_id item_ids version now =
    on_invoice v (draft_at version) (on_row (add_items item_ids now)) ∷ attach v project_id item_ids

unfoldable pub add_invoice_items : Handler → Text → Text → List Text → ℕ → ℕ → Op Bool
add_invoice_items h v project_id item_ids version now =
    transact_write h (add_items_writes v project_id item_ids version now)

abbrev pub remove_items_writes : Text → List Text → ℕ → ℕ → List Write
remove_items_writes v item_ids version now =
    on_invoice v (draft_at version) (on_row (remove_items item_ids now)) ∷ detach v item_ids

unfoldable pub remove_invoice_items : Handler → Text → List Text → ℕ → ℕ → Op Bool
remove_invoice_items h v item_ids version now =
    transact_write h (remove_items_writes v item_ids version now)

abbrev pub delete_invoice_writes : Text → List Text → ℕ → List Write
delete_invoice_writes v item_ids version =
    on_invoice v (draft_at version) (λ _. none) ∷ detach v item_ids

unfoldable pub delete_invoice : Handler → Text → List Text → ℕ → Op Bool
delete_invoice h v item_ids version = transact_write h (delete_invoice_writes v item_ids version)

-- What finalization freezes.
pub record Frozen : Type 0 where
  pub number : ℕ
  pub issue_date : Text
  pub snapshot : Text
  pub total_cents : ℤ
  pub finalized_by_user_id : Text

abbrev pub freeze : Frozen → ℕ → Invoice → Invoice
freeze f now w = record w {
  status = finalized;
  version = w.version + 1;
  updated_at = now;
  number = some f.number;
  issue_date = some f.issue_date;
  snapshot = some f.snapshot;
  total_cents = some f.total_cents;
  finalized_at = some now;
  finalized_by_user_id = some f.finalized_by_user_id;
}

unfoldable pub finalize_invoice : Handler → Text → ℕ → Frozen → ℕ → Op Bool
finalize_invoice h v version f now =
    transact_write h (on_invoice v (draft_at version) (on_row (freeze f now)) ∷ [])

abbrev pub set_paid : Option Text → ℕ → Invoice → Invoice
set_paid paid_date now w = record w { paid_date = paid_date; updated_at = now }

pub set_invoice_paid : Handler → Text → Option Text → ℕ → Op Bool
set_invoice_paid h v paid_date now =
    transact_write h (on_invoice v any_finalized (on_row (set_paid paid_date now)) ∷ [])

abbrev pub set_pdf_key : Text → Invoice → Invoice
set_pdf_key key w = record w { pdf_s3_key = some key }

pub set_invoice_pdf_key : Handler → Text → Text → Op Bool
set_invoice_pdf_key h v key =
    transact_write h (on_invoice v any_finalized (on_row (set_pdf_key key)) ∷ [])
