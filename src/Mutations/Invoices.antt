-- ===== src/Mutations/Invoices.antt =====
-- The mutations of invoices (api/src/graphql/mutations.rs).
use microticket.Prelude.{
  ℕ, ◌+◌, ◌-◌, ◌^◌, Text, Bool, true, false, Option, none, some, List, [], ◌∷◌, ◌++◌, not, codes,
  min, filter, ltb,
}
use microticket.Prelude.Int.{ℤ, pos, negsuc}
use microticket.Db.{
  Invoice, Instance, Project, BillableItem, finalized, invoicing, require_instance_kind,
}
use microticket.Dynamo.{mem}
use microticket.Invoicing.{build_snapshot, validate_item_date, validate_total_within_safe_integer}
use microticket.Billing.{is_draft, Frozen}
use microticket.Billing
use microticket.Billing.Numbers.{increment_invoice_counter}
use microticket.Billing.Numbers
use microticket.Mutations.{
  Server, AuthInfo, M, pure, fail_if, or_fail, checked, call, read, Failure, api, anyhow, conflict,
  bad_input, database, missing, changed_concurrently, user_id_of, require_project_member,
  require_invoice_member, require_instance, ◌>>=◌, ◌>>◌,
}
use microticket.Mutations.Records.{get_records_consistent}
use microticket.Mutations.Checks.{
  validate_new_invoice_item_ids, validate_remove_invoice_item_ids, eligible_items, resolved_items,
  check_invoice_total_within_safe_integer, has_business_name,
}

abbrev pub itself : Failure → Failure
itself e = e

abbrev pub fetch_eligible_items : Server → Text → List Text → M (List BillableItem)
fetch_eligible_items s project_id ids = do
  fetched ← read s.handler (λ t. s.get_billable_items t ids)
  checked itself (eligible_items project_id ids fetched)

unfoldable pub create_invoice : Server → AuthInfo → Text → List Text → M Invoice
create_invoice s caller project_id item_ids = do
  project ← require_project_member s caller project_id
  user_id ← user_id_of caller
  ids ← checked itself (validate_new_invoice_item_ids item_ids [])
  items ← fetch_eligible_items s project.id ids
  inst ← require_instance s project.instance_id
  checked itself (check_invoice_total_within_safe_integer items inst.gst_registered)
  created ← call s.handler (
      Billing.create_invoice s.handler s.new_id s.written_at project.instance_id project.id ids
        user_id)
  or_fail created (
      api conflict (
        codes
          "One or more items changed (deleted or put on another invoice) — reload and try again"))

abbrev pub not_editable : Failure
not_editable = api conflict (codes "Invoice is finalized and can no longer be edited")

abbrev pub flatten {ℓ} : {A : Type ℓ} → List (Option A) → List A
flatten [] = []
flatten (none ∷ rows) = flatten rows
flatten (some a ∷ rows) = a ∷ flatten rows

abbrev pub existing_items : Server → List Text → M (List BillableItem)
existing_items s [] = pure []
existing_items s (id ∷ ids) = do
  fetched ← read s.handler (λ t. s.get_billable_items t (id ∷ ids))
  pure (flatten fetched)

unfoldable pub add_invoice_items : Server → AuthInfo → Text → List Text → M Invoice
add_invoice_items s caller invoice_id item_ids = do
  invoice ← require_invoice_member s caller invoice_id
  fail_if (not (is_draft invoice.status)) not_editable
  new_ids ← checked itself (validate_new_invoice_item_ids item_ids invoice.item_ids)
  new_items ← fetch_eligible_items s invoice.project_id new_ids
  existing ← existing_items s invoice.item_ids
  inst ← require_instance s invoice.instance_id
  checked itself
      (check_invoice_total_within_safe_integer (existing ++ new_items) inst.gst_registered)
  committed ← call s.handler (
      Billing.add_invoice_items s.handler invoice.id invoice.project_id new_ids invoice.version
        s.written_at)
  fail_if (not committed) changed_concurrently
  pure (record invoice {
    item_ids = invoice.item_ids ++ new_ids;
    version = invoice.version + 1;
    updated_at = s.answered_at;
  })

unfoldable pub remove_invoice_items : Server → AuthInfo → Text → List Text → M Invoice
remove_invoice_items s caller invoice_id item_ids = do
  invoice ← require_invoice_member s caller invoice_id
  fail_if (not (is_draft invoice.status)) not_editable
  remove_ids ← checked itself (validate_remove_invoice_item_ids item_ids invoice.item_ids)
  committed ←
      call s.handler
        (Billing.remove_invoice_items s.handler invoice.id remove_ids invoice.version s.written_at)
  fail_if (not committed) changed_concurrently
  pure (record invoice {
    item_ids = filter (λ id. not (mem id remove_ids)) invoice.item_ids;
    version = invoice.version + 1;
    updated_at = s.answered_at;
  })

unfoldable pub delete_invoice : Server → AuthInfo → Text → M Text
delete_invoice s caller invoice_id = do
  invoice ← require_invoice_member s caller invoice_id
  fail_if (not (is_draft invoice.status))
      (api conflict (codes "Only a draft invoice can be deleted"))
  committed ←
      call s.handler (Billing.delete_invoice s.handler invoice.id invoice.item_ids invoice.version)
  fail_if (not committed) changed_concurrently
  pure invoice.id

-- `u32::try_from(n).unwrap_or(u32::MAX)`.
abbrev pub as_u32 : ℕ → ℕ
as_u32 n = min n (2 ^ 32 - 1)

abbrev pub no_ids_left : List Text → Bool
no_ids_left [] = true
no_ids_left (id ∷ ids) = false

abbrev pub not_serialized : Text → Failure
not_serialized e = anyhow (codes "Failed to serialize invoice snapshot: " ++ e)

-- Step 2: the items, read consistently, each of which must point back at the invoice.
abbrev pub items_on : Server → Invoice → M (List BillableItem)
items_on s invoice = do
  fetched ← get_records_consistent s invoice.item_ids
  checked itself (resolved_items invoice.id invoice.item_ids fetched)

-- Step 3: the project and the instance with its business name.
abbrev pub require_project : Server → Text → M Project
require_project s id = do
  found ← checked database (s.get_projects id)
  or_fail found (missing (codes "Project") id)

-- Steps 4 and 5: a number, and what is frozen under it.
abbrev pub number_and_freeze :
    Server → Invoice → Instance → Project → List BillableItem → Text → Text → M Frozen
number_and_freeze s invoice inst project items issue_date user_id = do
  counted ← call s.handler (increment_invoice_counter s.handler invoice.instance_id)
  let number = as_u32 counted
  let snapshot = build_snapshot inst project items (some number) (some issue_date)
  checked bad_input (validate_total_within_safe_integer snapshot.total_cents)
  snapshot_json ← checked not_serialized (s.to_json snapshot)
  pure (record {
    number = number;
    issue_date = issue_date;
    snapshot = snapshot_json;
    total_cents = snapshot.total_cents;
    finalized_by_user_id = user_id;
  })

abbrev pub finalized_answer : Server → Invoice → Frozen → Invoice
finalized_answer s invoice f = record invoice {
  status = finalized;
  version = invoice.version + 1;
  number = some f.number;
  issue_date = some f.issue_date;
  snapshot = some f.snapshot;
  total_cents = some f.total_cents;
  finalized_at = some s.answered_at;
  finalized_by_user_id = some f.finalized_by_user_id;
  updated_at = s.answered_at;
}

-- Step 6: the conditional write.
abbrev pub write_final : Server → Invoice → Frozen → M Invoice
write_final s invoice f = do
  committed ←
      call s.handler (Billing.finalize_invoice s.handler invoice.id invoice.version f s.written_at)
  fail_if (not committed) changed_concurrently
  pure (finalized_answer s invoice f)

-- Steps 3 to 6.
abbrev pub finalize_resolved : Server → Invoice → List BillableItem → Text → Text → M Invoice
finalize_resolved s invoice items issue_date user_id = do
  project ← require_project s invoice.project_id
  inst ← require_instance s invoice.instance_id
  fail_if (not (has_business_name inst)) (anyhow (codes "Complete the invoicing settings first"))
  f ← number_and_freeze s invoice inst project items issue_date user_id
  write_final s invoice f

unfoldable pub finalize_invoice : Server → AuthInfo → Text → Text → M Invoice
finalize_invoice s caller invoice_id issue_date = do
  invoice ← require_invoice_member s caller invoice_id
  user_id ← user_id_of caller
  fail_if (not (is_draft invoice.status)) (api conflict (codes "Invoice is already finalized"))
  fail_if (no_ids_left invoice.item_ids) (anyhow (codes "Add at least one item before finalizing"))
  issue_date ← checked bad_input (validate_item_date s.parse_date issue_date)
  items ← items_on s invoice
  finalize_resolved s invoice items issue_date user_id

-- A date that is given is checked.
abbrev pub validated_date : Server → Option Text → M (Option Text)
validated_date s none = pure none
validated_date s (some d) = do
  date ← checked bad_input (validate_item_date s.parse_date d)
  pure (some date)

unfoldable pub set_invoice_paid : Server → AuthInfo → Text → Option Text → M Invoice
set_invoice_paid s caller invoice_id paid_date = do
  invoice ← require_invoice_member s caller invoice_id
  fail_if (is_draft invoice.status)
      (api conflict (codes "Only a finalized invoice can be marked paid"))
  validated ← validated_date s paid_date
  committed ← call s.handler (Billing.set_invoice_paid s.handler invoice.id validated s.written_at)
  fail_if (not committed) changed_concurrently
  pure (record invoice { paid_date = validated; updated_at = s.answered_at })

abbrev pub less_one : ℤ → ℕ
less_one (pos n) = n - 1
less_one (negsuc n) = 0

abbrev pub below_one : ℤ → Bool
below_one (pos n) = ltb n 1
below_one (negsuc n) = true

-- Behind the guard that the caller owns the instance or is a superuser.
unfoldable pub set_next_invoice_number : Server → Text → ℤ → M Instance
set_next_invoice_number s instance_id next = do
  inst ← require_instance s instance_id
  checked anyhow (require_instance_kind inst invoicing)
  fail_if (below_one next) (anyhow (codes "next must be at least 1"))
  committed ← call s.handler (Numbers.set_next_invoice_number s.handler inst.id (less_one next))
  fail_if (not committed) (api conflict (codes "The next invoice number can only move forward"))
  pure inst
