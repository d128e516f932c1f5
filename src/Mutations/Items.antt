-- ===== src/Mutations/Items.antt =====
-- The mutations of billable items (api/src/graphql/mutations.rs).
use microticket.Prelude.{Text, Option, none, some, not, codes, is_some}
use microticket.Db.{BillableItem, Invoice}
use microticket.Billing.{is_draft}
use microticket.Billing
use microticket.Mutations.{
  Server, AuthInfo, M, pure, fail_if, or_fail, checked, call, read, api, anyhow, conflict,
  user_id_of, require_project_member, require_billable_item_member, get_invoice_consistent, ◌>>=◌,
  ◌>>◌,
}
use microticket.Mutations.Checks.{BillableItemInput, validate_billable_item_input}

abbrev pub same : {A : Type 0} → A → A
same a = a

unfoldable pub create_billable_item : Server → AuthInfo → Text → BillableItemInput → M BillableItem
unfolding validate_billable_item_input
create_billable_item s caller project_id input = do
  project ← require_project_member s caller project_id
  user_id ← user_id_of caller
  fail_if project.archived
      (anyhow (codes "Project is archived — un-archive it to add billable items"))
  fields ← checked same (validate_billable_item_input s.parse_date input)
  call s.handler (
      Billing.create_billable_item s.handler s.new_id s.written_at project.instance_id project.id
        fields user_id)

-- The item's invoice, which must be a draft that is there.
abbrev pub draft_of : Server → Option Text → M (Option Invoice)
draft_of s none = pure none
draft_of s (some invoice_id) = do
  found ← read s.handler (get_invoice_consistent s invoice_id)
  invoice ←
      or_fail found
        (api conflict (codes "Billable item's invoice is missing — reload and try again"))
  fail_if (not (is_draft invoice.status))
      (api conflict (codes "Billable item is on a finalized invoice and can no longer be edited"))
  pure (some invoice)

unfoldable pub update_billable_item : Server → AuthInfo → Text → BillableItemInput → M BillableItem
unfolding validate_billable_item_input
update_billable_item s caller id input = do
  item ← require_billable_item_member s caller id
  invoice ← draft_of s item.invoice_id
  fields ← checked same (validate_billable_item_input s.parse_date input)
  written ←
      call s.handler
        (Billing.update_billable_item s.handler item.id item.invoice_id fields s.written_at)
  fail_if (not written)
      (api conflict (codes "Billable item changed concurrently — reload and try again"))
  pure (record item {
    date = fields.date;
    description = fields.description;
    quantity_hundredths = fields.quantity_hundredths;
    unit_price_cents = fields.unit_price_cents;
    updated_at = s.answered_at;
  })

unfoldable pub delete_billable_item : Server → AuthInfo → Text → M Text
delete_billable_item s caller id = do
  item ← require_billable_item_member s caller id
  fail_if (is_some item.invoice_id) (api conflict (codes "Billable item is already on an invoice"))
  written ← call s.handler (Billing.delete_billable_item s.handler item.id)
  fail_if (not written) (
      api conflict
        (codes "Billable item changed (deleted or put on an invoice) — reload and try again"))
  pure item.id
