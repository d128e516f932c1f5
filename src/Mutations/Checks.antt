-- ===== src/Mutations/Checks.antt =====
-- The checks of the billing mutations on what the caller sends and on the rows read
-- (api/src/graphql/mutations.rs).
use microticket.Prelude.{
  ℕ, ◌+◌, Text, Bool, false, not, Option, none, some, List, [], ◌∷◌, ◌++◌, codes, length, ltb,
  text_eq, trim, is_empty, is_some, Result, ok, err, if◌then◌else◌, ◌>>=◌,
}
use microticket.Prelude.Int.{ℤ, pos, negsuc, ◌+ℤ◌, i64_max}
use microticket.Db.{BillableItem, ItemFields, Instance}
use microticket.Dynamo.{mem}
use microticket.Billing.{is_on}
use microticket.Money.{QuantityError, parse_quantity, line_amount_cents}
use microticket.Invoicing.{
  InputError, add_i64, gst_of, validate_item_date, validate_description, validate_unit_price_cents,
  validate_total_within_safe_integer,
}
use microticket.Mutations.{
  Failure, api, anyhow, bad_input, bad_quantity, conflict, missing, changed_concurrently,
}

abbrev pub max_invoice_items : ℕ
max_invoice_items = 50

abbrev pub no_ids : Failure
no_ids = anyhow (codes "At least one item id is required")

abbrev pub too_many_items : Failure
too_many_items = anyhow (codes "An invoice can have at most 50 items")

abbrev pub duplicated : Text → Failure
duplicated s = anyhow (codes "Item " ++ s ++ codes " is duplicated")

abbrev pub not_on_invoice : Text → Failure
not_on_invoice s = anyhow (codes "Item " ++ s ++ codes " is not on this invoice")

abbrev pub cons_ok : Text → Result Failure (List Text) → Result Failure (List Text)
cons_ok s (ok out) = ok (s ∷ out)
cons_ok s (err e) = err e

-- The loop over the ids, with those `seen` so far.
abbrev pub unseen : List Text → List Text → Result Failure (List Text)
unseen seen [] = ok []
unseen seen (s ∷ ids) =
    let rest = unseen (s ∷ seen) ids in if mem s seen then err (duplicated s) else cons_ok s rest

unfoldable pub validate_new_invoice_item_ids : List Text → List Text → Result Failure (List Text)
validate_new_invoice_item_ids [] existing = err no_ids
validate_new_invoice_item_ids (s ∷ ids) existing =
    if ltb max_invoice_items (length existing + length (s ∷ ids))
    then err too_many_items
    else unseen existing (s ∷ ids)

abbrev pub unseen_of : List Text → List Text → List Text → Result Failure (List Text)
unseen_of current seen [] = ok []
unseen_of current seen (s ∷ ids) =
    let rest = unseen_of current (s ∷ seen) ids in
    if mem s seen
    then err (duplicated s)
    else if mem s current
    then cons_ok s rest
    else err (not_on_invoice s)

unfoldable pub validate_remove_invoice_item_ids : List Text → List Text → Result Failure (List Text)
validate_remove_invoice_item_ids [] current = err no_ids
validate_remove_invoice_item_ids (s ∷ ids) current = unseen_of current [] (s ∷ ids)

abbrev pub cons_item :
    BillableItem → Result Failure (List BillableItem) → Result Failure (List BillableItem)
cons_item item (ok items) = ok (item ∷ items)
cons_item item (err e) = err e

abbrev pub other_project : Text → Failure
other_project id =
    api conflict
      (codes "Billable item " ++ id ++ codes " does not belong to this invoice's project")

abbrev pub already_on_invoice : Text → Failure
already_on_invoice id =
    api conflict (codes "Billable item " ++ id ++ codes " is already on an invoice")

-- The loop of `fetch_eligible_items` over the ids with the rows read for them.
unfoldable pub eligible_items :
    Text → List Text → List (Option BillableItem) → Result Failure (List BillableItem)
eligible_items project_id [] rows = ok []
eligible_items project_id (id ∷ ids) [] = ok []
eligible_items project_id (id ∷ ids) (none ∷ rows) = err (missing (codes "BillableItem") id)
eligible_items project_id (id ∷ ids) (some item ∷ rows) =
    let rest = eligible_items project_id ids rows in
    if not (text_eq item.project_id project_id)
    then err (other_project id)
    else if is_some item.invoice_id
    then err (already_on_invoice id)
    else cons_item item rest

abbrev pub item_missing : Text → Failure
item_missing id =
    api conflict (codes "Billable item " ++ id ++ codes " is missing — reload and try again")

-- The loop of `finalize_invoice` over the invoice's item ids with the rows read for them.
unfoldable pub resolved_items :
    Text → List Text → List (Option BillableItem) → Result Failure (List BillableItem)
resolved_items v [] rows = ok []
resolved_items v (id ∷ ids) [] = ok []
resolved_items v (id ∷ ids) (none ∷ rows) = err (item_missing id)
resolved_items v (id ∷ ids) (some item ∷ rows) =
    let rest = resolved_items v ids rows in
    if is_on v item.invoice_id then cons_item item rest else err changed_concurrently

unfoldable pub amounts_from : ℤ → List BillableItem → ℤ
unfolding line_amount_cents add_i64
amounts_from acc [] = acc
amounts_from acc (i ∷ items) =
    amounts_from (add_i64 acc (line_amount_cents i.quantity_hundredths i.unit_price_cents)) items

abbrev pub clamp_from : ℤ → ℤ
clamp_from (pos n) = if ltb i64_max n then pos i64_max else pos n
clamp_from (negsuc n) = if ltb i64_max n then negsuc i64_max else negsuc n

-- `i64::saturating_add`.
unfoldable pub saturating_add : ℤ → ℤ → ℤ
unfolding ◌+ℤ◌
saturating_add a b = clamp_from (a +ℤ b)

abbrev pub as_input : {A : Type 0} → Result InputError A → Result Failure A
as_input (ok a) = ok a
as_input (err e) = err (bad_input e)

unfoldable pub check_invoice_total_within_safe_integer :
    List BillableItem → Bool → Result Failure (Unit {0})
unfolding saturating_add validate_total_within_safe_integer amounts_from
check_invoice_total_within_safe_integer items gst_registered =
    let subtotal = amounts_from (pos 0) items in
    as_input (
      validate_total_within_safe_integer (saturating_add subtotal (gst_of gst_registered subtotal)))

pub record BillableItemInput : Type 0 where
  pub date : Text
  pub description : Text
  pub quantity : Text
  pub unit_price_cents : ℤ

abbrev pub as_quantity : {A : Type 0} → Result QuantityError A → Result Failure A
as_quantity (ok a) = ok a
as_quantity (err e) = err (bad_quantity e)

-- `ValidBillableItem` is `ItemFields`.
unfoldable pub validate_billable_item_input :
    (Text → Option Text) → BillableItemInput → Result Failure ItemFields
unfolding validate_item_date validate_description validate_unit_price_cents parse_quantity
validate_billable_item_input parse_date input = do
  date ← as_input (validate_item_date parse_date input.date)
  description ← as_input (validate_description input.description)
  quantity ← as_quantity (parse_quantity input.quantity)
  price ← as_input (validate_unit_price_cents input.unit_price_cents)
  ok (record {
    date = date;
    description = description;
    quantity_hundredths = quantity;
    unit_price_cents = price;
  })

-- The business name of the invoicing settings, trimmed, is there.
unfoldable pub has_business_name : Instance → Bool
unfolding trim
has_business_name i = elim i.business_name [ some name ↦ not (is_empty (trim name)) | none ↦ false ]
