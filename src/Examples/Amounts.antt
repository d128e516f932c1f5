-- ===== src/Examples/Amounts.antt =====
-- The theorems on amounts and on what an invoice prints (api/src/invoicing), applied.
use microticket.Prelude.{
  filter, is_empty, length, ℕ, ◌+◌, ◌*◌, ◌≤◌, ◌<◌, Text, true, false, none, some, List, [], ◌∷◌,
  ◌++◌, ◌≡◌, ◌↔◌, refl, arith, codes, ok, trim,
}
use mathlib.Core.List.{Perm}
use microticket.Prelude.Int.{pos, negsuc, abs}
use microticket.Db.{Instance, Project, BillableItem, InstanceKind}
use microticket.Decimal.RoundTrip.{IsDigit}
use microticket.Money.{
  parse_quantity, format_quantity, line_amount_cents, gst_cents, format_cents,
  max_quantity_hundredths, max_unit_price_cents,
}
use microticket.Money.Quantity.{Spells, parse_quantity_iff}
use microticket.Money.RoundTrip.{parse_quantity-format_quantity}
use microticket.Money.Rounding.{signed_like, IsRounded, line_amount_cents_rounds, gst_cents_rounds}
use microticket.Money.Cents.{minus, Grouped, digits_value, format_cents_shape}
use microticket.Invoicing.{
  validate_item_date, validate_description, validate_unit_price_cents, build_snapshot,
}
use microticket.Invoicing.Input.{validate_input_iff}
use microticket.Invoicing.Totals.{total_amount, IsTax, build_snapshot-totals}
use microticket.Invoicing.Sorting.{InOrder, is_of, AreLines, build_snapshot-lines}
use microticket.Examples.{plumbing, tiling, free_item}

parse_quantity_iff_example : (parse_quantity (codes " 1.5 ") ≡ ok (pos 150)) ↔ (
    (n : ℕ) × (pos 150 ≡ pos n)
    × Spells (trim (codes " 1.5 ")) n
    × (0 < n)
    × (n ≤ max_quantity_hundredths))
parse_quantity_iff_example = parse_quantity_iff (codes " 1.5 ") (pos 150)

parse_quantity-format_quantity_example : parse_quantity (format_quantity (pos 150)) ≡ ok (pos 150)
parse_quantity-format_quantity_example =
    parse_quantity-format_quantity 150 (omega arith) (omega arith)

line_amount_cents_rounds_example :
    (a : ℕ) × (line_amount_cents (pos 150) (pos 9_999) ≡ pos a)
    × IsRounded (150 * 9_999) 100 a
    × (a ≤ 1_000_000_000_000_000)
line_amount_cents_rounds_example = line_amount_cents_rounds 150 9_999 (omega arith) (omega arith)

gst_cents_rounds_example :
    (a : ℕ) × IsRounded (abs (negsuc 4)) 10 a × (gst_cents (negsuc 4) ≡ signed_like (negsuc 4) a)
gst_cents_rounds_example = gst_cents_rounds (negsuc 4) (omega arith)

format_cents_shape_example :
    (g : Text) × (a b : ℕ) × (format_cents (negsuc 123_456_789)
      ≡ minus (negsuc 123_456_789) ++ g ++ b'.' ∷ a ∷ b ∷ [])
    × Grouped g
    × IsDigit a
    × IsDigit b
    × (digits_value (format_cents (negsuc 123_456_789)) ≡ abs (negsuc 123_456_789))
format_cents_shape_example = format_cents_shape (negsuc 123_456_789)

abbrev pub trades : Instance
trades = record {
  id = codes "i";
  name = codes "Trades";
  slug = codes "trades";
  kind = InstanceKind.invoicing;
  public_submission_enabled = false;
  from_name = [];
  signature = [];
  created_at = 0;
  deleted = false;
  business_name = some (codes "Trades");
  business_abn = none;
  business_address = none;
  business_phone = none;
  business_email = none;
  payment_details = none;
  gst_registered = true;
  currency = none;
}

abbrev pub house : Project
house = record {
  id = codes "p";
  instance_id = codes "i";
  name = codes "House";
  client_name = codes "Client";
  client_abn = none;
  client_address = none;
  reference = none;
  archived = false;
  created_at = 0;
  updated_at = 0;
}

abbrev items : List BillableItem
items = free_item (codes "a") plumbing ∷ free_item (codes "b") tiling ∷ []

build_snapshot-totals_example :
    (g : ℕ) × ((build_snapshot trades house items (some 8) none).subtotal_cents
      ≡ pos (total_amount items))
    × ((build_snapshot trades house items (some 8) none).gst_cents ≡ pos g)
    × ((build_snapshot trades house items (some 8) none).total_cents ≡ pos (total_amount items + g))
    × IsTax true (total_amount items) g
build_snapshot-totals_example =
    build_snapshot-totals trades house items (some 8) none
      (
        (150, 9_999, refl, refl, omega arith, omega arith),
        ((800, 12_000, refl, refl, omega arith, omega arith), tt),
      )
      (omega arith)

build_snapshot-lines_example :
    (order : List BillableItem) × Perm order items
    × InOrder order
    × ((date : Text) (c : ℕ) → filter (is_of date c) order ≡ filter (is_of date c) items)
    × AreLines order (build_snapshot trades house items (some 8) none).lines
build_snapshot-lines_example = build_snapshot-lines trades house items (some 8) none

validate_input_iff_example :
    ((validate_item_date some (codes " 2026-08-01 ") ≡ ok (codes "2026-08-01")) ↔ (
      (codes "2026-08-01" ≡ trim (codes " 2026-08-01 "))
      × (some (trim (codes " 2026-08-01 ")) ≡ some (trim (codes " 2026-08-01 ")))))
    × ((validate_description (codes " 2026-08-01 ") ≡ ok (codes "2026-08-01")) ↔ (
        (codes "2026-08-01" ≡ trim (codes " 2026-08-01 "))
        × (is_empty (trim (codes " 2026-08-01 ")) ≡ false)
        × (length (trim (codes " 2026-08-01 ")) ≤ 2000)))
    × ((validate_unit_price_cents (pos 5) ≡ ok (pos 5))
        ↔ ((pos 5 ≡ pos 5) × ((n : ℕ) × (pos 5 ≡ pos n) × (n ≤ max_unit_price_cents))))
validate_input_iff_example =
    validate_input_iff some (codes " 2026-08-01 ") (codes "2026-08-01") (pos 5) (pos 5)
