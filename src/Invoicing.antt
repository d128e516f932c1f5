-- ===== src/Invoicing.antt =====
-- What an invoice prints (api/src/invoicing/snapshot.rs) and the checks on a billable item's input
-- (api/src/invoicing/mod.rs). chrono's parse of a date is the parameter `parse_date`, with the answer
-- printed back as `%Y-%m-%d`. Sums of `i64` wrap.
pub mod Totals
pub mod Sorting
pub mod Input
use microticket.Prelude.{
  ℕ, ◌+◌, ◌-◌, ◌%◌, ◌^◌, Text, Bool, true, false, not, Option, none, some, List, [], ◌∷◌, ltb, leb,
  ◌==◌, text_eq, is_empty, if◌then◌else◌, codes, length, trim, Result, ok, err, ◌>>◌, ensure,
}
use microticket.Prelude.Int.{ℤ, pos, negsuc, ◌+ℤ◌, i64_max}
use microticket.Db.{Instance, Project, BillableItem, currency_or_default}
use microticket.Decimal.{zero_padded}
use microticket.Money.{
  format_quantity, line_amount_cents, gst_cents, max_unit_price_cents, max_safe_total_cents,
}

pub record Seller : Type 0 where
  pub name : Option Text
  pub abn : Option Text
  pub address : Option Text
  pub phone : Option Text
  pub email : Option Text

pub record BillTo : Type 0 where
  pub name : Text
  pub abn : Option Text
  pub address : Option Text

pub record Line : Type 0 where
  pub date : Text
  pub description : Text
  pub quantity : Text
  pub quantity_hundredths : ℤ
  pub unit_price_cents : ℤ
  pub amount_cents : ℤ

pub record Snapshot : Type 0 where
  pub schema_version : ℕ
  pub title : Text
  pub display_number : Option Text
  pub issue_date : Option Text
  pub seller : Seller
  pub bill_to : BillTo
  pub reference : Option Text
  pub currency : Text
  pub gst_registered : Bool
  pub lines : List Line
  pub subtotal_cents : ℤ
  pub gst_cents : ℤ
  pub total_cents : ℤ
  pub payment_details : Option Text
  pub no_gst_note : Bool

-- Two's complement of 64 bits.
abbrev pub wrap_i64 : ℤ → ℤ
wrap_i64 (pos n) = let m = n % 2 ^ 64 in if leb m i64_max then pos m else negsuc (2 ^ 64 - 1 - m)
wrap_i64 (negsuc n) = let m = n % 2 ^ 64 in if leb m i64_max then negsuc m else pos (2 ^ 64 - 1 - m)

unfoldable pub add_i64 : ℤ → ℤ → ℤ
unfolding ◌+ℤ◌
add_i64 a b = wrap_i64 (a +ℤ b)

-- `str::cmp`, as the test `a <= b`, with `ties` for equal texts.
abbrev pub text_leb : Text → Text → Bool → Bool
text_leb [] [] ties = ties
text_leb [] (y ∷ t) ties = true
text_leb (x ∷ s) [] ties = false
text_leb (x ∷ s) (y ∷ t) ties =
    let rest = text_leb s t ties in if ltb x y then true else if x == y then rest else false

-- By `date`, then by `created_at`: not greater.
abbrev pub in_order : BillableItem → BillableItem → Bool
in_order a b = text_leb a.date b.date (leb a.created_at b.created_at)

abbrev pub insert : BillableItem → List BillableItem → List BillableItem
insert x [] = x ∷ []
insert x (y ∷ ys) = let rest = insert x ys in if in_order x y then x ∷ y ∷ ys else y ∷ rest

-- `sort_by`, which is stable.
abbrev pub sorted_items : List BillableItem → List BillableItem
sorted_items [] = []
sorted_items (x ∷ xs) = insert x (sorted_items xs)

unfoldable pub line_of : BillableItem → Line
unfolding format_quantity line_amount_cents
line_of item = record {
  date = item.date;
  description = item.description;
  quantity = format_quantity item.quantity_hundredths;
  quantity_hundredths = item.quantity_hundredths;
  unit_price_cents = item.unit_price_cents;
  amount_cents = line_amount_cents item.quantity_hundredths item.unit_price_cents;
}

abbrev pub lines_of : List BillableItem → List Line
lines_of [] = []
lines_of (i ∷ items) = line_of i ∷ lines_of items

abbrev pub sum_from : ℤ → List Line → ℤ
sum_from acc [] = acc
sum_from acc (l ∷ lines) = sum_from (add_i64 acc l.amount_cents) lines

abbrev pub subtotal : List Line → ℤ
subtotal = sum_from (pos 0)

abbrev pub gst_of : Bool → ℤ → ℤ
gst_of registered s = if registered then gst_cents s else pos 0

abbrev pub display_number : Option ℕ → Option Text
display_number none = none
display_number (some n) = some (zero_padded 3 n)

unfoldable pub build_snapshot :
    Instance → Project → List BillableItem → Option ℕ → Option Text → Snapshot
unfolding line_of gst_cents add_i64 zero_padded currency_or_default
build_snapshot inst project items number issue_date =
    let lines = lines_of (sorted_items items) in
    let s = subtotal lines in
    let g = gst_of inst.gst_registered s in
    record {
      schema_version = 1;
      title = if inst.gst_registered then codes "Tax Invoice" else codes "Invoice";
      display_number = display_number number;
      issue_date = issue_date;
      seller = record {
        name = inst.business_name;
        abn = inst.business_abn;
        address = inst.business_address;
        phone = inst.business_phone;
        email = inst.business_email;
      };
      bill_to = record {
        name = project.client_name;
        abn = project.client_abn;
        address = project.client_address;
      };
      reference = project.reference;
      currency = currency_or_default inst;
      gst_registered = inst.gst_registered;
      lines = lines;
      subtotal_cents = s;
      gst_cents = g;
      total_cents = add_i64 s g;
      payment_details = inst.payment_details;
      no_gst_note = not inst.gst_registered;
    }

pub data InputError : Type 0 where
  not_a_date : Text → InputError
  empty_description description_too_long negative_price price_too_large total_too_large : InputError

abbrev pub canonical_date : Text → Option Text → Result InputError Text
canonical_date s none = err (not_a_date s)
canonical_date s (some canonical) = if text_eq canonical s then ok canonical else err (not_a_date s)

unfoldable pub validate_item_date : (Text → Option Text) → Text → Result InputError Text
unfolding trim
validate_item_date parse_date raw = canonical_date (trim raw) (parse_date (trim raw))

unfoldable pub validate_description : Text → Result InputError Text
unfolding trim
validate_description raw = do
  ensure (not (is_empty (trim raw))) empty_description
  ensure (leb (length (trim raw)) 2000) description_too_long
  ok (trim raw)

unfoldable pub validate_unit_price_cents : ℤ → Result InputError ℤ
validate_unit_price_cents (negsuc n) = err negative_price
validate_unit_price_cents (pos n) =
    if ltb max_unit_price_cents n then err price_too_large else ok (pos n)

unfoldable pub validate_total_within_safe_integer : ℤ → Result InputError (Unit {0})
validate_total_within_safe_integer (negsuc n) = ok tt
validate_total_within_safe_integer (pos n) =
    if ltb max_safe_total_cents n then err total_too_large else ok tt
