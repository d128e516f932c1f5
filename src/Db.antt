-- ===== src/Db.antt =====
-- Rows and errors of the database layer (api/src/db.rs). Ids, names and dates are texts; `u64` and
-- `u32` are ℕ and `i64` is ℤ, with ranges where a theorem needs them.
use microticket.Prelude.{
  ℕ, Text, Bool, Option, none, some, List, [], ◌∷◌, codes, Result, ok, err, true, false,
  if◌then◌else◌, ◌++◌,
}
use microticket.Prelude.Int.{ℤ}

pub data Error : Type 0 where
  not_found hydration infrastructure integrity type_conversion : Text → Error
  mutation_disabled : Error

-- More than one match of an attribute that should be unique is an integrity error.
unfoldable pub at_most_one : {A : Type 0} → List A → Text → Result Error (Option A)
at_most_one [] describe = ok none
at_most_one (x ∷ []) describe = ok (some x)
at_most_one (x ∷ y ∷ matches) describe = err (integrity describe)

pub data InstanceKind : Type 0 where
  support invoicing : InstanceKind

pub data InvoiceStatus : Type 0 where
  draft finalized : InvoiceStatus

pub record Instance : Type 0 where
  pub id : Text
  pub name : Text
  pub slug : Text
  pub kind : InstanceKind
  pub public_submission_enabled : Bool
  pub from_name : Text
  pub signature : Text
  pub created_at : ℕ
  pub deleted : Bool
  pub business_name : Option Text
  pub business_abn : Option Text
  pub business_address : Option Text
  pub business_phone : Option Text
  pub business_email : Option Text
  pub payment_details : Option Text
  pub gst_registered : Bool
  pub currency : Option Text

abbrev pub kind_as_str : InstanceKind → Text
kind_as_str support = codes "support"
kind_as_str invoicing = codes "invoicing"

abbrev pub same_kind : InstanceKind → InstanceKind → Bool
same_kind support support = true
same_kind invoicing invoicing = true
same_kind _ _ = false

abbrev pub wrong_kind : Instance → InstanceKind → Text
wrong_kind i expected =
    codes "instance "
    ++ i.id
    ++ codes " has kind \""
    ++ kind_as_str i.kind
    ++ codes "\", expected kind \""
    ++ kind_as_str expected
    ++ codes "\""

unfoldable pub require_instance_kind : Instance → InstanceKind → Result Text (Unit {0})
require_instance_kind i expected =
    if same_kind i.kind expected then ok tt else err (wrong_kind i expected)

unfoldable pub currency_or_default : Instance → Text
currency_or_default i = elim i.currency [ some c ↦ c | none ↦ codes "AUD" ]

pub record Project : Type 0 where
  pub id : Text
  pub instance_id : Text
  pub name : Text
  pub client_name : Text
  pub client_abn : Option Text
  pub client_address : Option Text
  pub reference : Option Text
  pub archived : Bool
  pub created_at : ℕ
  pub updated_at : ℕ

pub record BillableItem : Type 0 where
  pub id : Text
  pub instance_id : Text
  pub project_id : Text
  pub date : Text
  pub description : Text
  pub quantity_hundredths : ℤ
  pub unit_price_cents : ℤ
  pub invoice_id : Option Text
  pub created_by_user_id : Text
  pub created_at : ℕ
  pub updated_at : ℕ

-- `BillableItemUpdateShape::Fields`.
pub record ItemFields : Type 0 where
  pub date : Text
  pub description : Text
  pub quantity_hundredths : ℤ
  pub unit_price_cents : ℤ

pub record Invoice : Type 0 where
  pub id : Text
  pub instance_id : Text
  pub project_id : Text
  pub status : InvoiceStatus
  pub version : ℕ
  pub item_ids : List Text
  pub created_by_user_id : Text
  pub created_at : ℕ
  pub updated_at : ℕ
  pub number : Option ℕ
  pub issue_date : Option Text
  pub snapshot : Option Text
  pub total_cents : Option ℤ
  pub finalized_at : Option ℕ
  pub finalized_by_user_id : Option Text
  pub paid_date : Option Text
  pub pdf_s3_key : Option Text
