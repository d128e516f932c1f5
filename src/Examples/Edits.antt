-- ===== src/Examples/Edits.antt =====
-- The theorems on the edits of drafts (api/src/graphql/mutations.rs), applied.
use microticket.Prelude.{
  ℕ, ◌≤◌, none, some, [], ◌∷◌, ◌++◌, ◌≡◌, ◌↔◌, ◌⊎◌, inr, refl, codes, ok, length,
}
use microticket.Db.{Invoice}
use microticket.Dynamo.{transact_write}
use microticket.Billing.{remove_invoice_items}
use microticket.Money.{gst_cents}
use microticket.Billing
use microticket.Billing.Commands.{Command, run, run_all}
use microticket.Billing.Keyed.{IsKeyed, run_all-IsKeyed}
use microticket.Mutations.{user, World, pass, conflict, internal, require_invoice_member, ◌>>=◌}
use microticket.Mutations.Checks.{
  validate_new_invoice_item_ids, validate_remove_invoice_item_ids, eligible_items,
  check_invoice_total_within_safe_integer, amounts_from,
}
use microticket.Mutations.Invoices.{add_invoice_items, delete_invoice}
use microticket.Mutations.Invoices
use microticket.Mutations.Ids.{IsNonempty, NoneOf, AllOf, validate_item_ids_iff}
use microticket.Dynamo.{AreDistinct}
use microticket.Mutations.Steady.{IsEdited}
use microticket.Mutations.Traces.{Reached}
use microticket.Mutations.Adding.{add_invoice_items_sound}
use microticket.Mutations.Removing.{IsDeleted, remove_invoice_items_sound, delete_invoice_sound}
use microticket.Mutations.Editing.{edits_fail}
use microticket.Examples.{handler, inv, plumbing, row, start}
use microticket.Examples.Requests.{office, staff, start-IsKeyed}

run_all-IsKeyed_example : IsKeyed (run_all handler (Command.delete_item (codes "c") ∷ []) start)
run_all-IsKeyed_example =
    run_all-IsKeyed handler (Command.delete_item (codes "c") ∷ []) start start-IsKeyed

validate_item_ids_iff_example :
    ((validate_new_invoice_item_ids (codes "c" ∷ []) row.item_ids ≡ ok (codes "c" ∷ [])) ↔ (
      (codes "c" ∷ [] ≡ codes "c" ∷ [])
      × IsNonempty (codes "c" ∷ [])
      × (3 ≤ 50)
      × AreDistinct (codes "c" ∷ [])
      × NoneOf row.item_ids (codes "c" ∷ [])))
    × ((validate_remove_invoice_item_ids (codes "c" ∷ []) row.item_ids ≡ ok (codes "c" ∷ [])) ↔ (
        (codes "c" ∷ [] ≡ codes "c" ∷ [])
        × IsNonempty (codes "c" ∷ [])
        × AreDistinct (codes "c" ∷ [])
        × AllOf row.item_ids (codes "c" ∷ [])))
validate_item_ids_iff_example = validate_item_ids_iff (codes "c" ∷ []) row.item_ids (codes "c" ∷ [])

-- Another client records an item while the caller works.
abbrev busy : World
busy = record {
  tables = start;
  later =
      []
      ∷ (Command.create_item (codes "d") 30 (codes "i") (codes "p") plumbing (codes "u") ∷ [])
      ∷ [];
}

abbrev with_c : Invoice
with_c = record row { item_ids = row.item_ids ++ codes "c" ∷ []; version = 2; updated_at = 61 }

add_invoice_items_sound_example :
    IsEdited
      (user (codes "u") staff)
      inv
      (some inv)
      (codes "c" ∷ [])
      with_c
      (add_invoice_items office (user (codes "u") staff) inv (codes "c" ∷ []) busy).1
    × AreDistinct (codes "c" ∷ [])
    × (length with_c.item_ids ≤ 50)
unfolding add_invoice_items require_invoice_member ◌>>=◌ run_all run Billing.create_billable_item
    Billing.add_invoice_items transact_write validate_new_invoice_item_ids eligible_items
    check_invoice_total_within_safe_integer amounts_from gst_cents
add_invoice_items_sound_example =
    add_invoice_items_sound office (user (codes "u") staff) inv (codes "c" ∷ []) busy with_c _
      start-IsKeyed (tt, ((refl, tt), tt)) refl

abbrev without_a : Invoice
without_a = record row { item_ids = codes "b" ∷ []; version = 2; updated_at = 61 }

remove_invoice_items_sound_example :
    IsEdited
      (user (codes "u") staff)
      inv
      none
      (codes "a" ∷ [])
      without_a
      (Invoices.remove_invoice_items office (user (codes "u") staff) inv (codes "a" ∷ []) busy).1
unfolding Invoices.remove_invoice_items require_invoice_member ◌>>=◌ run_all run
    Billing.create_billable_item remove_invoice_items transact_write
    validate_remove_invoice_item_ids
remove_invoice_items_sound_example =
    remove_invoice_items_sound office (user (codes "u") staff) inv (codes "a" ∷ []) busy without_a _
      start-IsKeyed (tt, ((refl, tt), tt)) refl

delete_invoice_sound_example :
    IsDeleted
      (user (codes "u") staff)
      inv
      (pass handler busy).tables
      inv
      (delete_invoice office (user (codes "u") staff) inv busy).1
unfolding delete_invoice require_invoice_member ◌>>=◌ run_all run Billing.create_billable_item
    Billing.delete_invoice transact_write
delete_invoice_sound_example =
    delete_invoice_sound office (user (codes "u") staff) inv busy inv _ start-IsKeyed
      (tt, ((refl, tt), tt)) refl

-- Another client takes the item off before the deletion.
abbrev raced : World
raced = record { tables = start; later = [] ∷ (Command.remove inv (codes "b" ∷ []) 1 31 ∷ []) ∷ [] }

edits_fail_example :
    (conflict ≡ internal)
    ⊎ ((j : ℕ) × (j ≤ 0)
        × Reached handler raced j (delete_invoice office (user (codes "u") staff) inv raced).1)
unfolding delete_invoice require_invoice_member ◌>>=◌ run_all run remove_invoice_items
    Billing.delete_invoice transact_write
edits_fail_example =
    edits_fail office (user (codes "u") staff) inv [] raced _ _ start-IsKeyed (tt, ((refl, tt), tt))
      (inr (inr refl))
