-- ===== src/Examples/Invoices.antt =====
-- The theorems on invoices (api/src/dynamodb.rs), applied.
use microticket.Prelude.{
  Text, true, sym, subst, Bool-cases, inl, inr, text_eq_iff, ◌<◌, none, some, List, [], ◌∷◌, ◌≡◌,
  refl, arith, All, codes, text_eq, if◌then◌else◌,
}
use microticket.Db.{Invoice, BillableItem}
use microticket.Dynamo.{Tables, mem, transact_write}
use microticket.Dynamo.Effects.{Effect}
use microticket.Billing.{
  finalize_invoice, delete_invoice, add_invoice_items, update_billable_item, freeze, set_invoice_id,
}
use microticket.Billing.Commands.{Command, run, run_all, writes_of, run-Effect}
use microticket.Billing.Version.{SameContent}
use microticket.Billing.Interleaving.{version_guards_content}
use microticket.Billing.Linked.{Linked, PassesAll, run-Linked, delete_read-Linked}
use microticket.Billing.Freeze.{IsFrozen, finalize_freezes_read}
use microticket.Billing.Final.{finalized_forever}
use microticket.Billing.Numbers.{increment_invoice_counter}
use microticket.Billing.Numbering.{increment_invoice_counter_fresh}
use microticket.Examples.{handler, inv, plumbing, tiling, free_item, row, start, frozen}

-- Another client edits an item of no invoice, and tries to add it to the invoice with an old version.
abbrev others : List Command
others =
    Command.update_item (codes "c") none tiling 30
    ∷ Command.add inv (codes "p") (codes "c" ∷ []) 9 31
    ∷ []

abbrev at_commit : Tables
at_commit = run_all handler others (run_all handler others start)

finalize_freezes_read_example :
    (w' : Invoice) × ((finalize_invoice handler inv 1 frozen 40 at_commit).1.invoice inv ≡ some w')
    × IsFrozen row frozen w'
    × All
        (λ i.
          (finalize_invoice handler inv 1 frozen 40 at_commit).1.billable_item i
          ≡ (run_all handler others start).billable_item i)
        row.item_ids
unfolding run_all run finalize_invoice add_invoice_items update_billable_item transact_write
finalize_freezes_read_example =
    finalize_freezes_read handler inv others others start row frozen 40 refl (refl, (refl, tt))
      (refl, (refl, tt)) ((_, refl, refl), ((_, refl, refl), tt)) refl

-- The row of an invoice that was finalized before.
abbrev final_row : Invoice
final_row = freeze frozen 40 row

abbrev after : Tables
after = record start { invoice = λ k. if text_eq k inv then some final_row else none }

abbrev on_it : BillableItem
on_it = set_invoice_id (some inv) (free_item (codes "a") plumbing)

-- A payment goes through; an edit of an item and a late removal do not.
abbrev late : List Command
late =
    Command.pay inv (some (codes "2026-09-01")) 50
    ∷ Command.update_item (codes "a") (some inv) tiling 51
    ∷ Command.remove inv (codes "a" ∷ []) 2 52
    ∷ []

finalized_forever_example :
    (w' : Invoice) × ((run_all handler late after).invoice inv ≡ some w')
    × (w' ≡ record final_row {
      updated_at = w'.updated_at;
      paid_date = w'.paid_date;
      pdf_s3_key = w'.pdf_s3_key;
    })
    × ((run_all handler late after).billable_item (codes "a") ≡ some on_it)
finalized_forever_example =
    finalized_forever handler inv late after final_row (codes "a") on_it (refl, (refl, (refl, tt)))
      refl refl refl refl

version_guards_content_example :
    (row.version ≡ row.version)
    × SameContent row row
    × ((run_all handler others start).billable_item (codes "a") ≡ some on_it)
unfolding run_all run add_invoice_items update_billable_item transact_write
version_guards_content_example =
    version_guards_content handler inv others start row row (codes "a") on_it (refl, (refl, tt))
      refl refl (omega arith) refl refl

run-Effect_example :
    Effect start
      (writes_of (Command.add inv (codes "p") (codes "c" ∷ []) 1 30))
      (run handler (Command.add inv (codes "p") (codes "c" ∷ []) 1 30) start)
run-Effect_example = run-Effect handler (Command.add inv (codes "p") (codes "c" ∷ []) 1 30) start

increment_invoice_counter_fresh_example : 8 < 9
unfolding increment_invoice_counter run_all run add_invoice_items update_billable_item
    transact_write
increment_invoice_counter_fresh_example =
    increment_invoice_counter_fresh handler handler (codes "i") others start 8 9 refl refl

listed : (i k : Text) → i ≡ k → mem k row.item_ids ≡ true → mem i row.item_ids ≡ true
listed i k e m = rw e m

start-Linked : Linked start
start-Linked i = elim (Bool-cases (text_eq i (codes "a"))) [
  | inl a ↦ rw a (listed i (codes "a") ((text_eq_iff i (codes "a")).0 a) refl)
  | inr a ↦ elim (Bool-cases (text_eq i (codes "b"))) [
    | inl b ↦ rw (a, b) (listed i (codes "b") ((text_eq_iff i (codes "b")).0 b) refl)
    | inr b ↦ elim (Bool-cases (text_eq i (codes "c"))) [
      | inl c ↦ rw (a, b, c) tt
      | inr c ↦ rw (a, b, c) tt
    ]
  ]
]

run-Linked_example : Linked (run handler (Command.delete inv (codes "a" ∷ codes "b" ∷ []) 1) start)
run-Linked_example =
    run-Linked handler (Command.delete inv (codes "a" ∷ codes "b" ∷ []) 1) start passes_all
      start-Linked
  where
    same_row : {w : Invoice} → some row ≡ some w → row ≡ w
    same_row e = cc

    passes_all : PassesAll start (Command.delete inv (codes "a" ∷ codes "b" ∷ []) 1)
    passes_all w e version i m =
        subst (λ (x : Invoice). mem i x.item_ids ≡ true) (sym (same_row e)) m

others-Linked : Linked (run_all handler others start)
unfolding run_all
others-Linked =
    run-Linked handler (Command.add inv (codes "p") (codes "c" ∷ []) 9 31) _ tt
      (run-Linked handler (Command.update_item (codes "c") none tiling 30) start tt start-Linked)

delete_read-Linked_example :
    Linked (delete_invoice handler inv row.item_ids row.version (run_all handler others start)).1
delete_read-Linked_example =
    delete_read-Linked handler inv others start row (refl, (refl, tt)) refl others-Linked
