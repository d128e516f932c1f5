-- ===== src/Examples/Requests.antt =====
-- The theorems on mutations (api/src/graphql/mutations.rs), applied.
use microticket.Prelude.{
  ℕ, ◌≤◌, false, none, some, List, [], ◌∷◌, ◌≡◌, refl, ◌⊎◌, arith, map, codes, ok, sym, text_eq,
  text_eq_iff, Bool-cases, inl, inr,
}
use microticket.Db.{BillableItem, Invoice, finalized}
use microticket.Billing.{set_invoice_id}
use microticket.Billing.Keyed.{IsKeyed}
use microticket.Invoicing.{build_snapshot, validate_total_within_safe_integer, validate_item_date}
use microticket.Billing.Commands.{Command, run, run_all}
use microticket.Billing.{remove_invoice_items}
use microticket.Dynamo.{transact_write}
use microticket.Mutations.{
  conflict, Server, user, Membership, World, internal, require_invoice_member, ◌>>=◌,
}
use microticket.Mutations.Checks.{resolved_items, has_business_name}
use microticket.Mutations.Invoices.{finalize_invoice}
use microticket.Mutations.Records.{get_records_consistent}
use microticket.Mutations.Traces.{Reached}
use microticket.Mutations.Finalizing.{finalize_invoice_fails}
use microticket.Mutations.Batch.{get_records_consistent_alone}
use microticket.Mutations.Progress.{IsReady, IsWorking, finalize_invoice_succeeds}
use microticket.Examples.{handler, service, inv, plumbing, tiling, free_item, row, start}
use microticket.Examples.Amounts.{trades, house}

-- A server on one instance and one project, whose reads do not fail.
abbrev pub office : Server
office = record {
  handler = handler;
  get_billable_items = λ t ids. ok (map t.billable_item ids);
  batch_fault = λ attempt keys. none;
  defers = λ attempt key. false;
  get_projects = λ id. ok (some house);
  get_instances = λ id. ok (some trades);
  parse_date = λ s. some s;
  to_json = λ s. ok (codes "{}");
  new_id = codes "inv2";
  written_at = 60;
  answered_at = 61;
}

abbrev pub staff : List Membership
staff = record { instance_id = codes "i"; is_owner = false } ∷ []

abbrev pub billed : List BillableItem
billed =
    set_invoice_id (some inv) (free_item (codes "a") plumbing)
    ∷ set_invoice_id (some inv) (free_item (codes "b") tiling)
    ∷ []

working : IsWorking service
working = record { commits = λ t ws h. rw h refl; reads = λ t k. refl }

abbrev alone : World
alone = record { tables = start; later = [] }

pub start-IsKeyed : IsKeyed start
start-IsKeyed = record {
  invoices = λ k. elim (Bool-cases (text_eq k inv)) [
    | inl e ↦ rw e (sym ((text_eq_iff k inv).0 e))
    | inr e ↦ rw e tt
  ];
  items = λ k. elim (Bool-cases (text_eq k (codes "a"))) [
    | inl a ↦ rw a (sym ((text_eq_iff k (codes "a")).0 a))
    | inr a ↦ elim (Bool-cases (text_eq k (codes "b"))) [
      | inl b ↦ rw (a, b) (sym ((text_eq_iff k (codes "b")).0 b))
      | inr b ↦ elim (Bool-cases (text_eq k (codes "c"))) [
        | inl c ↦ rw (a, b, c) (sym ((text_eq_iff k (codes "c")).0 c))
        | inr c ↦ rw (a, b, c) tt
      ]
    ]
  ];
}

-- A key that no item has is answered with no row.
get_records_consistent_alone_example :
    get_records_consistent office (codes "b" ∷ codes "z" ∷ codes "a" ∷ []) alone
    ≡ (ok (map start.billable_item (codes "b" ∷ codes "z" ∷ codes "a" ∷ [])), alone)
get_records_consistent_alone_example =
    get_records_consistent_alone office start (codes "b" ∷ codes "z" ∷ codes "a" ∷ [])
      (λ attempt k. refl) (λ attempt keys. refl) start-IsKeyed (refl, (refl, (refl, tt)))

ready :
    IsReady office inv (codes "2026-08-02") staff start row billed house trades (codes "2026-08-02")
unfolding run_all get_records_consistent ◌>>=◌ validate_item_date resolved_items has_business_name
    build_snapshot validate_total_within_safe_integer
ready = record {
  working = working;
  writable = refl;
  stored = refl;
  own_id = refl;
  member = refl;
  drafted = refl;
  some_ids = refl;
  valid_date = refl;
  prompt = λ attempt k. refl;
  no_fault = λ attempt keys. refl;
  keyed = start-IsKeyed;
  distinct = (refl, (refl, tt));
  all_on = refl;
  project_read = refl;
  instance_read = refl;
  named = refl;
  small = omega arith;
  safe = λ n. refl;
}

finalize_invoice_succeeds_example :
    (u : World) × (answer : Invoice) × (finalize_invoice office
        (user (codes "u") staff)
        inv
        (codes "2026-08-02")
        alone
      ≡ (ok answer, u))
    × (answer.status ≡ finalized)
    × (answer.version ≡ 2)
    × (answer.issue_date ≡ some (codes "2026-08-02"))
    × (answer.number ≡ some 8)
    × (answer.item_ids ≡ row.item_ids)
    × (answer.snapshot ≡ some (codes "{}"))
    × (u.tables.next_invoice_number (codes "i") ≡ some 8)
    × (u.tables.invoice inv ≡ some (record answer { updated_at = 60; finalized_at = some 60 }))
finalize_invoice_succeeds_example =
    finalize_invoice_succeeds office inv (codes "2026-08-02") (codes "u") (codes "2026-08-02") staff
      start row billed house trades ready (codes "{}") refl

-- The others take item b off before the items are read.
abbrev raced : World
raced = record { tables = start; later = [] ∷ (Command.remove inv (codes "b" ∷ []) 1 31 ∷ []) ∷ [] }

finalize_invoice_fails_example :
    (conflict ≡ internal)
    ⊎ ((j : ℕ) × (j ≤ 1)
        × Reached handler raced j
            (finalize_invoice office (user (codes "u") staff) inv (codes "2026-08-02") raced).1)
unfolding finalize_invoice require_invoice_member ◌>>=◌ run_all run remove_invoice_items
    transact_write validate_item_date resolved_items get_records_consistent
finalize_invoice_fails_example =
    finalize_invoice_fails office (user (codes "u") staff) inv (codes "2026-08-02") raced _ _
      start-IsKeyed (tt, ((refl, tt), tt)) refl
