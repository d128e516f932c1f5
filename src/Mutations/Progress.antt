-- ===== src/Mutations/Progress.antt =====
-- `finalize_invoice` of api/src/graphql/mutations.rs with no other client at work.
use microticket.Prelude.{
  ℕ, ◌+◌, ◌-◌, ◌^◌, min, ◌≤◌, Text, true, false, Option, none, some, List, [], ◌∷◌, ◌≡◌, refl, sym,
  ◌∙◌, subst, map, ok, arith, ltb, text_eq_iff,
}
use microticket.Decimal.{u64_max}
use microticket.Db.{Invoice, BillableItem, Instance, Project, draft, finalized}
use microticket.Dynamo.{
  Tables, Write, Handler, Dynamo, committed, on_counter, on_invoice, all_hold, apply_all,
  transact_write,
}
use microticket.Billing.{Frozen, freeze, is_draft, on_row, draft_at}
use microticket.Billing
use microticket.Billing.Commands.{run_all}
use microticket.Billing.Numbers.{increment_invoice_counter, or_zero, counter_value}
use microticket.Invoicing.{build_snapshot, validate_total_within_safe_integer, validate_item_date}
use microticket.Mutations.{
  require_invoice_member, get_invoice_consistent, Server, user, Membership, is_member, World,
}
use microticket.Mutations.Checks.{resolved_items, has_business_name}
use microticket.Mutations.Invoices.{
  finalize_invoice, finalize_resolved, write_final, number_and_freeze, finalized_answer, as_u32,
  no_ids_left,
}
use microticket.Billing.Keyed.{IsKeyed}
use microticket.Dynamo.{AreDistinct}
use microticket.Mutations.Batch.{get_records_consistent_alone}
use microticket.Mutations.Runs.{bind_run}

-- The service makes every list of writes whose conditions hold, and a read does not fail.
pub record IsWorking (d : Dynamo) : Type 0 where
  pub commits :
      (t : Tables) (ws : List Write)
      → all_hold t ws ≡ true
      → d.submit t ws ≡ (committed, apply_all t ws)
  pub reads : (t : Tables) (k : Text) → d.read_fault t k ≡ none

-- What finalization asks of the draft and of its surroundings.
pub record IsReady (s : Server) (id issue_date : Text) (memberships : List Membership) (t : Tables)
    (invoice : Invoice) (items : List BillableItem) (project : Project) (inst : Instance)
    (date : Text) : Type 0 where
  pub working : IsWorking s.handler.service
  pub writable : s.handler.read_only ≡ false
  pub stored : t.invoice id ≡ some invoice
  pub own_id : invoice.id ≡ id
  pub member : is_member memberships invoice.instance_id ≡ true
  pub drafted : invoice.status ≡ draft
  pub some_ids : no_ids_left invoice.item_ids ≡ false
  pub valid_date : validate_item_date s.parse_date issue_date ≡ ok date
  pub prompt : (attempt : ℕ) (k : Text) → s.defers attempt k ≡ false
  pub no_fault : (attempt : ℕ) (keys : List Text) → s.batch_fault attempt keys ≡ none
  pub keyed : IsKeyed t
  pub distinct : AreDistinct invoice.item_ids
  pub all_on :
      resolved_items invoice.id invoice.item_ids (map t.billable_item invoice.item_ids) ≡ ok items
  pub project_read : s.get_projects invoice.project_id ≡ ok (some project)
  pub instance_read : s.get_instances invoice.instance_id ≡ ok (some inst)
  pub named : has_business_name inst ≡ true
  pub small : or_zero (t.next_invoice_number invoice.instance_id) + 1 ≤ u64_max
  pub safe :
      (n : ℕ)
      → validate_total_within_safe_integer
          (build_snapshot inst project items (some n) (some date)).total_cents
        ≡ ok tt

transact_write-commits :
    (h : Handler) (ws : List Write) (t : Tables)
    → IsWorking h.service
    → h.read_only ≡ false
    → all_hold t ws ≡ true
    → transact_write h ws t ≡ (ok true, apply_all t ws)
unfolding transact_write
transact_write-commits h ws t working writable holds =
    rw (writable, working.commits t ws holds) refl

module _ (s : Server) (id issue_date user_id date : Text) (memberships : List Membership)
    (t : Tables) (invoice : Invoice) (items : List BillableItem) (project : Project)
    (inst : Instance)
    (ready : IsReady s id issue_date memberships t invoice items project inst date) where
  abbrev alone : Tables → World
  alone t = record { tables = t; later = [] }

  require_runs :
      require_invoice_member s (user user_id memberships) id (alone t) ≡ (ok invoice, alone t)
  unfolding require_invoice_member run_all
  require_runs =
      let w = alone t in
      let found : get_invoice_consistent s id t ≡ ok (some invoice) =
        rw (get_invoice_consistent, ready.working.reads t id, ready.stored) refl in
      bind_run _ _ w memberships w refl
      ∙ bind_run _ _ w (some invoice) w (rw found refl)
      ∙ bind_run _ _ w invoice w refl
      ∙ rw ready.member refl

  abbrev counted : ℕ
  counted = or_zero (t.next_invoice_number invoice.instance_id) + 1

  abbrev after_count : Tables
  after_count =
      apply_all t (on_counter invoice.instance_id (λ _. true) (λ c. some (or_zero c + 1)) ∷ [])

  counter_runs : after_count.next_invoice_number invoice.instance_id ≡ some counted
  counter_runs = rw ((text_eq_iff invoice.instance_id invoice.instance_id).1 refl) refl

  number_runs :
      increment_invoice_counter s.handler invoice.instance_id t ≡ (ok counted, after_count)
  unfolding increment_invoice_counter
  number_runs = rw (transact_write-commits s.handler _ t ready.working ready.writable refl) (
      returned_small after_count
        (ground (arith, text_eq_iff invoice.instance_id invoice.instance_id)))
    where
      returned_small :
          (t' : Tables)
          → t'.next_invoice_number invoice.instance_id ≡ some counted
          → counter_value invoice.instance_id (ok true, t') ≡ (ok counted, t')
      returned_small t' e = rw e (rw (small_test ready.small) refl)
        where
          small_test : counted ≤ u64_max → ltb u64_max counted ≡ false
          small_test h = ground arith

  abbrev f : Text → Frozen
  f json = record {
    number = as_u32 counted;
    issue_date = date;
    snapshot = json;
    total_cents =
        (build_snapshot inst project items (some (as_u32 counted)) (some date)).total_cents;
    finalized_by_user_id = user_id;
  }

  freeze_runs :
      (json : Text)
      → s.to_json (build_snapshot inst project items (some (as_u32 counted)) (some date)) ≡ ok json
      → number_and_freeze s invoice inst project items date user_id (alone t)
        ≡ (ok (f json), alone after_count)
  unfolding run_all
  freeze_runs json printed =
      bind_run _ _ (alone t) counted (alone after_count) (rw number_runs refl)
      ∙ bind_run _ _ (alone after_count) tt (alone after_count)
          (rw (ready.safe (as_u32 counted)) refl)
      ∙ bind_run _ _ (alone after_count) json (alone after_count) (rw printed refl)

  abbrev after_write : Text → Tables
  after_write json = apply_all after_count (
      on_invoice invoice.id (draft_at invoice.version) (on_row (freeze (f json) s.written_at)) ∷ [])

  at_own_id : t.invoice invoice.id ≡ some invoice
  at_own_id = subst (λ k. t.invoice k ≡ some invoice) (sym ready.own_id) ready.stored

  stored_last :
      (json : Text)
      → (after_write json).invoice invoice.id ≡ some (freeze (f json) s.written_at invoice)
  stored_last json = rw ((text_eq_iff invoice.id invoice.id).1 refl) (rw at_own_id refl)

  draft_holds : (o : Option Invoice) → o ≡ some invoice → draft_at invoice.version o ≡ true
  draft_holds o e = rw (e, ready.drafted) (ground arith)

  commit_runs :
      (json : Text)
      → Billing.finalize_invoice s.handler invoice.id invoice.version
          (f json)
          s.written_at
          after_count
        ≡ (ok true, after_write json)
  unfolding Billing.finalize_invoice
  commit_runs json =
      transact_write-commits s.handler _ after_count ready.working ready.writable
        (rw (draft_holds (t.invoice invoice.id) at_own_id) refl)

  write_runs :
      (json : Text)
      → write_final s invoice (f json) (alone after_count)
        ≡ (ok (finalized_answer s invoice (f json)), alone (after_write json))
  unfolding run_all
  write_runs json =
      bind_run _ _ (alone after_count) true (alone (after_write json)) (rw (commit_runs json) refl)
      ∙ bind_run _ _ (alone (after_write json)) tt (alone (after_write json)) refl

  resolved_runs :
      (json : Text)
      → s.to_json (build_snapshot inst project items (some (as_u32 counted)) (some date)) ≡ ok json
      → finalize_resolved s invoice items date user_id (alone t)
        ≡ (ok (finalized_answer s invoice (f json)), alone (after_write json))
  resolved_runs json printed =
      let w = alone t in
      bind_run _ _ w project w (bind_run _ _ w (some project) w (rw ready.project_read refl))
      ∙ bind_run _ _ w inst w (bind_run _ _ w (some inst) w (rw ready.instance_read refl))
      ∙ bind_run _ _ w tt w (rw ready.named refl)
      ∙ bind_run _ _ w (f json) (alone after_count) (freeze_runs json printed)
      ∙ write_runs json

  finalize_runs :
      (json : Text)
      → s.to_json (build_snapshot inst project items (some (as_u32 counted)) (some date)) ≡ ok json
      → finalize_invoice s (user user_id memberships) id issue_date (alone t)
        ≡ (ok (finalized_answer s invoice (f json)), alone (after_write json))
  unfolding finalize_invoice run_all
  finalize_runs json printed =
      let w = alone t in
      bind_run _ _ w invoice w require_runs
      ∙ bind_run _ _ w user_id w refl
      ∙ bind_run _ _ w tt w (rw ready.drafted refl)
      ∙ bind_run _ _ w tt w (rw ready.some_ids refl)
      ∙ bind_run _ _ w date w (rw ready.valid_date refl)
      ∙ bind_run _ _ w items w (
          bind_run _ _ w (map t.billable_item invoice.item_ids) w (
            get_records_consistent_alone s t invoice.item_ids ready.prompt ready.no_fault
              ready.keyed ready.distinct)
          ∙ rw ready.all_on refl)
      ∙ resolved_runs json printed

  -- A member finalizes a draft with items, all of which point at it, with a date that is valid; its
  -- project and instance are there, the instance has a business name, its counter is below its
  -- maximum, the total is in range and the snapshot can be printed. If nobody else is at work, the
  -- database is writable, makes each write whose conditions hold and processes each key of a read, rows
  -- stand under their own ids and no item id is listed twice, then `finalizeInvoice` answers
  -- with the invoice, finalized, at the next version, with the date, and under the number after the one
  -- that the instance's counter has (at most 2^32 - 1); the counter then has the number given out, and
  -- the row stored is the answer with the times of the write.
  pub finalize_invoice_succeeds :
      (json : Text)
      → s.to_json (build_snapshot inst project items (some (min counted (2 ^ 32 - 1))) (some date))
        ≡ ok json
      → (u : World) × (answer : Invoice) × (finalize_invoice s
            (user user_id memberships)
            id
            issue_date
            (alone t)
          ≡ (ok answer, u))
        × (answer.status ≡ finalized)
        × (answer.version ≡ invoice.version + 1)
        × (answer.issue_date ≡ some date)
        × (answer.number ≡ some (min counted (2 ^ 32 - 1)))
        × (answer.item_ids ≡ invoice.item_ids)
        × (answer.snapshot ≡ some json)
        × (u.tables.next_invoice_number invoice.instance_id ≡ some counted)
        × (u.tables.invoice id
            ≡ some (record answer { updated_at = s.written_at; finalized_at = some s.written_at }))
  finalize_invoice_succeeds json printed = (
    alone (after_write json),
    finalized_answer s invoice (f json),
    finalize_runs json printed,
    refl,
    refl,
    refl,
    refl,
    refl,
    refl,
    counter_runs,
    subst (λ k. (after_write json).invoice k ≡ some (freeze (f json) s.written_at invoice))
        ready.own_id (stored_last json),
  )
