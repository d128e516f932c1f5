-- ===== src/Mutations/Printing.antt =====
-- What `finalize_invoice` of api/src/graphql/mutations.rs freezes, and its last write.
use microticket.Prelude.{
  min, ◌+◌, ◌-◌, ◌^◌, ap, Text, true, Option, some, List, [], ◌∷◌, ◌≡◌, refl, map, All, ok,
}
use microticket.Db.{Invoice, BillableItem, Instance, Project, finalized}
use microticket.Dynamo.{Tables}
use microticket.Billing.{Frozen}
use microticket.Billing
use microticket.Billing.Numbers.{increment_invoice_counter, or_zero}
use microticket.Billing.Numbering.{increment_lem}
use microticket.Mutations.Traces.{Reached, waited}
use microticket.Billing.Freeze.{finalize_freezes_seen}
use microticket.Billing.Version.{Since}
use microticket.Invoicing.{build_snapshot, validate_total_within_safe_integer}
use microticket.Mutations.{classify, internal, Server, AuthInfo, World, Failure, pass, bad_input}
use microticket.Mutations.Checks.{has_business_name}
use microticket.Mutations.Invoices.{finalized_answer, number_and_freeze, not_serialized}
use microticket.Mutations.Logic.{Ends, pure-Ends, bind-Ends, call-Ends, checked-Ends, IsMember}
use microticket.Mutations.Reads.{AreOn}

-- What an invoice is frozen as: the print of the snapshot of its items under a number. The number is
-- the one after the instance's counter, cut to 32 bits, in a state that is reached from the start by
-- the requests of others alone.
pub record IsPrintOf (s : Server) (w : World) (project_id instance_id : Text)
    (items : List BillableItem) (f : Frozen) : Type 0 where
  pub project : Project
  pub inst : Instance
  pub project_read : s.get_projects project_id ≡ ok (some project)
  pub instance_read : s.get_instances instance_id ≡ ok (some inst)
  pub named : has_business_name inst ≡ true
  pub printed :
      s.to_json (build_snapshot inst project items (some f.number) (some f.issue_date))
      ≡ ok f.snapshot
  pub total :
      (build_snapshot inst project items (some f.number) (some f.issue_date)).total_cents
      ≡ f.total_cents
  pub before : World
  pub reached : Reached s.handler w 0 before
  pub number :
      f.number ≡ min (or_zero (before.tables.next_invoice_number instance_id) + 1) (2 ^ 32 - 1)
  pub safe : validate_total_within_safe_integer f.total_cents ≡ ok tt

module _ (E : Failure → World → Type 0) (s : Server)
    (on_internal : (e : Failure) (u : World) → classify e ≡ internal → E e u) where
  pub number_and_freeze-Ends :
      (invoice : Invoice) (inst : Instance) (project : Project) (items : List BillableItem)
      (issue_date user_id : Text) (start w : World)
      → Reached s.handler start 0 w
      → s.get_projects invoice.project_id ≡ ok (some project)
      → s.get_instances invoice.instance_id ≡ ok (some inst)
      → has_business_name inst ≡ true
      → Ends
          (λ f u.
            (u.tables
              ≡ (increment_invoice_counter s.handler invoice.instance_id
                  (pass s.handler w).tables).1)
            × (u.later ≡ (pass s.handler w).later)
            × IsPrintOf s start invoice.project_id invoice.instance_id items f)
          E
          (number_and_freeze s invoice inst project items issue_date user_id w)
  number_and_freeze-Ends invoice inst project items issue_date user_id start w since p i n =
      bind-Ends E _ _ _ w _
        (call-Ends E s.handler w (increment_invoice_counter s.handler invoice.instance_id)
          (λ e _. on_internal _ _ refl))
        (λ counted w1 (given, tables, later).
          bind-Ends E _ _ _ w1 _ (checked-Ends E bad_input _ w1 (λ e _. on_internal _ _ refl))
            (λ _ w2 (e2, safe).
              bind-Ends E _ _ _ w2 _
                (checked-Ends E not_serialized _ w2 (λ e _. on_internal _ _ refl))
                (λ json w3 (e3, printed). pure-Ends E _ _ w3 (
                  rw (e3, e2) tables,
                  rw (e3, e2) later,
                  record {
                    project = project;
                    inst = inst;
                    project_read = p;
                    instance_read = i;
                    named = n;
                    printed = printed;
                    total = refl;
                    before = pass s.handler w;
                    reached = waited since;
                    number =
                        ap (λ n. min n (2 ^ 32 - 1))
                          (increment_lem s.handler invoice.instance_id (pass s.handler w).tables
                            counted given).0;
                    safe = safe;
                  },
                ))))

-- The row and the answer of a finalization.
abbrev pub SameFinal : Invoice → Invoice → Type 0
SameFinal a w =
    (w.status ≡ finalized)
    × (a.status ≡ finalized)
    × (w.item_ids ≡ a.item_ids)
    × (w.version ≡ a.version)
    × (w.number ≡ a.number)
    × (w.issue_date ≡ a.issue_date)
    × (w.snapshot ≡ a.snapshot)
    × (w.total_cents ≡ a.total_cents)

pub record IsFinalized (s : Server) (w : World) (caller : AuthInfo) (id : Text) (answer : Invoice)
    (u : World) : Type 0 where
  pub row : Invoice
  pub items : List BillableItem
  pub f : Frozen
  pub stored : u.tables.invoice id ≡ some row
  pub answers : SameFinal answer row
  pub member : IsMember caller answer.instance_id
  pub holds : map u.tables.billable_item row.item_ids ≡ map some items
  pub billed : All (λ (r : BillableItem). r.invoice_id ≡ some id) items
  pub snapshot : row.snapshot ≡ some f.snapshot
  pub total_cents : row.total_cents ≡ some f.total_cents
  pub print : IsPrintOf s w answer.project_id answer.instance_id items f

-- The items that are there in the end, if each row that was read still is.
module _ (v : Text) (P : Text → BillableItem → Type 0) (g : Text → Option BillableItem)
    (kept : (k : Text) (r : BillableItem) → P k r → r.invoice_id ≡ some v → g k ≡ some r) where
  rows_of :
      (ids : List Text) (items : List BillableItem)
      → AreOn v P ids items
      → (map g ids ≡ map some items) × All (λ (r : BillableItem). r.invoice_id ≡ some v) items
  rows_of [] [] on = (refl, tt)
  rows_of [] (item ∷ items) on = absurd on
  rows_of (id ∷ ids) [] on = absurd on
  rows_of (id ∷ ids) (item ∷ items) (p, pointed, on) =
      let (rows, pointing) = rows_of ids items on in
      (rw (kept id item p pointed, rows) refl, (pointed, pointing))

-- A row that was stored at a moment between the read of the invoice and the last write.
abbrev pub Between : Text → Tables → Tables → Text → BillableItem → Type 0
Between id t at_commit k r =
    (m : Tables) × Since id t m × Since id m at_commit × (m.billable_item k ≡ some r)

-- The last write, after the reads.
pub written :
    (s : Server) (w : World) (caller : AuthInfo) (id : Text) (t at_commit : Tables)
    (invoice : Invoice) (items : List BillableItem) (f : Frozen) (u : World)
    → Since id t at_commit
    → invoice.id ≡ id
    → t.invoice id ≡ some invoice
    → IsMember caller invoice.instance_id
    → AreOn id (Between id t at_commit) invoice.item_ids items
    → IsPrintOf s w invoice.project_id invoice.instance_id items f
    → (Billing.finalize_invoice s.handler invoice.id invoice.version f s.written_at at_commit).0
      ≡ ok true
    → u.tables
      ≡ (Billing.finalize_invoice s.handler invoice.id invoice.version f s.written_at at_commit).1
    → IsFinalized s w caller id (finalized_answer s invoice f) u
written s w caller id t at_commit invoice items f u since same at member on print done made =
    let (row, stored, frozen, kept) =
      finalize_freezes_seen s.handler id t at_commit invoice f s.written_at at since
        (rw same at done) in
    let (holds, billed) =
      rows_of id (Between id t at_commit) _
        (λ k r (m, s1, s2, there) pointed. kept m s1 s2 k r there pointed) invoice.item_ids items
        on in
    record {
      row = row;
      items = items;
      f = f;
      stored = rw (made, same) stored;
      answers = (
        frozen.status, refl, frozen.item_ids, frozen.version, frozen.number, frozen.issue_date,
        frozen.snapshot, frozen.total_cents,
      );
      member = member;
      holds = rw (frozen.item_ids, made, same) holds;
      billed = billed;
      snapshot = frozen.snapshot;
      total_cents = frozen.total_cents;
      print = print;
    }
