-- ===== src/Mutations/Commits.antt =====
-- The commits of the mutations that edit a draft (api/src/graphql/mutations.rs): what was read before is
-- what is written on.
use microticket.Prelude.{
  ℕ, ◌+◌, Text, true, not, Option, none, some, List, ◌++◌, ◌≡◌, refl, ap, ◌∙◌, arith, All, All-map,
  filter, ok, &&-true,
}
use microticket.Db.{Invoice, InvoiceStatus, BillableItem, draft, finalized}
use microticket.Dynamo.{Tables, Handler, mem}
use microticket.Dynamo.Effects.{transact_write-true}
use microticket.Billing.{
  set_add, add_items, remove_items, draft_at, on_row, set_invoice_id, is_draft,
}
use microticket.Billing
use microticket.Billing.Version.{Since, Since-trans, RowSince}
use microticket.Billing.Interleaving.{run_all-Since}
use microticket.Billing.Outcomes.{attach_made, detach_made}
use microticket.Mutations.{World, pass, first_batch}
use microticket.Mutations.Ids.{set_add-NoneOf, NoneOf}
use microticket.Mutations.Batches.{Quiet, first-Quiet}
use microticket.Mutations.Traces.{Reached, waited}

-- A state in which only other clients have written since a state with the tables `t`.
pub record Idle (h : Handler) (id : Text) (w : World) (t : Tables) (u : World) : Type 0 where
  pub since : Since id t u.tables
  pub quiet : Quiet id u.later
  pub reached : Reached h w 0 u

pub pass-Idle :
    (h : Handler) (id : Text) (w : World) (t : Tables) (u : World)
    → Idle h id w t u
    → Idle h id w t (pass h u)
pass-Idle h id w t u i =
    let (n, q) = first-Quiet id u.later i.quiet in
    record {
      since =
          Since-trans id t u.tables _ i.since (run_all-Since h id (first_batch u.later) u.tables n);
      quiet = q;
      reached = waited i.reached;
    }

draft_at_lem :
    (n : ℕ) (o : Option Invoice)
    → draft_at n o ≡ true
    → (w : Invoice) × (o ≡ some w) × (w.version ≡ n) × (w.status ≡ draft)
draft_at_lem n none h = cc
draft_at_lem n (some w) h = (w, refl, ground arith, status_lem w.status (&&-true _ _ h).0)
  where
    status_lem : (st : InvoiceStatus) → is_draft st ≡ true → st ≡ draft
    status_lem draft e = refl
    status_lem finalized e = cc

-- The row at the commit is the row that was read.
same_row :
    (id : Text) (t u : Tables) (w w' : Invoice)
    → Since id t u
    → t.invoice id ≡ some w
    → u.invoice id ≡ some w'
    → w'.version ≡ w.version
    → (w'.item_ids ≡ w.item_ids)
      × (w'.status ≡ w.status)
      × (w'.project_id ≡ w.project_id)
      × (w'.instance_id ≡ w.instance_id)
same_row id t u w w' since at at' e =
    let row : RowSince (some w) (some w') = rw (at, at') at since.row in row.1 e

-- The stored row and the answer of an edit of a draft.
abbrev pub SameDraft : Invoice → Invoice → Type 0
SameDraft answer row =
    (row.item_ids ≡ answer.item_ids)
    × (row.version ≡ answer.version)
    × (row.status ≡ draft)
    × (row.project_id ≡ answer.project_id)
    × (row.instance_id ≡ answer.instance_id)

-- The item is stored with this `invoice_id`.
abbrev pub IsStoredOn : Tables → Option Text → Text → Type 0
IsStoredOn t v i = (r : BillableItem) × (t.billable_item i ≡ some r) × (r.invoice_id ≡ v)

pub add_made :
    (h : Handler) (id p : Text) (ids : List Text) (now : ℕ) (t0 t : Tables) (w : Invoice)
    → Since id t0 t
    → t0.invoice id ≡ some w
    → NoneOf w.item_ids ids
    → (Billing.add_invoice_items h id p ids w.version now t).0 ≡ ok true
    → (row : Invoice) × ((Billing.add_invoice_items h id p ids w.version now t).1.invoice id
        ≡ some row)
      × (row.item_ids ≡ w.item_ids ++ ids)
      × (row.version ≡ w.version + 1)
      × (row.status ≡ draft)
      × (row.project_id ≡ w.project_id)
      × (row.instance_id ≡ w.instance_id)
      × All (IsStoredOn (Billing.add_invoice_items h id p ids w.version now t).1 (some id)) ids
unfolding Billing.add_invoice_items
add_made h id p ids now t0 t w since at fresh done =
    let (holds, made) = transact_write-true h _ t done in
    let (drafted, row, items) =
      attach_made t id ids (draft_at w.version) (on_row (add_items ids now)) p holds in
    let (w', at', same, status) = draft_at_lem w.version (t.invoice id) drafted in
    let (content, _, own, inst) = same_row id t0 t w w' since at at' same in
    (
      add_items ids now w',
      rw made (row ∙ ap (on_row (add_items ids now)) at'),
      ap (λ l. set_add l ids) content ∙ set_add-NoneOf w.item_ids ids fresh,
      omega arith,
      status,
      own,
      inst,
      rw made (All-map (λ i (r, _, _, _, e). (set_invoice_id (some id) r, e, refl)) ids items),
    )

pub remove_made :
    (h : Handler) (id : Text) (ids : List Text) (now : ℕ) (t0 t : Tables) (w : Invoice)
    → Since id t0 t
    → t0.invoice id ≡ some w
    → (Billing.remove_invoice_items h id ids w.version now t).0 ≡ ok true
    → (row : Invoice) × ((Billing.remove_invoice_items h id ids w.version now t).1.invoice id
        ≡ some row)
      × (row.item_ids ≡ filter (λ i. not (mem i ids)) w.item_ids)
      × (row.version ≡ w.version + 1)
      × (row.status ≡ draft)
      × (row.project_id ≡ w.project_id)
      × (row.instance_id ≡ w.instance_id)
      × All (IsStoredOn (Billing.remove_invoice_items h id ids w.version now t).1 none) ids
unfolding Billing.remove_invoice_items
remove_made h id ids now t0 t w since at done =
    let (holds, made) = transact_write-true h _ t done in
    let (drafted, row, items) =
      detach_made t id ids (draft_at w.version) (on_row (remove_items ids now)) holds in
    let (w', at', same, status) = draft_at_lem w.version (t.invoice id) drafted in
    let (content, _, own, inst) = same_row id t0 t w w' since at at' same in
    (
      remove_items ids now w',
      rw made (row ∙ ap (on_row (remove_items ids now)) at'),
      ap (λ l. filter (λ i. not (mem i ids)) l) content,
      omega arith,
      status,
      own,
      inst,
      rw made (All-map (λ i (r, _, _, e). (set_invoice_id none r, e, refl)) ids items),
    )

pub delete_made :
    (h : Handler) (id : Text) (ids : List Text) (version : ℕ) (t : Tables)
    → (Billing.delete_invoice h id ids version t).0 ≡ ok true
    → ((Billing.delete_invoice h id ids version t).1.invoice id ≡ none)
      × All (IsStoredOn (Billing.delete_invoice h id ids version t).1 none) ids
unfolding Billing.delete_invoice
delete_made h id ids version t done =
    let (holds, made) = transact_write-true h _ t done in
    let (_, gone, items) = detach_made t id ids (draft_at version) (λ _. none) holds in
    (rw made gone, rw made (All-map (λ i (r, _, _, e). (set_invoice_id none r, e, refl)) ids items))
