-- ===== src/Mutations/Reads.antt =====
-- The reads of `finalize_invoice` (api/src/graphql/mutations.rs): what the rows found say.
use microticket.Prelude.{
  Text, Option, none, some, List, [], ◌∷◌, ◌≡◌, refl, ap, sym, ◌∙◌, ok, err, ok_injective, Result,
  text_eq, inl, inr, Bool-cases, ok≢err, err_injective,
}
use microticket.Db.{BillableItem, Invoice, Error}
use microticket.Dynamo.{update}
use microticket.Billing.Keyed.{IsKeyed}
use microticket.Mutations.Records.{Found, removed}
use microticket.Mutations.Lookups.{Seen, get_records_consistent-Ends}
use microticket.Mutations.Traces.{Waits}
use microticket.Billing.{is_on}
use microticket.Billing.Outcomes.{is_on_lem}
use microticket.Mutations.{
  api, conflict, not_found, Failure, Server, World, database, require_instance,
}
use microticket.Mutations.Checks.{resolved_items, cons_item}
use microticket.Mutations.Invoices.{items_on, itself, require_project}
use microticket.Mutations.Logic.{Ends, bind-Ends, checked-Ends, or_fail-Ends, weaken-Ends}

cons_item_ok :
    (item : BillableItem) (r : Result Failure (List BillableItem)) (items : List BillableItem)
    → cons_item item r ≡ ok items
    → (rest : List BillableItem) × (r ≡ ok rest) × (item ∷ rest ≡ items)
cons_item_ok item (ok rest) items e = (rest, refl, ok_injective e)
cons_item_ok item (err f) items e = absurd (ok≢err (sym e))

cons_item_err :
    (item : BillableItem) (r : Result Failure (List BillableItem)) (e : Failure)
    → cons_item item r ≡ err e
    → r ≡ err e
cons_item_err item (ok rest) e h = absurd (ok≢err h)
cons_item_err item (err f) e h = ap err (err_injective h)

-- The items of an invoice, one for each of its ids, that point back at it.
abbrev pub AreOn : Text → (Text → BillableItem → Type 0) → List Text → List BillableItem → Type 0
AreOn v P [] [] = Unit
AreOn v P [] (item ∷ items) = ⊥
AreOn v P (id ∷ ids) [] = ⊥
AreOn v P (id ∷ ids) (item ∷ items) = P id item × (item.invoice_id ≡ some v) × AreOn v P ids items

module _ (v : Text) {P Q : Text → BillableItem → Type 0}
    (f : (k : Text) (r : BillableItem) → P k r → Q k r) where
  pub AreOn-map :
      (ids : List Text) (items : List BillableItem) → AreOn v P ids items → AreOn v Q ids items
  AreOn-map [] [] on = tt
  AreOn-map [] (item ∷ items) on = on
  AreOn-map (id ∷ ids) [] on = on
  AreOn-map (id ∷ ids) (item ∷ items) (p, pointed, on) =
      (f id item p, pointed, AreOn-map ids items on)

module _ (v : Text) (P : Text → BillableItem → Type 0) where
  kept_without :
      (id : Text) (found : Found)
      → ((k : Text) (r : BillableItem) → found k ≡ some r → P k r)
      → (k : Text) (r : BillableItem) → update found id none k ≡ some r
      → P k r
  kept_without id found rows k r e = elim (Bool-cases (text_eq id k)) [
    | inl gone ↦ absurd (none≢some (rw gone at e))
    | inr other ↦ rows k r (rw other at e)
  ]
    where
      none≢some : none ≡ some r → ⊥
      none≢some q = cc

  pub resolved_items_sound :
      (ids : List Text) (found : Found) (items : List BillableItem)
      → ((k : Text) (r : BillableItem) → found k ≡ some r → P k r)
      → resolved_items v ids (removed ids found) ≡ ok items
      → AreOn v P ids items
  unfolding resolved_items
  resolved_items_sound [] found [] rows e = tt
  resolved_items_sound [] found (x ∷ items) rows e = absurd (nil≢cons (ok_injective e))
    where
      nil≢cons : [] ≡ x ∷ items → ⊥
      nil≢cons h = cc
  resolved_items_sound (id ∷ ids) found items rows e =
      by_row
        (λ rest g.
          resolved_items_sound ids (update found id none) rest (kept_without id found rows) g)
        (found id) refl e
    where
      by_row :
          ((rest : List BillableItem)
            → resolved_items v ids (removed ids (update found id none)) ≡ ok rest
            → AreOn v P ids rest)
          → (o : Option BillableItem) → found id ≡ o
          → resolved_items v (id ∷ ids) (o ∷ removed ids (update found id none)) ≡ ok items
          → AreOn v P (id ∷ ids) items
      by_row k none at h = absurd (ok≢err (sym h))
      by_row k (some item) at h = elim (Bool-cases (is_on v item.invoice_id)) [
        | inr off ↦ absurd (ok≢err (sym (rw off at h)))
        | inl pointed ↦
            let (rest, g, same) = cons_item_ok item _ items (rw pointed at h) in
            rw (← same) (rows id item at, is_on_lem v item.invoice_id pointed, k rest g)
      ]

-- The error of the loop is a conflict.
pub only_conflicts :
    (v : Text) (ids : List Text) (rows : List (Option BillableItem)) (e : Failure)
    → resolved_items v ids rows ≡ err e
    → (m : Text) × (e ≡ api conflict m)
unfolding resolved_items
only_conflicts v [] rows e h = absurd (ok≢err h)
only_conflicts v (id ∷ ids) [] e h = absurd (ok≢err h)
only_conflicts v (id ∷ ids) (none ∷ rows) e h = (_, sym (err_injective h))
only_conflicts v (id ∷ ids) (some item ∷ rows) e h = elim (Bool-cases (is_on v item.invoice_id)) [
  | inr off ↦ (_, sym (err_injective (rw off at h)))
  | inl pointed ↦ only_conflicts v ids rows e (cons_item_err item _ e (rw pointed at h))
]

module _ (E : Failure → World → Type 0) (s : Server) where
  pub items_on-Ends :
      (invoice : Invoice) (w : World) (keyed : IsKeyed w.tables)
      → ((e : Error) (u : World) → E (database e) u)
      → ((m : Text) (u : World) → Waits s.handler w u → E (api conflict m) u)
      → Ends
          (λ items u.
            Waits s.handler w u × AreOn invoice.id (Seen s w keyed u) invoice.item_ids items)
          E
          (items_on s invoice w)
  items_on-Ends invoice w keyed fault refused =
      bind-Ends E _ _ _ w _ (get_records_consistent-Ends s w keyed E fault invoice.item_ids)
        (λ rows w1 (waited, (found, are, seen)).
          weaken-Ends E _ _
            (checked-Ends E itself _ w1 (λ e f.
              let (m, is) = only_conflicts invoice.id invoice.item_ids rows e f in
              rw is (refused m w1 waited)))
            (λ items w2 (e2, f). (
              rw e2 waited,
              rw e2 (
                  resolved_items_sound invoice.id (Seen s w keyed w1) invoice.item_ids found items
                    seen (rw are at f)),
            )))

  pub require_project-Ends :
      (id : Text) (w : World)
      → ((e : Error) → E (database e) w)
      → ((m : Text) → E (api not_found m) w)
      → Ends (λ p u. (u ≡ w) × (s.get_projects id ≡ ok (some p))) E (require_project s id w)
  require_project-Ends id w fault h =
      bind-Ends E _ _ _ w _ (checked-Ends E database _ w (λ e _. fault e)) (λ found w1 (e1, f).
        weaken-Ends E _ _ (or_fail-Ends E found _ w1 (λ _. rw e1 (h _)))
          (λ p w2 (e2, g). (e2 ∙ e1, f ∙ ap ok g)))

  pub require_instance-Ends :
      (id : Text) (w : World)
      → ((e : Error) → E (database e) w)
      → ((m : Text) → E (api not_found m) w)
      → Ends (λ i u. (u ≡ w) × (s.get_instances id ≡ ok (some i))) E (require_instance s id w)
  require_instance-Ends id w fault h =
      bind-Ends E _ _ _ w _ (checked-Ends E database _ w (λ e _. fault e)) (λ found w1 (e1, f).
        weaken-Ends E _ _ (or_fail-Ends E found _ w1 (λ _. rw e1 (h _)))
          (λ i w2 (e2, g). (e2 ∙ e1, f ∙ ap ok g)))
