-- ===== src/Billing/Version.antt =====
-- The version of an invoice as optimistic concurrency control (api/src/dynamodb.rs): the relation
-- between the tables before and after other requests.
use microticket.Prelude.{
  ◌+◌, ◌≤◌, Text, Bool, true, false, Option, none, some, List, ◌∷◌, ◌≡◌, refl, arith, text_eq,
  text_eq_iff, inl, inr, &&-true, Bool-cases, sym, subst, if◌then◌else◌,
}
use microticket.Db.{Invoice, BillableItem}
use microticket.Dynamo.{Tables, all_hold, apply_all, on_items, on_invoice, update}
use microticket.Dynamo.Effects.{invoice-on_items, item-on_items, holds-on_items}
use microticket.Billing.{attach, detach, unbilled_in, billed_on, on_row, set_invoice_id}
use microticket.Billing.Commands.{Command}

-- The command creates an invoice under the id `v`.
abbrev pub creates : Text → Command → Bool
creates v (Command.create id now inst proj ids user) = text_eq id v
creates v _ = false

-- What version `v.version` stands for.
abbrev pub SameContent : Invoice → Invoice → Type 0
SameContent w w' =
    (w'.item_ids ≡ w.item_ids)
    × (w'.status ≡ w.status)
    × (w'.project_id ≡ w.project_id)
    × (w'.instance_id ≡ w.instance_id)

-- A row that is gone does not come back; a version does not fall, and where it stays, so does the
-- content.
abbrev pub RowSince : Option Invoice → Option Invoice → Type 0
RowSince none none = Unit
RowSince none (some w') = ⊥
RowSince (some w) none = Unit
RowSince (some w) (some w') = (w.version ≤ w'.version) × (w'.version ≡ w.version → SameContent w w')

-- The same version in both rows.
abbrev pub SameVersion : Option Invoice → Option Invoice → Type 0
SameVersion (some w) (some w') = w'.version ≡ w.version
SameVersion _ _ = ⊥

pub record Since (v : Text) (t t' : Tables) : Type 0 where
  pub row : RowSince (t.invoice v) (t'.invoice v)
  pub items :
      SameVersion (t.invoice v) (t'.invoice v)
      → (i : Text) (r : BillableItem) → t.billable_item i ≡ some r
      → r.invoice_id ≡ some v
      → t'.billable_item i ≡ some r

pub RowSince-refl : (o : Option Invoice) → RowSince o o
RowSince-refl none = tt
RowSince-refl (some w) = (omega arith, λ _. (refl, refl, refl, refl))

RowSince-trans : (a b c : Option Invoice) → RowSince a b → RowSince b c → RowSince a c
RowSince-trans none none none h k = tt
RowSince-trans none none (some w) h k = k
RowSince-trans none (some w) c h k = absurd h
RowSince-trans (some w) b none h k = tt
RowSince-trans (some w) none (some w'') h k = absurd k
RowSince-trans (some w) (some w') (some w'') (l, s) (l', s') = (
  omega arith,
  λ e.
      let (i, st, p, n) = s (omega arith) in
      let (i', st', p', n') = s' (omega arith) in (cc, cc, cc, cc),
)

pub SameVersion-split :
    (a b c : Option Invoice)
    → RowSince a b
    → RowSince b c
    → SameVersion a c
    → SameVersion a b × SameVersion b c
SameVersion-split (some w) (some w') (some w'') (l, s) (l', s') e = (omega arith, omega arith)
SameVersion-split (some w) none (some w'') h k e = absurd k
SameVersion-split (some w) b none h k e = absurd e
SameVersion-split none b c h k e = absurd e

pub Since-refl : (v : Text) (t : Tables) → Since v t t
Since-refl v t = record { row = RowSince-refl (t.invoice v); items = λ _ i r e o. e }

pub Since-trans : (v : Text) (t t' t'' : Tables) → Since v t t' → Since v t' t'' → Since v t t''
Since-trans v t t' t'' a b = record {
  row = RowSince-trans (t.invoice v) (t'.invoice v) (t''.invoice v) a.row b.row;
  items = λ e i r h o.
      let (e1, e2) = SameVersion-split _ (t'.invoice v) _ a.row b.row e in
      b.items e2 i r (a.items e1 i r h o) o;
}

-- One write of an invoice row.
pub RowSince-update :
    (k v : Text) (t : Tables) (o : Option Invoice)
    → RowSince (t.invoice k) o
    → RowSince (t.invoice v) (update t.invoice k o v)
RowSince-update k v t o h = elim (Bool-cases (text_eq k v)) [
  | inl e ↦ let p : k ≡ v = (text_eq_iff k v).0 e in rw e (rw (← p) h)
  | inr e ↦ rw e (RowSince-refl (t.invoice v))
]

-- Updates that bump the version, and updates that touch neither it nor the content.
pub RowSince-bump :
    (f : Invoice → Invoice) (o : Option Invoice)
    → ((w : Invoice) → (f w).version ≡ w.version + 1)
    → RowSince o (on_row f o)
RowSince-bump f none h = tt
RowSince-bump f (some w) h = (omega (arith, h w), λ e. absurd (omega (arith, h w)))

-- An item on `v` stays if the command may only write items that are not on it.
pub item_kept :
    (c : Option BillableItem → Bool) (u : Option BillableItem → Option BillableItem)
    → ((o : Option BillableItem) → u (u o) ≡ u o)
    → (ids : List Text) (s t : Tables) (i : Text) (r : BillableItem)
    → all_hold s (on_items ids c u) ≡ true
    → s.billable_item i ≡ some r
    → t.billable_item i ≡ some r
    → c (some r) ≡ false
    → (apply_all t (on_items ids c u)).billable_item i ≡ some r
item_kept c u idem ids s t i r h e e' n =
    ground (arith, item-on_items c u idem ids t i, holds-on_items c u ids s i h)

pub set_invoice_id_idem :
    (v : Option Text) (o : Option BillableItem)
    → on_row (set_invoice_id v) (on_row (set_invoice_id v) o) ≡ on_row (set_invoice_id v) o
set_invoice_id_idem v none = refl
set_invoice_id_idem v (some r) = refl

pub SameVersion-update :
    (k v : Text) (t : Tables) (o : Option Invoice)
    → text_eq v k ≡ true
    → SameVersion (t.invoice v) (update t.invoice k o v)
    → SameVersion (t.invoice k) o
SameVersion-update k v t o h s =
    let p : v ≡ k = (text_eq_iff v k).0 h in
    let e : text_eq k v ≡ true = (text_eq_iff k v).1 (sym p) in
    rw (← p) (subst (λ b. SameVersion (t.invoice v) (if b then o else t.invoice v)) e s)

-- The transactions that write an invoice and attach or detach items.
module _ (v : Text) (t : Tables) where
  pub attach-Since :
      (k p : Text) (ids : List Text) (c : Option Invoice → Bool)
      (u : Option Invoice → Option Invoice)
      → all_hold t (on_invoice k c u ∷ attach k p ids) ≡ true
      → RowSince (t.invoice v) (update t.invoice k (u (t.invoice k)) v)
      → Since v t (apply_all t (on_invoice k c u ∷ attach k p ids))
  attach-Since k p ids c u h row = record {
    row = rw invoice-on_items row;
    items = λ _ i r e o.
        item_kept (unbilled_in p) (on_row (set_invoice_id (some k))) (set_invoice_id_idem (some k))
          ids t _ i r (&&-true _ _ h).1 e e (rw o);
  }

  pub detach-Since :
      (k : Text) (ids : List Text) (c : Option Invoice → Bool) (u : Option Invoice → Option Invoice)
      → all_hold t (on_invoice k c u ∷ detach k ids) ≡ true
      → RowSince (t.invoice v) (update t.invoice k (u (t.invoice k)) v)
      → (SameVersion (t.invoice k) (u (t.invoice k)) → ⊥)
      → Since v t (apply_all t (on_invoice k c u ∷ detach k ids))
  detach-Since k ids c u h row moved = record {
    row = rw invoice-on_items row;
    items = λ s i r e o. elim (Bool-cases (text_eq v k)) [
      | inl same ↦ absurd (moved (SameVersion-update k v t _ same (rw invoice-on_items at s)))
      | inr other ↦
          item_kept (billed_on k) (on_row (set_invoice_id none)) (set_invoice_id_idem none) ids t _
            i r (&&-true _ _ h).1 e e (rw o other)
    ];
  }
