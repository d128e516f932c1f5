-- ===== src/Dynamo.antt =====
-- The DynamoDB service that api/src/dynamodb.rs calls, as an interface. The tables are those the
-- invoicing operations write: `invoice`, `billable_item` and the `next_invoice_number` attribute of
-- `counter`. A write has a key, a condition on the row that is there and the row that it leaves
-- (`none`: no row). The service answers one list of writes as a whole.
pub mod Effects
use microticket.Prelude.{
  ℕ, Text, Bool, true, false, ◌&&◌, ◌||◌, Option, none, some, List, [], ◌∷◌, text_eq, if◌then◌else◌,
  ◌≡◌, ◌⊎◌, Result, ok, err, all,
}
use microticket.Db.{Error, infrastructure, mutation_disabled, Invoice, BillableItem}

pub record Tables : Type 0 where
  pub invoice : Text → Option Invoice
  pub billable_item : Text → Option BillableItem
  pub next_invoice_number : Text → Option ℕ

pub data Write : Type 0 where
  on_invoice : Text → (Option Invoice → Bool) → (Option Invoice → Option Invoice) → Write
  on_item :
      Text → (Option BillableItem → Bool) → (Option BillableItem → Option BillableItem) → Write
  on_counter : Text → (Option ℕ → Bool) → (Option ℕ → Option ℕ) → Write

module _ {ℓ} {A : Type ℓ} where
  abbrev pub update : (Text → A) → Text → A → Text → A
  update f k v j = if text_eq k j then v else f j

abbrev pub holds : Tables → Write → Bool
holds t (on_invoice k c u) = c (t.invoice k)
holds t (on_item k c u) = c (t.billable_item k)
holds t (on_counter k c u) = c (t.next_invoice_number k)

abbrev pub apply : Tables → Write → Tables
apply t (on_invoice k c u) = record t { invoice = update t.invoice k (u (t.invoice k)) }
apply t (on_item k c u) = record t {
  billable_item = update t.billable_item k (u (t.billable_item k));
}
apply t (on_counter k c u) = record t {
  next_invoice_number = update t.next_invoice_number k (u (t.next_invoice_number k));
}

abbrev pub all_hold : Tables → List Write → Bool
all_hold t [] = true
all_hold t (w ∷ ws) = holds t w && all_hold t ws

abbrev pub apply_all : Tables → List Write → Tables
apply_all t [] = t
apply_all t (w ∷ ws) = apply_all (apply t w) ws

-- Membership in a list of ids.
abbrev pub mem : Text → List Text → Bool
mem j [] = false
mem j (i ∷ ids) = text_eq i j || mem j ids

-- No id is listed twice.
abbrev pub AreDistinct : List Text → Type 0
AreDistinct [] = Unit
AreDistinct (i ∷ ids) = (mem i ids ≡ false) × AreDistinct ids

-- The same write on each of several items.
abbrev pub on_items :
    List Text
    → (Option BillableItem → Bool)
    → (Option BillableItem → Option BillableItem)
    → List Write
on_items [] c u = []
on_items (i ∷ ids) c u = on_item i c u ∷ on_items ids c u

-- `refused` is ConditionalCheckFailedException or TransactionCanceledException.
pub data Answer : Type 0 where
  committed refused : Answer
  failed : Text → Answer

-- What the code relies on: the writes are all made or none is, they are made only if every condition
-- holds of the rows before, and a refusal makes none. After any other failure the caller cannot know.
pub record Dynamo : Type 0 where
  pub submit : Tables → List Write → Answer × Tables
  -- the error of a `get_item` of a key, if it fails
  pub read_fault : Tables → Text → Option Text
  pub committed_means :
      (t : Tables) (ws : List Write) (t' : Tables)
      → submit t ws ≡ (committed, t')
      → (all_hold t ws ≡ true) × (t' ≡ apply_all t ws)
  pub refused_means :
      (t : Tables) (ws : List Write) (t' : Tables) → submit t ws ≡ (refused, t') → t' ≡ t
  pub failed_means :
      (t : Tables) (ws : List Write) (e : Text) (t' : Tables)
      → submit t ws ≡ (failed e, t')
      → (t' ≡ t) ⊎ ((all_hold t ws ≡ true) × (t' ≡ apply_all t ws))

-- The database handler; the table prefix only names tables.
pub record Handler : Type 0 where
  pub service : Dynamo
  pub read_only : Bool

-- An operation returns its result and the tables it leaves.
abbrev pub Op : Type 0 → Type 0
Op A = Tables → Result Error A × Tables

-- The match on the response: true for a commit, false for a refusal.
abbrev pub answered : Answer × Tables → Result Error Bool × Tables
answered (committed, t) = (ok true, t)
answered (refused, t) = (ok false, t)
answered (failed e, t) = (err (infrastructure e), t)

-- `transact_write`, and a conditional write of one row, behind `ensure_writable`.
unfoldable pub transact_write : Handler → List Write → Op Bool
transact_write h ws t =
    let r = answered (h.service.submit t ws) in
    if h.read_only then (err mutation_disabled, t) else r
