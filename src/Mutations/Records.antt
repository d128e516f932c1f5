-- ===== src/Mutations/Records.antt =====
-- `get_records_consistent` of api/src/dynamodb.rs on billable items: chunks of a hundred keys, each sent
-- up to five times for the keys that are left unprocessed. A row is looked up at a moment of its own,
-- after a batch of the others' requests. The rows found are a map by their own ids.
use microticket.Prelude.{
  ℕ, zero, suc, ◌+◌, Text, true, false, Option, none, some, List, [], ◌∷◌, ◌++◌, codes, take, drop,
  length, Result, ok, err,
}
use microticket.Decimal.{to_decimal}
use microticket.Db.{BillableItem, infrastructure}
use microticket.Dynamo.{update}
use microticket.Mutations.{Server, World, Failure, M, pass, database, pure, ◌>>=◌}

abbrev pub Found : Type 0
Found = Text → Option BillableItem

-- A row of the response, under its id.
abbrev pub insert_row : Option BillableItem → Found → Found
insert_row none found = found
insert_row (some r) found = update found r.id (some r)

-- What one request found, and the keys it left.
abbrev pub Looked : Type 0
Looked = (Found × List Text) × World

abbrev pub deferring : Text → Looked → Looked
deferring k ((found, keys), w) = ((found, k ∷ keys), w)

abbrev pub looked_up : Server → ℕ → List Text → Found → World → Looked
looked_up s attempt [] found w = ((found, []), w)
looked_up s attempt (k ∷ keys) found w = elim (s.defers attempt k) [
  | true ↦ deferring k (looked_up s attempt keys found w)
  | false ↦
      looked_up s attempt keys (insert_row ((pass s.handler w).tables.billable_item k) found)
        (pass s.handler w)
]

abbrev pub unprocessed : List Text → Failure
unprocessed pending = database (
    infrastructure (
      codes "batch_get_consistent billable_item: "
      ++ to_decimal (length pending)
      ++ codes " key(s) still unprocessed after 5 attempts"))

-- The loop ends once no key is left, or goes on with those that are.
abbrev pub after_request : (List Text → Found → M Found) → Looked → Result Failure Found × World
after_request next ((found, []), w) = (ok found, w)
after_request next ((found, k ∷ keys), w) = next (k ∷ keys) found w

-- The attempts for one chunk, `left` of them still to be made.
abbrev pub attempts : ℕ → Server → ℕ → List Text → Found → M Found
attempts zero s attempt pending found w = (err (unprocessed pending), w)
attempts (suc left) s attempt pending found w = elim (s.batch_fault attempt pending) [
  | some m ↦ (err (database (infrastructure m)), w)
  | none ↦ after_request (attempts left s (attempt + 1)) (looked_up s attempt pending found w)
]

-- `slice::chunks`; each chunk has a key at least, so the length is enough.
abbrev pub chunks : ℕ → ℕ → List Text → List (List Text)
chunks zero size ids = []
chunks (suc fuel) size [] = []
chunks (suc fuel) size (i ∷ ids) = take size (i ∷ ids) ∷ chunks fuel size (drop size (i ∷ ids))

abbrev pub batch_get_max_attempts : ℕ
batch_get_max_attempts = 5

abbrev pub all_chunks : Server → List (List Text) → Found → M Found
all_chunks s [] found = pure found
all_chunks s (keys ∷ rest) found = do
  now_found ← attempts batch_get_max_attempts s 1 keys found
  all_chunks s rest now_found

-- `HashMap::remove`: an id that is given twice has no row the second time.
abbrev pub removed : List Text → Found → List (Option BillableItem)
removed [] found = []
removed (i ∷ ids) found = found i ∷ removed ids (update found i none)

unfoldable pub get_records_consistent : Server → List Text → M (List (Option BillableItem))
get_records_consistent s ids = do
  found ← all_chunks s (chunks (length ids) 100 ids) (λ i. none)
  pure (removed ids found)
