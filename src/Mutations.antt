-- ===== src/Mutations.antt =====
-- The billing mutations of the GraphQL API (api/src/graphql/mutations.rs) and their checks of the
-- caller (api/src/auth.rs, api/src/graphql/auth.rs, api/src/graphql/error.rs). A mutation is a
-- program that calls the database several times; before each call the requests of other clients
-- that came in since the last one are run. Reads of other tables than those of the invoices answer
-- as a function, since a mutation reads a row of them once.
pub mod Checks
pub mod Items
pub mod Records
pub mod Invoices
pub mod Logic
pub mod Ids
pub mod Reads
pub mod Traces
pub mod Lookups
pub mod Batch
pub mod Batches
pub mod Printing
pub mod Finalizing
pub mod Runs
pub mod Progress
pub mod Commits
pub mod Steady
pub mod Adding
pub mod Removing
pub mod Editing
use microticket.Prelude.{
  ℕ, Text, Bool, true, false, Option, none, some, List, [], ◌∷◌, ◌++◌, ◌≡◌, map, codes, any,
  text_eq, Result, ok, err, if◌then◌else◌, is_some,
}
use microticket.Money.{QuantityError}
use microticket.Db.{Error, infrastructure, Instance, Project, BillableItem, Invoice}
use microticket.Dynamo.{AreDistinct, Tables, Handler, Op}
use microticket.Invoicing.{InputError, Snapshot}
use microticket.Billing.Commands.{Command, run_all}

pub data ErrorCode : Type 0 where
  not_found forbidden unauthenticated conflict internal : ErrorCode

-- The error of a resolver: an `ApiError`, or another error that `anyhow` carries.
pub data Failure : Type 0 where
  api : ErrorCode → Text → Failure
  anyhow : Text → Failure
  bad_input : InputError → Failure
  bad_quantity : QuantityError → Failure
  database : Error → Failure

abbrev pub classify : Failure → ErrorCode
classify (api code message) = code
classify e = internal

abbrev pub missing : Text → Text → Failure
missing kind id = api not_found (kind ++ codes " with ID " ++ id ++ codes " missing")

abbrev pub changed_concurrently : Failure
changed_concurrently = api conflict (codes "Invoice changed concurrently — reload and try again")

pub record Membership : Type 0 where
  pub instance_id : Text
  pub is_owner : Bool

-- Who calls: `other` is everything but `AuthInfo::User`.
pub data AuthInfo : Type 0 where
  user : Text → List Membership → AuthInfo
  other : AuthInfo

abbrev pub is_member : List Membership → Text → Bool
is_member memberships instance_id =
    any (λ (m : Membership). text_eq m.instance_id instance_id) memberships

-- What a mutation runs on. `batch_fault` is the error of the request of an attempt for some keys, if it
-- has one, and `defers` says which keys the service leaves unprocessed in it; a cached read answers with
-- whatever it finds. chrono's parse and serde's print are parameters; so are the fresh id and the
-- readings of the clock when a row is written and when the answer is made.
pub record Server : Type 0 where
  pub handler : Handler
  pub get_billable_items : Tables → List Text → Result Error (List (Option BillableItem))
  pub batch_fault : ℕ → List Text → Option Text
  pub defers : ℕ → Text → Bool
  pub get_projects : Text → Result Error (Option Project)
  pub get_instances : Text → Result Error (Option Instance)
  pub parse_date : Text → Option Text
  pub to_json : Snapshot → Result Text Text
  pub new_id : Text
  pub written_at : ℕ
  pub answered_at : ℕ

-- The tables, and what others ask for before each of the next calls.
pub record World : Type 0 where
  pub tables : Tables
  pub later : List (List Command)

abbrev pub first_batch : List (List Command) → List Command
first_batch [] = []
first_batch (cs ∷ rest) = cs

abbrev pub rest_of : List (List Command) → List (List Command)
rest_of [] = []
rest_of (cs ∷ rest) = rest

abbrev pub pass : Handler → World → World
pass h w = record { tables = run_all h (first_batch w.later) w.tables; later = rest_of w.later }

abbrev pub M : Type 0 → Type 0
M A = World → Result Failure A × World

abbrev pub pure : {A : Type 0} → A → M A
pure a w = (ok a, w)

abbrev pub fail : {A : Type 0} → Failure → M A
fail e w = (err e, w)

infixl 5 ◌>>=◌ ◌>>◌
unfoldable pub ◌>>=◌ : {A B : Type 0} → M A → (A → M B) → M B
◌>>=◌ m f w = let (r, w') = m w in elim r [ ok a ↦ f a w' | err e ↦ (err e, w') ]

abbrev pub ◌>>◌ : {B : Type 0} → M (Unit {0}) → M B → M B
m >> k = m >>= λ _. k

-- `return Err(e)` if the test holds.
abbrev pub fail_if : Bool → Failure → M (Unit {0})
fail_if true e = fail e
fail_if false e = pure tt

abbrev pub or_fail : {A : Type 0} → Option A → Failure → M A
or_fail none e = fail e
or_fail (some a) e = pure a

-- The `?` operator on a check, with its error in the resolver's type.
abbrev pub checked : {E A : Type 0} → (E → Failure) → Result E A → M A
checked f (ok a) = pure a
checked f (err e) = fail (f e)

-- A call of the database, after the requests of the others.
abbrev pub call : {A : Type 0} → Handler → Op A → M A
call h op w =
    let u = pass h w in let (r, t) = op u.tables in checked database r (record u { tables = t })

-- A consistent read.
abbrev pub read : {A : Type 0} → Handler → (Tables → Result Error A) → M A
read h f w = let u = pass h w in checked database (f u.tables) u

abbrev pub memberships_of : AuthInfo → M (List Membership)
memberships_of (user id memberships) = pure memberships
memberships_of other = fail (api forbidden (codes "Must be authenticated as a user"))

abbrev pub user_id_of : AuthInfo → M Text
user_id_of (user id memberships) = pure id
user_id_of other = fail (api forbidden (codes "Must be authenticated as a user"))

-- A row of another instance is answered like a row that is missing.
abbrev pub if_member : {A : Type 0} → List Membership → Text → A → Failure → M A
if_member memberships instance_id a e w =
    if is_member memberships instance_id then (ok a, w) else (err e, w)

pub require_project_member : Server → AuthInfo → Text → M Project
require_project_member s caller id = do
  memberships ← memberships_of caller
  found ← checked database (s.get_projects id)
  project ← or_fail found (missing (codes "Project") id)
  if_member memberships project.instance_id project (missing (codes "Project") id)

-- The row of one item among those that a read of its id answers.
abbrev pub first_row : {A : Type 0} → List (Option A) → Option A
first_row [] = none
first_row (r ∷ rows) = r

pub require_billable_item_member : Server → AuthInfo → Text → M BillableItem
require_billable_item_member s caller id = do
  memberships ← memberships_of caller
  rows ← read s.handler (λ t. s.get_billable_items t (id ∷ []))
  item ← or_fail (first_row rows) (missing (codes "BillableItem") id)
  if_member memberships item.instance_id item (missing (codes "BillableItem") id)

-- `get_invoice_consistent`.
abbrev pub get_invoice_consistent : Server → Text → Tables → Result Error (Option Invoice)
get_invoice_consistent s id t = elim (s.handler.service.read_fault t id) [
  | some e ↦ err (infrastructure e)
  | none ↦ ok (t.invoice id)
]

unfoldable pub require_invoice_member : Server → AuthInfo → Text → M Invoice
require_invoice_member s caller id = do
  memberships ← memberships_of caller
  found ← read s.handler (get_invoice_consistent s id)
  invoice ← or_fail found (missing (codes "Invoice") id)
  if_member memberships invoice.instance_id invoice (missing (codes "Invoice") id)

abbrev pub require_instance : Server → Text → M Instance
require_instance s id = do
  found ← checked database (s.get_instances id)
  or_fail found (missing (codes "Instance") id)
