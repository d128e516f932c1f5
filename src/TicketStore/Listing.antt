-- ===== src/TicketStore/Listing.antt =====
-- `list_tickets` of api/src/dynamodb.rs over the sparse indexes. The index service is a record: the
-- stored rows in the order of a scan after its start key, and how much of them one query examines.
use microticket.Prelude.{
  ℕ, zero, suc, ◌≤◌, Text, Bool, true, false, not, ◌&&◌, ◌||◌, Option, none, some, List, [], ◌∷◌,
  ◌++◌, ◌≡◌, Result, ok, err, if◌then◌else◌, filter, take, drop, length, leb, text_eq, reverse,
  is_some,
}
use microticket.Db.{Error}
use microticket.Tickets.{TicketStatus, as_str, composite}
use microticket.Inbound.{Ticket}
use microticket.TicketStore.{TicketRow}

pub data TicketListFilter : Type 0 where
  by_status : TicketStatus → TicketListFilter
  visible : TicketListFilter
  assigned_to : Text → Option TicketStatus → TicketListFilter

pub record TicketCursor : Type 0 where
  pub last_activity_at : ℕ
  pub id : Text

pub record ListTicketsPage : Type 0 where
  pub after : Option TicketCursor
  pub before : Option TicketCursor
  pub limit : ℕ
  pub descending : Bool

pub data IndexName : Type 0 where
  instance_status_index instance_visible_index instance_assignee_index : IndexName

-- The index that a filter is answered from, the key there, and the status that is filtered for.
abbrev pub index_name : TicketListFilter → IndexName
index_name (by_status s) = instance_status_index
index_name visible = instance_visible_index
index_name (assigned_to u s) = instance_assignee_index

abbrev pub key_value : Text → TicketListFilter → Text
key_value instance_id (by_status s) = composite instance_id (as_str s)
key_value instance_id visible = instance_id
key_value instance_id (assigned_to u s) = composite instance_id u

abbrev pub status_filter : TicketListFilter → Option TicketStatus
status_filter (by_status s) = none
status_filter visible = none
status_filter (assigned_to u s) = s

-- The attribute that an index is keyed on.
abbrev pub attribute : IndexName → TicketRow → Option Text
attribute instance_status_index r = some r.instance_status
attribute instance_visible_index r = r.instance_visible
attribute instance_assignee_index r = r.instance_assignee

abbrev pub is_under : Text → Option Text → Bool
is_under key none = false
is_under key (some a) = text_eq a key

abbrev pub has_status : Option TicketStatus → TicketRow → Bool
has_status none r = true
has_status (some s) r = text_eq (as_str r.ticket.status) (as_str s)

-- A query of an index: the rows under the key in the order of the scan. It examines some of the rows
-- that are left, one at least, and says if there may be more. `fault` is the error of a query or of
-- reading the rows it found.
pub record TicketIndex : Type 0 where
  pub ordered : Bool → Option TicketCursor → List TicketRow
  pub rows : IndexName → Text → Bool → Option TicketCursor → List TicketRow
  pub examined : ℕ → List TicketRow → ℕ
  pub more : ℕ → List TicketRow → Bool
  pub fault : List TicketRow → Option Error
  pub sparse :
      (name : IndexName) (key : Text) (forward : Bool) (start : Option TicketCursor)
      → rows name key forward start
        ≡ filter (λ r. is_under key (attribute name r)) (ordered forward start)
  pub advances : (limit : ℕ) (left : List TicketRow) → 1 ≤ examined limit left
  pub ends :
      (limit : ℕ) (left : List TicketRow)
      → more limit left ≡ false
      → length left ≤ examined limit left
  pub stops : (limit : ℕ) → more limit [] ≡ false

abbrev pub page_scan_direction : Bool → Bool → Bool → Bool × Bool
page_scan_direction has_after has_before descending = (
  if has_after then not descending else if has_before then descending else not descending,
  has_before && not has_after,
)

abbrev pub tickets_of : List TicketRow → List Ticket
tickets_of [] = []
tickets_of (r ∷ rows) = r.ticket ∷ tickets_of rows

-- The loop over the queries; `none` if the fuel is used up.
unfoldable pub pages :
    ℕ
    → TicketIndex
    → Option TicketStatus
    → ℕ
    → List TicketRow
    → List Ticket
    → Option (Result Error (List Ticket))
pages zero q status limit left tickets = none
pages (suc fuel) q status limit left tickets =
    let found =
      tickets ++ tickets_of (filter (has_status status) (take (q.examined limit left) left)) in
    let next = pages fuel q status limit (drop (q.examined limit left) left) found in
    elim (q.fault left) [
      | some e ↦ some (err e)
      | none ↦ if leb limit (length found) || not (q.more limit left) then some (ok found) else next
    ]

abbrev pub or_else : {A : Type 0} → Option A → Option A → Option A
or_else none b = b
or_else (some a) b = some a

abbrev pub oriented :
    Bool → Option (Result Error (List Ticket)) → Option (Result Error (List Ticket))
oriented reverse_output none = none
oriented reverse_output (some (err e)) = some (err e)
oriented reverse_output (some (ok tickets)) =
    some (ok (if reverse_output then reverse tickets else tickets))

-- The rows left are fewer at each query.
unfoldable pub list_tickets :
    TicketIndex → Text → TicketListFilter → ListTicketsPage → Option (Result Error (List Ticket))
unfolding pages
list_tickets q instance_id listed page =
    let (scan_forward, reverse_output) =
      page_scan_direction (is_some page.after) (is_some page.before) page.descending in
    let rows =
      q.rows (index_name listed) (key_value instance_id listed) scan_forward
        (or_else page.after page.before) in
    oriented reverse_output (pages (suc (length rows)) q (status_filter listed) page.limit rows [])
