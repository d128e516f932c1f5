-- ===== src/TicketStore/Pages.antt =====
-- The loop of `list_tickets` in api/src/dynamodb.rs, and what a listing answers.
use microticket.Prelude.{
  ℕ, zero, suc, ◌+◌, ◌≤◌, Text, Bool, true, false, not, Option, none, some, List, [], ◌∷◌, ◌++◌,
  ◌≡◌, ◌⊎◌, inl, inr, refl, ap, sym, subst, ◌∙◌, arith, Result, ok, err, if◌then◌else◌, filter,
  take, drop, length, leb, reverse, is_some, All, Lacks, Bool-cases, Option-cases, append_assoc,
  take-drop, length-drop,
}
use microticket.Db.{Error}
use microticket.Tickets.{TicketStatus}
use microticket.Inbound.{Ticket}
use microticket.TicketStore.{TicketRow}
use microticket.TicketStore.Markers.{IsIndexed}
use microticket.TicketStore.Listing.{
  TicketListFilter, TicketCursor, TicketIndex, index_name, key_value, status_filter, attribute,
  is_under, has_status, tickets_of, pages, oriented, list_tickets, page_scan_direction, or_else,
}
use microticket.TicketStore.Queues.{in_queue, selects, selects_test}

drop-all : {A : Type 0} (n : ℕ) (xs : List A) → length xs ≤ n → drop n xs ≡ []
drop-all zero [] h = refl
drop-all zero (x ∷ xs) h = absurd (omega arith)
drop-all (suc n) [] h = refl
drop-all (suc n) (x ∷ xs) h = drop-all n xs (omega arith)

module _ (p : TicketRow → Bool) where
  abbrev pub kept : List TicketRow → List Ticket
  kept rows = tickets_of (filter p rows)

  kept-split :
      (n : ℕ) (rows : List TicketRow) → kept (take n rows) ++ kept (drop n rows) ≡ kept rows
  kept-split zero rows = refl
  kept-split (suc n) [] = refl
  kept-split (suc n) (r ∷ rows) = elim (Bool-cases (p r)) [
    | inl e ↦ rw e (ap (λ l. r.ticket ∷ l) (kept-split n rows))
    | inr e ↦ rw e (kept-split n rows)
  ]

-- `out` is the front of the list: all of it, or as many as the limit at least.
abbrev pub IsPage : ℕ → List Ticket → List Ticket → Type 0
IsPage limit whole out =
    (rest : List Ticket) × (out ++ rest ≡ whole) × ((limit ≤ length out) ⊎ (rest ≡ []))

-- The error of a query for what is left of some rows.
abbrev pub IsFault : TicketIndex → List TicketRow → Error → Type 0
IsFault q rows e =
    (examined left : List TicketRow) × (examined ++ left ≡ rows) × (q.fault left ≡ some e)

IsFault-later :
    (q : TicketIndex) (n : ℕ) (rows : List TicketRow) (e : Error)
    → IsFault q (drop n rows) e
    → IsFault q rows e
IsFault-later q n rows e (examined, left, is, f) = (
  take n rows ++ examined,
  left,
  append_assoc (take n rows) examined left ∙ ap (λ l. take n rows ++ l) is ∙ take-drop n rows,
  f,
)

-- The error of a query, or a page.
abbrev pub Answers :
    TicketIndex → List TicketRow → ℕ → List Ticket → Option (Result Error (List Ticket)) → Type 0
Answers q rows limit whole r =
    ((e : Error) × (r ≡ some (err e)) × IsFault q rows e)
    ⊎ ((out : List Ticket) × (r ≡ some (ok out)) × IsPage limit whole out)

module _ (q : TicketIndex) (status : Option TicketStatus) (limit : ℕ) where
  abbrev gathered : List TicketRow → List Ticket → List Ticket
  gathered left tickets = tickets ++ kept (has_status status) (take (q.examined limit left) left)

  abbrev left_over : List TicketRow → List TicketRow
  left_over left = drop (q.examined limit left) left

  fewer :
      (left : List TicketRow) → q.more limit left ≡ true → length (left_over left) + 1 ≤ length left
  fewer [] m = absurd (true≢false (sym m ∙ q.stops limit))
    where
      true≢false : true ≡ false → ⊥
      true≢false e = cc
  fewer (r ∷ left) m =
      omega
        (arith, length-drop (q.examined limit (r ∷ left)) (r ∷ left), q.advances limit (r ∷ left))

  split :
      (left : List TicketRow) (tickets : List Ticket)
      → gathered left tickets ++ kept (has_status status) (left_over left)
        ≡ tickets ++ kept (has_status status) left
  split left tickets =
      append_assoc tickets _ _
      ∙ ap (λ l. tickets ++ l) (kept-split (has_status status) (q.examined limit left) left)

  later_lem :
      (left : List TicketRow) (whole : List Ticket) (r : Option (Result Error (List Ticket)))
      → Answers q (left_over left) limit whole r
      → Answers q left limit whole r
  later_lem left whole r (inl (e, f, fault)) =
      inl (e, f, IsFault-later q (q.examined limit left) left e fault)
  later_lem left whole r (inr page) = inr page

  pages-Answers :
      (fuel : ℕ) (left : List TicketRow) (tickets : List Ticket)
      → length left + 1 ≤ fuel
      → Answers q left limit
          (tickets ++ kept (has_status status) left)
          (pages fuel q status limit left tickets)
  unfolding pages
  pages-Answers zero left tickets h = absurd (omega arith)
  pages-Answers (suc fuel) left tickets h = elim (Option-cases (q.fault left)) [
    | inr (e, f) ↦ inl (e, rw (pages, f) refl, ([], left, refl, f))
    | inl f ↦ elim (Bool-cases (leb limit (length (gathered left tickets)))) [
      | inl enough ↦ inr (
        gathered left tickets,
        rw (pages, f, enough) refl,
        (kept (has_status status) (left_over left), split left tickets, inl (ground arith)),
      )
      | inr few ↦ elim (Bool-cases (q.more limit left)) [
        | inr last ↦ inr (
          gathered left tickets,
          rw (pages, f, few, last) refl,
          (
            [],
            ap (λ l. gathered left tickets ++ kept (has_status status) l)
                  (sym (drop-all (q.examined limit left) left (q.ends limit left last)))
                ∙ split left tickets,
            inr refl,
          ),
        )
        | inl goes_on ↦
            rw (pages, f, few, goes_on)
              (later_lem left _ _ (
                subst
                  (λ l.
                    Answers q (left_over left) limit l
                      (pages fuel q status limit (left_over left) (gathered left tickets)))
                  (split left tickets)
                  (pages-Answers fuel (left_over left) (gathered left tickets)
                    (omega (arith, fewer left goes_on)))))
      ]
    ]
  ]

-- Filtering by the key and then by the status is filtering for the queue.
queue_lem :
    (inst : Text) (f : TicketListFilter) (rows : List TicketRow)
    → Lacks b'#' inst
    → All (λ (r : TicketRow). IsIndexed r.ticket.id r × Lacks b'#' r.ticket.instance_id) rows
    → kept
        (has_status (status_filter f))
        (filter (λ r. is_under (key_value inst f) (attribute (index_name f) r)) rows)
      ≡ kept (λ r. in_queue inst f r.ticket) rows
queue_lem inst f [] h all = refl
queue_lem inst f (r ∷ rows) h ((indexed, lacks), all) =
    let same : selects inst f r ≡ in_queue inst f r.ticket =
      selects_test r.ticket.id inst f r indexed lacks h in
    rw (← same) (elim (Bool-cases (is_under (key_value inst f) (attribute (index_name f) r))) [
      | inr e ↦ rw e (queue_lem inst f rows h all)
      | inl e ↦ elim (Bool-cases (has_status (status_filter f) r)) [
        | inr g ↦ rw (e, g) (queue_lem inst f rows h all)
        | inl g ↦ rw (e, g) (ap (λ l. r.ticket ∷ l) (queue_lem inst f rows h all))
      ]
    ])

-- The stored rows that a page is taken from, from its cursor on: those behind `after`, or from the
-- start, in the order of the display, ascending or descending; those ahead of `before`, nearest first,
-- so in the opposite order.
abbrev pub scanned : TicketIndex → Option TicketCursor → Option TicketCursor → Bool → List TicketRow
scanned q (some c) before descending = q.ordered (not descending) (some c)
scanned q none (some c) descending = q.ordered descending (some c)
scanned q none none descending = q.ordered (not descending) none

-- The tickets as they are shown: those ahead of `before` are turned around.
abbrev pub shown : Option TicketCursor → Option TicketCursor → List Ticket → List Ticket
shown none (some c) out = reverse out
shown none none out = out
shown (some c) before out = out

scan_lem :
    (q : TicketIndex) (after before : Option TicketCursor) (descending : Bool)
    → q.ordered
        (page_scan_direction (is_some after) (is_some before) descending).0
        (or_else after before)
      ≡ scanned q after before descending
scan_lem q (some c) before descending = refl
scan_lem q none (some c) descending = refl
scan_lem q none none descending = refl

shown_lem :
    (after before : Option TicketCursor) (descending : Bool) (out : List Ticket)
    → (if (page_scan_direction (is_some after) (is_some before) descending).1
        then reverse out
        else out)
      ≡ shown after before out
shown_lem (some c) none descending out = refl
shown_lem (some c) (some d) descending out = refl
shown_lem none (some c) descending out = refl
shown_lem none none descending out = refl

oriented_lem :
    (q : TicketIndex) (rows : List TicketRow) (turned : Bool) (limit : ℕ)
    (whole whole' : List Ticket) (after before : Option TicketCursor)
    → whole ≡ whole'
    → ((out : List Ticket) → (if turned then reverse out else out) ≡ shown after before out)
    → (r : Option (Result Error (List Ticket))) → Answers q rows limit whole r
    → ((e : Error) × (oriented turned r ≡ some (err e)) × IsFault q rows e)
      ⊎ ((out : List Ticket) × (oriented turned r ≡ some (ok (shown after before out)))
          × IsPage limit whole' out)
oriented_lem q rows turned limit whole whole' after before same turns r (inl (e, f, fault)) =
    inl (e, rw f refl, fault)
oriented_lem q rows turned limit whole whole' after before same turns r
      (inr (out, f, (rest, g, size))) =
    inr (out, rw f (ap (λ l. some (ok l)) (turns out)), (rest, g ∙ same, size))

-- Those of some rows that the index of a filter has under its key.
abbrev pub rows_under : Text → TicketListFilter → List TicketRow → List TicketRow
rows_under inst f = filter (λ r. is_under (key_value inst f) (attribute (index_name f) r))

-- In the stored tickets that a page is taken from, the index attributes are those of the tickets, and
-- ids of instances have no `#`. Then `list_tickets` is done after finitely many queries: it answers
-- with the error of one of them, for what was left of the rows, or with the tickets of the queue among
-- the rows in the order of the display, as many as the limit at least or all of them, turned around if
-- there is only a `before` cursor. The queue of a status has the instance's tickets of that status, the
-- visible queue those that are not deleted, and the queue of a user those of them that are assigned to
-- the user, of one status if one is given.
pub list_tickets_refines :
    (q : TicketIndex) (inst : Text) (f : TicketListFilter) (after before : Option TicketCursor)
    (limit : ℕ) (descending : Bool)
    → Lacks b'#' inst
    → All
        (λ (r : TicketRow). IsIndexed r.ticket.id r × Lacks b'#' r.ticket.instance_id)
        (scanned q after before descending)
    → ((e : Error) × (list_tickets q inst f
            record { after = after; before = before; limit = limit; descending = descending }
          ≡ some (err e))
        × IsFault q (rows_under inst f (scanned q after before descending)) e)
      ⊎ ((out : List Ticket) × (list_tickets q inst f
              record { after = after; before = before; limit = limit; descending = descending }
            ≡ some (ok (shown after before out)))
          × IsPage limit
              (kept (λ r. in_queue inst f r.ticket) (scanned q after before descending))
              out)
unfolding list_tickets
list_tickets_refines q inst f after before limit descending h all =
    let (forward, turned) = page_scan_direction (is_some after) (is_some before) descending in
    let start = or_else after before in
    let rows = q.rows (index_name f) (key_value inst f) forward start in
    let same = scan_lem q after before descending in
    let asked : rows ≡ rows_under inst f (scanned q after before descending) =
      q.sparse (index_name f) (key_value inst f) forward start ∙ ap (rows_under inst f) same in
    let queue : kept (has_status (status_filter f)) rows
        ≡ kept (λ r. in_queue inst f r.ticket) (scanned q after before descending) =
      rw (q.sparse (index_name f) (key_value inst f) forward start, same)
        (queue_lem inst f (scanned q after before descending) h all) in
    elim (oriented_lem q rows turned limit _ _ after before queue
      (shown_lem after before descending) _
      (pages-Answers q (status_filter f) limit (suc (length rows)) rows [] (omega arith))) [
        | inl (e, g, fault) ↦ inl (e, g, subst (λ l. IsFault q l e) asked fault)
        | inr page ↦ inr page
      ]
