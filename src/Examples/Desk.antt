-- ===== src/Examples/Desk.antt =====
-- The theorems on stored tickets (api/src/dynamodb.rs), applied.
use microticket.Prelude.{
  reverse, ◌≤◌, Text, Bool, true, false, Option, none, some, List, [], ◌∷◌, ◌≡◌, ◌⊎◌, refl, sym, ap,
  arith, codes, ok, err, if◌then◌else◌, filter, length, leb,
}
use microticket.Db.{Error}
use microticket.Dynamo.{Answer, committed, refused, failed}
use microticket.Tickets.{«open», deleted, compute_ticket_markers}
use microticket.Inbound.{Ticket}
use microticket.TicketStore.{
  TicketRow, Rows, TicketHandler, written, TicketUpdateShape, create_ticket, update_ticket,
  new_ticket, new_row, changed,
}
use microticket.TicketStore.Markers.{AllIndexed, Request, run, run_all, run_all-AllIndexed}
use microticket.TicketStore.Listing.{
  TicketIndex, TicketListFilter, TicketCursor, list_tickets, is_under, attribute,
}
use microticket.TicketStore.Queues.{in_queue}
use microticket.TicketStore.Pages.{rows_under, IsFault, kept, IsPage, scanned, list_tickets_refines}

abbrev submit_row :
    Rows → Text → (Option TicketRow → Bool) → (Option TicketRow → Option TicketRow) → Answer × Rows
submit_row t k c u = if c (t k) then (committed, written t k u) else (refused, t)

committed_row :
    (b : Bool) (s t t' : Rows)
    → ◌≡◌ {A = Answer × Rows} (if b then (committed, s) else (refused, t)) (committed, t')
    → (b ≡ true) × (t' ≡ s)
committed_row true s t t' e = (refl, sym (ap (λ (x : Answer × Rows). x.1) e))
committed_row false s t t' e = cc

refused_row :
    (b : Bool) (s t t' : Rows)
    → ◌≡◌ {A = Answer × Rows} (if b then (committed, s) else (refused, t)) (refused, t')
    → t' ≡ t
refused_row true s t t' e = cc
refused_row false s t t' e = sym (ap (λ (x : Answer × Rows). x.1) e)

failed_row :
    (b : Bool) (s t t' : Rows) (m : Text)
    → ◌≡◌ {A = Answer × Rows} (if b then (committed, s) else (refused, t)) (failed m, t')
    → ⊥
failed_row true s t t' m e = cc
failed_row false s t t' m e = cc

abbrev desk : TicketHandler
desk = record {
  service = record {
    submit = submit_row;
    committed_means = λ t k c u t' e. committed_row (c (t k)) (written t k u) t t' e;
    refused_means = λ t k c u t' e. refused_row (c (t k)) (written t k u) t t' e;
    failed_means = λ t k c u m t' e. absurd (failed_row (c (t k)) (written t k u) t t' m e);
  };
  read_only = false;
}

-- A ticket is opened, assigned and deleted.
abbrev requests : List Request
requests =
    Request.create (codes "t1") (codes "tok") 5 (codes "i") 1 (codes "Leak") (codes "c@x" ∷ []) []
    ∷ Request.change (codes "t1")
        (TicketUpdateShape.set_status_and_assignee (codes "i") «open» (some (codes "u")) 6)
    ∷ Request.change (codes "t1")
        (TicketUpdateShape.set_status_and_assignee (codes "i") deleted (some (codes "u")) 7)
    ∷ []

run_all-AllIndexed_example : AllIndexed (run_all desk requests (λ _. none))
unfolding run_all run create_ticket update_ticket changed
run_all-AllIndexed_example =
    run_all-AllIndexed desk requests (λ _. none) (tt, (refl, (refl, tt))) (λ _. tt)

abbrev leak : TicketRow
leak = new_row (new_ticket (codes "t1") (codes "tok") 5 (codes "i") 1 (codes "Leak") [] [])

abbrev noise : TicketRow
noise = new_row (new_ticket (codes "t2") (codes "tok") 6 (codes "j") 1 (codes "Noise") [] [])

one_left : (left : List TicketRow) → leb 2 (length left) ≡ false → length left ≤ 1
one_left left e = ground arith

-- Each query examines one row.
abbrev index : TicketIndex
index = record {
  ordered = λ forward start. leak ∷ noise ∷ [];
  rows =
      λ name key forward start. filter (λ r. is_under key (attribute name r)) (leak ∷ noise ∷ []);
  examined = λ limit left. 1;
  more = λ limit left. leb 2 (length left);
  fault = λ left. none;
  sparse = λ name key forward start. refl;
  advances = λ limit left. omega arith;
  ends = λ limit left e. one_left left e;
  stops = λ limit. refl;
}

-- The second page of a descending list, read backwards from its cursor.
abbrev cursor : TicketCursor
cursor = record { last_activity_at = 9; id = codes "t3" }

list_tickets_refines_example :
    ((e : Error) × (list_tickets index
          (codes "i")
          TicketListFilter.visible
          record { after = none; before = some cursor; limit = 2; descending = true }
        ≡ some (err e))
      × IsFault index
          (rows_under (codes "i") TicketListFilter.visible (scanned index none (some cursor) true))
          e)
    ⊎ ((out : List Ticket) × (list_tickets index
            (codes "i")
            TicketListFilter.visible
            record { after = none; before = some cursor; limit = 2; descending = true }
          ≡ some (ok (reverse out)))
        × IsPage 2
            (kept
              (λ r. in_queue (codes "i") TicketListFilter.visible r.ticket)
              (scanned index none (some cursor) true))
            out)
unfolding new_row compute_ticket_markers
list_tickets_refines_example =
    list_tickets_refines index (codes "i") TicketListFilter.visible none (some cursor) 2 true
      ((λ e. cc), tt)
      (
        ((refl, refl, refl, refl, refl), ((λ e. cc), tt)),
        (((refl, refl, refl, refl, refl), ((λ e. cc), tt)), tt),
      )
