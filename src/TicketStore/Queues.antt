-- ===== src/TicketStore/Queues.antt =====
-- The listings of api/src/dynamodb.rs as queues of tickets: what each filter means of a ticket, and
-- the pages of `list_tickets`.
use microticket.Prelude.{
  Text, Bool, true, false, not, ◌&&◌, Option, none, some, ◌≡◌, refl, sym, ◌∙◌, arith, text_eq,
  text_eq_iff, Lacks, &&-true,
}
use microticket.Tickets.{
  TicketStatus, «open», closed, deleted, as_str, composite, is_deleted, compute_ticket_markers,
}
use microticket.Tickets.Markers.{composite_injective, instance_status_lem}
use microticket.Inbound.{Ticket}
use microticket.TicketStore.{TicketRow}
use microticket.TicketStore.Markers.{IsIndexed}
use microticket.TicketStore.Listing.{
  TicketListFilter, by_status, visible, assigned_to, index_name, key_value, status_filter,
  attribute, is_under, has_status,
}

abbrev pub same_status : TicketStatus → TicketStatus → Bool
same_status a b = text_eq (as_str a) (as_str b)

abbrev pub is_assignee : Text → Option Text → Bool
is_assignee u none = false
is_assignee u (some v) = text_eq v u

abbrev pub allowed : Option TicketStatus → TicketStatus → Bool
allowed none s = true
allowed (some want) s = same_status s want

-- The tickets that a listing of an instance is of.
abbrev pub in_queue : Text → TicketListFilter → Ticket → Bool
in_queue inst (by_status s) t = text_eq t.instance_id inst && same_status t.status s
in_queue inst visible t = text_eq t.instance_id inst && not (is_deleted t.status)
in_queue inst (assigned_to u s) t =
    text_eq t.instance_id inst
    && not (is_deleted t.status)
    && is_assignee u t.assignee_user_id
    && allowed s t.status

bool_eq : (a b : Bool) → (a ≡ true → b ≡ true) → (b ≡ true → a ≡ true) → a ≡ b
bool_eq true true f g = refl
bool_eq true false f g = sym (f refl)
bool_eq false true f g = g refl
bool_eq false false f g = refl

composite_test :
    (a b c d : Text)
    → Lacks b'#' a
    → Lacks b'#' c
    → text_eq (composite a b) (composite c d) ≡ (text_eq a c && text_eq b d)
composite_test a b c d h h' =
    bool_eq (text_eq (composite a b) (composite c d)) (text_eq a c && text_eq b d)
      (λ e.
        let (x, y) =
          composite_injective a b c d h h' ((text_eq_iff (composite a b) (composite c d)).0 e) in
        rw ((text_eq_iff a c).1 x, (text_eq_iff b d).1 y) refl)
      (λ e.
        let (x, y) = &&-true (text_eq a c) (text_eq b d) e in
        let p : a ≡ c = (text_eq_iff a c).0 x in
        let q : b ≡ d = (text_eq_iff b d).0 y in
        (text_eq_iff (composite a b) (composite c d)).1 (rw (p, q) refl))

-- The markers of a ticket, tested for a key.
module _ (i inst : Text) (h : Lacks b'#' i) (h' : Lacks b'#' inst) where
  visible_test :
      (st : TicketStatus) (assignee : Option Text)
      → is_under inst (compute_ticket_markers i st assignee).instance_visible
        ≡ (text_eq i inst && not (is_deleted st))
  unfolding compute_ticket_markers
  visible_test «open» assignee = ground arith
  visible_test closed assignee = ground arith
  visible_test deleted assignee = ground arith

  assignee_test :
      (st : TicketStatus) (assignee : Option Text) (u : Text)
      → is_under (composite inst u) (compute_ticket_markers i st assignee).instance_assignee
        ≡ (text_eq i inst && not (is_deleted st) && is_assignee u assignee)
  unfolding compute_ticket_markers
  assignee_test «open» none u = ground arith
  assignee_test closed none u = ground arith
  assignee_test deleted none u = ground arith
  assignee_test «open» (some v) u = composite_test i v inst u h h' ∙ ground arith
  assignee_test closed (some v) u = composite_test i v inst u h h' ∙ ground arith
  assignee_test deleted (some v) u = ground arith

-- The key condition and the filter of a query, together.
abbrev pub selects : Text → TicketListFilter → TicketRow → Bool
selects inst f r =
    is_under (key_value inst f) (attribute (index_name f) r) && has_status (status_filter f) r

pub selects_test :
    (k inst : Text) (f : TicketListFilter) (r : TicketRow)
    → IsIndexed k r
    → Lacks b'#' r.ticket.instance_id
    → Lacks b'#' inst
    → selects inst f r ≡ in_queue inst f r.ticket
selects_test k inst (by_status s) r (_, status, _, _, _) h h' =
    rw
      (
        status,
        instance_status_lem r.ticket.instance_id r.ticket.assignee_user_id r.ticket.status,
        composite_test r.ticket.instance_id (as_str r.ticket.status) inst (as_str s) h h',
      )
      (ground arith)
selects_test k inst visible r (_, _, seen, _, _) h h' =
    rw (seen, visible_test r.ticket.instance_id inst h h' r.ticket.status r.ticket.assignee_user_id)
      (ground arith)
selects_test k inst (assigned_to u none) r (_, _, _, assignee, _) h h' =
    rw
      (
        assignee,
        assignee_test r.ticket.instance_id inst h h' r.ticket.status r.ticket.assignee_user_id u,
      )
      (ground arith)
selects_test k inst (assigned_to u (some s)) r (_, _, _, assignee, _) h h' =
    rw
      (
        assignee,
        assignee_test r.ticket.instance_id inst h h' r.ticket.status r.ticket.assignee_user_id u,
      )
      (ground arith)
