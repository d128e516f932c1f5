-- ===== src/TicketStore.antt =====
-- Tickets in the database (api/src/dynamodb.rs, `create_ticket`, `update_ticket`, `list_tickets`): the
-- stored row with the attributes that the sparse indexes are keyed on. The service makes one
-- conditional write of a row; `id`, `token` and `now` are the fresh id, the fresh token and the clock.
pub mod Markers
pub mod Listing
pub mod Queues
pub mod Pages
use microticket.Prelude.{
  ℕ, zero, suc, Text, Bool, true, false, not, ◌&&◌, ◌||◌, Option, none, some, List, [], ◌∷◌, ◌++◌,
  codes, Result, ok, err, if◌then◌else◌, filter, take, drop, length, leb, text_eq, reverse, is_some,
  ◌≡◌, ◌⊎◌, ◌≤◌,
}
use microticket.Decimal.{to_decimal}
use microticket.Db.{Error, not_found, infrastructure, mutation_disabled}
use microticket.Dynamo.{Answer, committed, refused, failed, update}
use microticket.Billing.{is_absent, on_row, set_add, set_delete}
use microticket.Tickets.{
  TicketStatus, «open», as_str, TicketMarkers, compute_ticket_markers, composite,
}
use microticket.Inbound.{Ticket}

pub record TicketRow : Type 0 where
  pub ticket : Ticket
  pub instance_status : Text
  pub instance_visible : Option Text
  pub instance_assignee : Option Text
  pub instance_number : Text

abbrev pub Rows : Type 0
Rows = Text → Option TicketRow

abbrev pub written : Rows → Text → (Option TicketRow → Option TicketRow) → Rows
written t k u = update t k (u (t k))

-- One conditional write of the row under a key: its guarantees are those of Dynamo.
pub record TicketService : Type 0 where
  pub submit :
      Rows
      → Text
      → (Option TicketRow → Bool)
      → (Option TicketRow → Option TicketRow)
      → Answer × Rows
  pub committed_means :
      (t : Rows) (k : Text) (c : Option TicketRow → Bool) (u : Option TicketRow → Option TicketRow)
      (t' : Rows)
      → submit t k c u ≡ (committed, t')
      → (c (t k) ≡ true) × (t' ≡ written t k u)
  pub refused_means :
      (t : Rows) (k : Text) (c : Option TicketRow → Bool) (u : Option TicketRow → Option TicketRow)
      (t' : Rows)
      → submit t k c u ≡ (refused, t')
      → t' ≡ t
  pub failed_means :
      (t : Rows) (k : Text) (c : Option TicketRow → Bool) (u : Option TicketRow → Option TicketRow)
      (e : Text) (t' : Rows)
      → submit t k c u ≡ (failed e, t')
      → (t' ≡ t) ⊎ ((c (t k) ≡ true) × (t' ≡ written t k u))

-- The handler: the service, and whether writes are off.
pub record TicketHandler : Type 0 where
  pub service : TicketService
  pub read_only : Bool

-- The error for a refused condition is given by the caller.
abbrev pub answer : {A : Type 0} → A → Error → Answer × Rows → Result Error A × Rows
answer a e (committed, t) = (ok a, t)
answer a e (refused, t) = (err e, t)
answer a e (failed m, t) = (err (infrastructure m), t)

abbrev pub with_markers : TicketMarkers → TicketRow → TicketRow
with_markers m r = record r {
  instance_status = m.instance_status;
  instance_visible = m.instance_visible;
  instance_assignee = m.instance_assignee;
}

abbrev pub new_ticket : Text → Text → ℕ → Text → ℕ → Text → List Text → List Text → Ticket
new_ticket id token now instance_id number subject requester_emails cc_emails = record {
  id = id;
  instance_id = instance_id;
  number = number;
  subject = subject;
  status = «open»;
  requester_emails = requester_emails;
  cc_emails = cc_emails;
  assignee_user_id = none;
  reply_token = token;
  created_at = now;
  updated_at = now;
  last_activity_at = now;
  has_attachments = false;
}

-- `instance_assignee` is never written at creation.
unfoldable pub new_row : Ticket → TicketRow
unfolding compute_ticket_markers to_decimal
new_row t = record {
  ticket = t;
  instance_status = (compute_ticket_markers t.instance_id «open» none).instance_status;
  instance_visible = (compute_ticket_markers t.instance_id «open» none).instance_visible;
  instance_assignee = none;
  instance_number = composite t.instance_id (to_decimal t.number);
}

unfoldable pub create_ticket :
    TicketHandler
    → Text
    → Text
    → ℕ
    → Text
    → ℕ
    → Text
    → List Text
    → List Text
    → Rows
    → Result Error Ticket × Rows
unfolding new_row
create_ticket h id token now instance_id number subject requester_emails cc_emails t =
    let ticket = new_ticket id token now instance_id number subject requester_emails cc_emails in
    let r =
      answer ticket (infrastructure (codes "conditional check failed"))
        (h.service.submit t id is_absent (λ _. some (new_row ticket))) in
    if h.read_only then (err mutation_disabled, t) else r

pub data TicketUpdateShape : Type 0 where
  set_status_and_assignee : Text → TicketStatus → Option Text → ℕ → TicketUpdateShape
  add_requester remove_requester add_cc remove_cc : Text → ℕ → TicketUpdateShape
  touch : ℕ → TicketUpdateShape
  mark_has_attachments : TicketUpdateShape

abbrev pub touched : ℕ → TicketRow → TicketRow
touched now r = record r { ticket = record r.ticket { updated_at = now; last_activity_at = now } }

-- The update expression of each shape.
unfoldable pub changed : TicketUpdateShape → TicketRow → TicketRow
unfolding compute_ticket_markers
changed (set_status_and_assignee instance_id status assignee now) r =
    with_markers (compute_ticket_markers instance_id status assignee) (record r {
      ticket = record r.ticket {
        status = status;
        assignee_user_id = assignee;
        updated_at = now;
        last_activity_at = now;
      };
    })
changed (add_requester email now) r = touched now (record r {
  ticket = record r.ticket { requester_emails = set_add r.ticket.requester_emails (email ∷ []) };
})
changed (remove_requester email now) r = touched now (record r {
  ticket = record r.ticket { requester_emails = set_delete r.ticket.requester_emails (email ∷ []) };
})
changed (add_cc email now) r =
    touched now (record r {
      ticket = record r.ticket { cc_emails = set_add r.ticket.cc_emails (email ∷ []) };
    })
changed (remove_cc email now) r = touched now (record r {
  ticket = record r.ticket { cc_emails = set_delete r.ticket.cc_emails (email ∷ []) };
})
changed (touch now) r = touched now r
changed mark_has_attachments r = record r { ticket = record r.ticket { has_attachments = true } }

unfoldable pub update_ticket :
    TicketHandler → Text → TicketUpdateShape → Rows → Result Error (Unit {0}) × Rows
unfolding changed
update_ticket h id change t =
    let r =
      answer tt (not_found (codes "Ticket " ++ id))
        (h.service.submit t id is_some (on_row (changed change))) in
    if h.read_only then (err mutation_disabled, t) else r
