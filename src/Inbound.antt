-- ===== src/Inbound.antt =====
-- Which ticket an inbound message belongs to (api/src/inbound/resolution.rs `constant_time_eq`,
-- `ResolutionPlan`, api/src/inbound/pipeline.rs `resolve_ticket`). `utf8` is `str::as_bytes`; the reads
-- of tickets are a record of operations.
pub mod Tokens
pub mod Tenancy
use microticket.Prelude.{
  ℕ, zero, suc, ◌+◌, ◌*◌, ◌/◌, ◌%◌, Text, Bool, true, false, not, Option, none, some, List, [], ◌∷◌,
  ◌==◌, length, text_eq, if◌then◌else◌, Result, ok, err, ◌>>=◌, ◌≡◌, All, ◌++◌, codes,
}
use microticket.Decimal.{to_decimal}
use microticket.Db.{Error, at_most_one}
use microticket.Mail.{ReplyTag}
use microticket.Tickets.{TicketStatus, composite}

pub record Ticket : Type 0 where
  pub id : Text
  pub instance_id : Text
  pub number : ℕ
  pub subject : Text
  pub status : TicketStatus
  pub requester_emails : List Text
  pub cc_emails : List Text
  pub assignee_user_id : Option Text
  pub reply_token : Text
  pub created_at : ℕ
  pub updated_at : ℕ
  pub last_activity_at : ℕ
  pub has_attachments : Bool

-- `x ^ y` and `x | y` on the lowest `width` bits.
abbrev pub xor : ℕ → ℕ → ℕ → ℕ
xor zero x y = 0
xor (suc width) x y = xor width (x / 2) (y / 2) * 2 + (x + y) % 2

abbrev pub or : ℕ → ℕ → ℕ → ℕ
or zero x y = 0
or (suc width) x y = or width (x / 2) (y / 2) * 2 + (x % 2 + y % 2 + 1) / 2

-- The loop over the zipped bytes.
abbrev pub difference : ℕ → List ℕ → List ℕ → ℕ
difference diff [] b = diff
difference diff (x ∷ a) [] = diff
difference diff (x ∷ a) (y ∷ b) = difference (or 8 diff (xor 8 x y)) a b

unfoldable pub constant_time_eq : List ℕ → List ℕ → Bool
constant_time_eq a b = if not (length a == length b) then false else difference 0 a b == 0

pub record ResolutionPlan : Type 0 where
  pub reply_tags : List ReplyTag
  pub message_ids : List Text
  pub subject_number : Option ℕ

-- `get_tickets` of one id, `get_ticket_id_by_rfc_message_id`, and a query of the number index for a key,
-- which answers with ids. A ticket is read under its own id, and the query answers with ids of rows
-- that have the key as their `instance_number`.
pub record TicketReads : Type 0 where
  pub get_ticket : Text → Result Error (Option Ticket)
  pub get_ticket_id_by_rfc_message_id : Text → Result Error (Option Text)
  pub query_number : Text → Result Error (List Text)
  pub instance_number : Text → Text
  pub read_under_id : (id : Text) (t : Ticket) → get_ticket id ≡ ok (some t) → t.id ≡ id
  pub under_key :
      (key : Text) (ids : List Text)
      → query_number key ≡ ok ids
      → All (λ id. instance_number id ≡ key) ids

pub data TicketLookup : Type 0 where
  found : Ticket → TicketLookup
  not_found cross_tenant : TicketLookup

module _ (utf8 : Text → List ℕ) (reads : TicketReads) (instance_id : Text) where
  -- A ticket that was named, by the instance that the mail was routed to.
  abbrev pub in_tenant : Ticket → TicketLookup
  in_tenant t = if not (text_eq t.instance_id instance_id) then cross_tenant else found t

  abbrev pub verified :
      ReplyTag → Option Ticket → Result Error TicketLookup → Result Error TicketLookup
  unfolding constant_time_eq
  verified tag none next = next
  verified tag (some t) next =
      if not (constant_time_eq (utf8 t.reply_token) (utf8 tag.reply_token))
      then next
      else ok (in_tenant t)

  abbrev pub by_tags : List ReplyTag → Result Error TicketLookup → Result Error TicketLookup
  unfolding verified
  by_tags [] next = next
  by_tags (tag ∷ tags) next =
      let rest = by_tags tags next in reads.get_ticket tag.ticket_id >>= λ o. verified tag o rest

  abbrev pub named : Option Ticket → Result Error TicketLookup → Result Error TicketLookup
  named none next = next
  named (some t) next = ok (in_tenant t)

  abbrev pub referred : Option Text → Result Error TicketLookup → Result Error TicketLookup
  referred none next = next
  referred (some id) next = reads.get_ticket id >>= λ o. named o next

  abbrev pub by_messages : List Text → Result Error TicketLookup → Result Error TicketLookup
  by_messages [] next = next
  by_messages (mid ∷ mids) next =
      let rest = by_messages mids next in
      reads.get_ticket_id_by_rfc_message_id mid >>= λ o. referred o rest

  unfoldable pub get_ticket_id_by_instance_number : ℕ → Result Error (Option Text)
  unfolding to_decimal at_most_one
  get_ticket_id_by_instance_number number =
      let key = composite instance_id (to_decimal number) in
      reads.query_number key >>= λ ids.
      at_most_one ids (codes "Multiple tickets share instance_number " ++ key)

  abbrev pub numbered_ticket : Option Ticket → TicketLookup
  numbered_ticket none = not_found
  numbered_ticket (some t) = found t

  abbrev pub at_number : Option Text → Result Error TicketLookup
  at_number none = ok not_found
  at_number (some id) = reads.get_ticket id >>= λ o. ok (numbered_ticket o)

  abbrev pub by_number : Option ℕ → Result Error TicketLookup
  by_number none = ok not_found
  by_number (some n) = get_ticket_id_by_instance_number n >>= at_number

  unfoldable pub resolve_ticket : ResolutionPlan → Result Error TicketLookup
  unfolding by_tags
  resolve_ticket plan =
      by_tags plan.reply_tags (by_messages plan.message_ids (by_number plan.subject_number))
