-- ===== src/Tickets.antt =====
-- Tickets and who is told of them: the status, the sparse index markers and the notification settings
-- (api/src/db.rs), the recipients of a staff notice (api/src/staff_notify.rs), and the customer's
-- notice and the threading headers (api/src/outbound.rs). Of a
-- ticket's message the record has the attributes that threading reads.
pub mod Markers
pub mod Reasons
pub mod Notices
pub mod Threads
use microticket.Prelude.{
  ℕ, Text, Bool, true, false, not, ◌&&◌, ◌||◌, Option, none, some, List, [], ◌∷◌, ◌++◌, text_eq,
  is_empty, if◌then◌else◌, codes, trim, is_some,
}

pub data TicketStatus : Type 0 where
  «open» closed deleted : TicketStatus

abbrev pub as_str : TicketStatus → Text
as_str «open» = codes "open"
as_str closed = codes "closed"
as_str deleted = codes "deleted"

abbrev pub is_deleted : TicketStatus → Bool
is_deleted deleted = true
is_deleted _ = false

abbrev pub is_open : TicketStatus → Bool
is_open «open» = true
is_open _ = false

abbrev pub parse_status : Text → Option TicketStatus
parse_status s =
    if text_eq s (codes "open")
    then some «open»
    else if text_eq s (codes "closed")
    then some closed
    else if text_eq s (codes "deleted")
    then some deleted
    else none

pub record TicketMarkers : Type 0 where
  pub instance_status : Text
  pub instance_visible : Option Text
  pub instance_assignee : Option Text

-- `{a}#{b}`
abbrev pub composite : Text → Text → Text
composite a b = a ++ b'#' ∷ b

abbrev pub assignee_marker : Text → Option Text → Option Text
assignee_marker instance_id none = none
assignee_marker instance_id (some uid) = some (composite instance_id uid)

unfoldable pub compute_ticket_markers : Text → TicketStatus → Option Text → TicketMarkers
compute_ticket_markers instance_id status assignee_user_id =
    if is_deleted status
    then record {
      instance_status = composite instance_id (as_str status);
      instance_visible = none;
      instance_assignee = none;
    }
    else record {
      instance_status = composite instance_id (as_str status);
      instance_visible = some instance_id;
      instance_assignee = assignee_marker instance_id assignee_user_id;
    }

pub record NotificationSettings : Type 0 where
  pub new_ticket : Bool
  pub assigned_to_me : Bool
  pub assigned_to_me_updated : Bool
  pub unassigned_updated : Bool
  pub assigned_to_others_updated : Bool

abbrev pub default_settings : NotificationSettings
default_settings = record {
  new_ticket = true;
  assigned_to_me = true;
  assigned_to_me_updated = true;
  unassigned_updated = true;
  assigned_to_others_updated = false;
}

pub record NotificationSettingsPatch : Type 0 where
  pub new_ticket : Option Bool
  pub assigned_to_me : Option Bool
  pub assigned_to_me_updated : Option Bool
  pub unassigned_updated : Option Bool
  pub assigned_to_others_updated : Option Bool

abbrev pub unwrap_or : Option Bool → Bool → Bool
unwrap_or none d = d
unwrap_or (some b) d = b

unfoldable pub is_empty_patch : NotificationSettingsPatch → Bool
is_empty_patch p =
    not (is_some p.new_ticket)
    && not (is_some p.assigned_to_me)
    && not (is_some p.assigned_to_me_updated)
    && not (is_some p.unassigned_updated)
    && not (is_some p.assigned_to_others_updated)

unfoldable pub merged_onto : NotificationSettingsPatch → NotificationSettings → NotificationSettings
merged_onto p current = record {
  new_ticket = unwrap_or p.new_ticket current.new_ticket;
  assigned_to_me = unwrap_or p.assigned_to_me current.assigned_to_me;
  assigned_to_me_updated = unwrap_or p.assigned_to_me_updated current.assigned_to_me_updated;
  unassigned_updated = unwrap_or p.unassigned_updated current.unassigned_updated;
  assigned_to_others_updated =
      unwrap_or p.assigned_to_others_updated current.assigned_to_others_updated;
}

pub record User : Type 0 where
  pub id : Text
  pub email : Text
  pub name : Text
  pub enabled : Bool
  pub created_at : ℕ
  pub access_time : Option ℕ
  pub superuser : Bool

pub data MembershipRole : Type 0 where
  owner agent : MembershipRole

pub record Membership : Type 0 where
  pub id : Text
  pub user_id : Text
  pub instance_id : Text
  pub role : MembershipRole
  pub notification_settings : NotificationSettings

pub data Actor : Type 0 where
  by_user by_email : Text → Actor

pub data Reason : Type 0 where
  new_ticket assigned_to_me assigned_to_me_updated unassigned_updated assigned_to_others_updated :
      Reason

pub record Recipient : Type 0 where
  pub user_id : Text
  pub email : Text
  pub name : Text
  pub reason : Reason

pub data StaffEvent : Type 0 where
  ticket_opened : Text → StaffEvent
  customer_message : Text → Bool → StaffEvent
  agent_reply internal_note : StaffEvent
  status_changed : TicketStatus → TicketStatus → StaffEvent
  assigned : Option Text → Option Text → StaffEvent

abbrev pub is_actor : User → Actor → Bool
is_actor user (by_user id) = text_eq user.id id
is_actor user (by_email email) = text_eq user.email email

abbrev pub then_some : Bool → Reason → Option Reason
then_some true r = some r
then_some false r = none

abbrev pub is_user : User → Option Text → Bool
is_user user none = false
is_user user (some id) = text_eq user.id id

abbrev pub update_reason : NotificationSettings → User → Option Text → Option Reason
update_reason s user none = then_some s.unassigned_updated unassigned_updated
update_reason s user (some assignee) =
    if text_eq assignee user.id
    then then_some s.assigned_to_me_updated assigned_to_me_updated
    else then_some s.assigned_to_others_updated assigned_to_others_updated

abbrev pub reason_for : Membership → User → Option Text → StaffEvent → Option Reason
reason_for m user assignee (ticket_opened requester) =
    then_some m.notification_settings.new_ticket Reason.new_ticket
reason_for m user assignee (assigned old new) =
    if is_user user new
    then then_some m.notification_settings.assigned_to_me Reason.assigned_to_me
    else if is_user user old
    then then_some m.notification_settings.assigned_to_me_updated Reason.assigned_to_me_updated
    else none
reason_for m user assignee (customer_message sender reopened) =
    update_reason m.notification_settings user assignee
reason_for m user assignee agent_reply = update_reason m.notification_settings user assignee
reason_for m user assignee internal_note = update_reason m.notification_settings user assignee
reason_for m user assignee (status_changed old new) =
    update_reason m.notification_settings user assignee

abbrev pub recipient : User → Reason → Recipient
recipient user reason = record {
  user_id = user.id;
  email = user.email;
  name = user.name;
  reason = reason;
}

abbrev pub push_recipient : User → Option Reason → List Recipient → List Recipient
push_recipient user none rest = rest
push_recipient user (some reason) rest = recipient user reason ∷ rest

-- The two filters and the `filter_map`.
abbrev pub selected : List (Membership × User) → Option Text → Actor → StaffEvent → List Recipient
selected [] assignee actor event = []
selected ((m, user) ∷ candidates) assignee actor event =
    let rest = selected candidates assignee actor event in
    if user.enabled && not (is_actor user actor)
    then push_recipient user (reason_for m user assignee event) rest
    else rest

unfoldable pub select_recipients :
    List (Membership × User) → TicketStatus → Option Text → Actor → StaffEvent → List Recipient
select_recipients candidates ticket_status assignee actor event =
    if is_deleted ticket_status then [] else selected candidates assignee actor event

pub data Notice : Type 0 where
  marked_closed reopened : Notice

unfoldable pub status_notice_body : TicketStatus → TicketStatus → Option Notice
status_notice_body old closed = some marked_closed
status_notice_body old «open» = if not (is_open old) then some reopened else none
status_notice_body old deleted = none

-- The attributes of a `ticket_message` that thread it.
pub record TicketMessage : Type 0 where
  pub rfc_message_id : Option Text
  pub in_reply_to : Option Text
  pub references : Option Text

pub record Threading : Type 0 where
  pub in_reply_to : Option Text
  pub references : Option Text

abbrev pub references_of : Option Text → Text → Text
unfolding trim
references_of none rid = rid
references_of (some existing) rid =
    if not (is_empty (trim existing)) then existing ++ b' ' ∷ rid else rid

abbrev pub thread_on : TicketMessage → Threading → Threading
unfolding trim
thread_on m before = elim m.rfc_message_id [
  | none ↦ before
  | some rid ↦ record { in_reply_to = some rid; references = some (references_of m.references rid) }
]

-- Oldest first: the last message with an id is the parent.
abbrev pub threading_from : Threading → List TicketMessage → Threading
unfolding trim
threading_from before [] = before
threading_from before (m ∷ messages) = threading_from (thread_on m before) messages

unfoldable pub threading_for : List TicketMessage → Threading
unfolding threading_from
threading_for messages = threading_from (record { in_reply_to = none; references = none }) messages
