-- ===== src/Tickets/Reasons.antt =====
-- What a notice is due for (api/src/staff_notify.rs `is_actor`, `reason_for`).
use microticket.Prelude.{
  Text, true, false, Option, none, some, ◌≡◌, ◌≢◌, ◌↔◌, ◌⊎◌, refl, inl, inr, Bool, if◌then◌else◌,
  text_eq, text_eq_iff, Bool-cases, sym, ap, ◌∙◌,
}
use microticket.Tickets.{
  Membership, User, Actor, StaffEvent, Reason, by_user, by_email, ticket_opened, customer_message,
  agent_reply, internal_note, status_changed, assigned, NotificationSettings, assigned_to_me,
  assigned_to_me_updated, unassigned_updated, assigned_to_others_updated, then_some, is_user,
  update_reason, reason_for, is_actor,
}

-- Who did it.
abbrev pub IsActor : User → Actor → Type 0
IsActor user (by_user id) = user.id ≡ id
IsActor user (by_email email) = user.email ≡ email

-- What a member is told of an update: by the assignee of the ticket, if the setting for it is on.
abbrev pub DueUpdate : NotificationSettings → User → Option Text → Reason → Type 0
DueUpdate s user none reason = (reason ≡ unassigned_updated) × (s.unassigned_updated ≡ true)
DueUpdate s user (some assignee) reason =
    ((assignee ≡ user.id) × ((reason ≡ assigned_to_me_updated) × (s.assigned_to_me_updated ≡ true)))
    ⊎ ((assignee ≢ user.id)
        × ((reason ≡ assigned_to_others_updated) × (s.assigned_to_others_updated ≡ true)))

-- What a member is told of an event, if the setting for it is on: of a new ticket; of an assignment,
-- the new assignee and the old one; of all else, by the assignee.
abbrev pub Due : NotificationSettings → User → Option Text → StaffEvent → Reason → Type 0
Due s user assignee (ticket_opened requester) reason =
    (reason ≡ Reason.new_ticket) × (s.new_ticket ≡ true)
Due s user assignee (assigned old new) reason =
    ((new ≡ some user.id) × ((reason ≡ assigned_to_me) × (s.assigned_to_me ≡ true)))
    ⊎ ((new ≢ some user.id)
        × (old ≡ some user.id)
        × ((reason ≡ assigned_to_me_updated) × (s.assigned_to_me_updated ≡ true)))
Due s user assignee (customer_message sender reopened) reason = DueUpdate s user assignee reason
Due s user assignee agent_reply reason = DueUpdate s user assignee reason
Due s user assignee internal_note reason = DueUpdate s user assignee reason
Due s user assignee (status_changed old new) reason = DueUpdate s user assignee reason

then_some_iff :
    (b : Bool) (r reason : Reason) → (then_some b r ≡ some reason) ↔ ((reason ≡ r) × (b ≡ true))
then_some_iff true r reason = (λ e. (sym (some_reason e), refl), λ (e, _). ap some (sym e))
  where
    some_reason : {x y : Reason} → some x ≡ some y → x ≡ y
    some_reason e = cc
then_some_iff false r reason = (λ e. cc, λ (_, e). cc)

is_user_iff : (user : User) (o : Option Text) → (is_user user o ≡ true) ↔ (o ≡ some user.id)
is_user_iff user none = (λ e. cc, λ e. cc)
is_user_iff user (some id) = (
  λ e. ap some (sym ((text_eq_iff user.id id).0 e)),
  λ e. (text_eq_iff user.id id).1 (sym (some_text e)),
)
  where
    some_text : {x y : Text} → some x ≡ some y → x ≡ y
    some_text e = cc

update_reason_iff :
    (s : NotificationSettings) (user : User) (assignee : Option Text) (reason : Reason)
    → (update_reason s user assignee ≡ some reason) ↔ DueUpdate s user assignee reason
update_reason_iff s user none reason = then_some_iff s.unassigned_updated unassigned_updated reason
update_reason_iff s user (some a) reason =
    let mine = then_some_iff s.assigned_to_me_updated assigned_to_me_updated reason in
    let others = then_some_iff s.assigned_to_others_updated assigned_to_others_updated reason in
    elim (Bool-cases (text_eq a user.id)) [
      | inl same ↦
          let is = (text_eq_iff a user.id).0 same in
          rw same (
            λ e. inl (is, mine.0 e),
            λ d. elim d [ inl (_, due) ↦ mine.1 due | inr (no_one, _) ↦ absurd (no_one is) ],
          )
      | inr other ↦
          let isnt : a ≢ user.id = λ is. true≢false (sym ((text_eq_iff a user.id).1 is) ∙ other) in
          rw other (
            λ e. inr (isnt, others.0 e),
            λ d. elim d [ inl (is, _) ↦ absurd (isnt is) | inr (_, due) ↦ others.1 due ],
          )
    ]
  where
    true≢false : true ≡ false → ⊥
    true≢false e = cc

assigned_iff :
    (s : NotificationSettings) (user : User) (old new : Option Text) (reason : Reason)
    → ((if is_user user new
          then then_some s.assigned_to_me assigned_to_me
          else if is_user user old
          then then_some s.assigned_to_me_updated assigned_to_me_updated
          else none)
        ≡ some reason)
      ↔ (((new ≡ some user.id) × ((reason ≡ assigned_to_me) × (s.assigned_to_me ≡ true)))
          ⊎ ((new ≢ some user.id)
              × (old ≡ some user.id)
              × ((reason ≡ assigned_to_me_updated) × (s.assigned_to_me_updated ≡ true))))
assigned_iff s user old new reason =
    let mine = then_some_iff s.assigned_to_me assigned_to_me reason in
    let gone = then_some_iff s.assigned_to_me_updated assigned_to_me_updated reason in
    elim (Bool-cases (is_user user new)) [
      | inl same ↦
          let is = (is_user_iff user new).0 same in
          rw same (
            λ e. inl (is, mine.0 e),
            λ d. elim d [ inl (_, due) ↦ mine.1 due | inr (no_one, _, _) ↦ absurd (no_one is) ],
          )
      | inr other ↦
          let isnt : new ≢ some user.id =
            λ is. true≢false (sym ((is_user_iff user new).1 is) ∙ other) in
          elim (Bool-cases (is_user user old)) [
            | inl was ↦
                rw (other, was)
                  (
                    λ e. inr (isnt, (is_user_iff user old).0 was, gone.0 e),
                    λ d. elim d [ inl (is, _) ↦ absurd (isnt is) | inr (_, _, due) ↦ gone.1 due ],
                  )
            | inr never ↦
                rw (other, never)
                  (
                    λ e. absurd (none≢some e),
                    λ d. elim d [
                      | inl (is, _) ↦ absurd (isnt is)
                      | inr (_, was, _) ↦
                          absurd (true≢false (sym ((is_user_iff user old).1 was) ∙ never))
                    ],
                  )
          ]
    ]
  where
    true≢false : true ≡ false → ⊥
    true≢false e = cc

    none≢some : none ≡ some reason → ⊥
    none≢some e = cc

pub reason_for_iff :
    (m : Membership) (user : User) (assignee : Option Text) (event : StaffEvent) (reason : Reason)
    → (reason_for m user assignee event ≡ some reason)
      ↔ Due m.notification_settings user assignee event reason
reason_for_iff m user assignee (ticket_opened requester) reason =
    then_some_iff m.notification_settings.new_ticket Reason.new_ticket reason
reason_for_iff m user assignee (assigned old new) reason =
    assigned_iff m.notification_settings user old new reason
reason_for_iff m user assignee (customer_message sender reopened) reason =
    update_reason_iff m.notification_settings user assignee reason
reason_for_iff m user assignee agent_reply reason =
    update_reason_iff m.notification_settings user assignee reason
reason_for_iff m user assignee internal_note reason =
    update_reason_iff m.notification_settings user assignee reason
reason_for_iff m user assignee (status_changed old new) reason =
    update_reason_iff m.notification_settings user assignee reason

is_actor_iff : (user : User) (actor : Actor) → (is_actor user actor ≡ true) ↔ IsActor user actor
is_actor_iff user (by_user id) = text_eq_iff user.id id
is_actor_iff user (by_email email) = text_eq_iff user.email email

pub is_actor-false :
    (user : User) (actor : Actor) → (is_actor user actor ≡ false) ↔ (IsActor user actor → ⊥)
is_actor-false user actor = (
  λ e did. true≢false (sym ((is_actor_iff user actor).1 did) ∙ e),
  λ other. elim (Bool-cases (is_actor user actor)) [
    | inl did ↦ absurd (other ((is_actor_iff user actor).0 did))
    | inr not_it ↦ not_it
  ],
)
  where
    true≢false : true ≡ false → ⊥
    true≢false e = cc
