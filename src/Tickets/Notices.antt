-- ===== src/Tickets/Notices.antt =====
-- Who is told, and what (api/src/staff_notify.rs, api/src/outbound.rs).
use microticket.Prelude.{
  Text, true, false, not, ◌&&◌, Option, none, some, List, [], ◌∷◌, ◌≡◌, ◌≢◌, ◌↔◌, ◌⊎◌, refl, arith,
  inl, inr, Bool-cases, Option-cases, &&-true, sym, ap, ◌∙◌, subst,
}
use microticket.Tickets.{
  TicketStatus, «open», closed, deleted, Membership, User, Actor, StaffEvent, Recipient, Reason,
  recipient, reason_for, is_actor, selected, select_recipients, push_recipient,
}
use microticket.Tickets.Reasons.{IsActor, Due, reason_for_iff, is_actor-false}

module _ {A : Type 0} where
  abbrev pub In : A → List A → Type 0
  In x [] = ⊥
  In x (y ∷ l) = (x ≡ y) ⊎ In x l

module _ (assignee : Option Text) (actor : Actor) (event : StaffEvent) (r : Recipient) where
  -- A candidate who is to be told, and why.
  pub record Told (candidates : List (Membership × User)) : Type 0 where
    pub membership : Membership
    pub user : User
    pub candidate : In (membership, user) candidates
    pub enabled : user.enabled ≡ true
    pub other : IsActor user actor → ⊥
    pub reason : Due membership.notification_settings user assignee event r.reason
    pub as_recipient : r ≡ recipient user r.reason

  Told-later :
      (c : Membership × User) (candidates : List (Membership × User))
      → Told candidates
      → Told (c ∷ candidates)
  Told-later c candidates t = record {
    membership = t.membership;
    user = t.user;
    candidate = inr t.candidate;
    enabled = t.enabled;
    other = t.other;
    reason = t.reason;
    as_recipient = t.as_recipient;
  }

  -- The filter and the reason of one candidate.
  data Step (m : Membership) (u : User) (rest : List Recipient) (l : List Recipient) : Type 0 where
    skipped :
        (u.enabled && not (is_actor u actor) ≡ true → reason_for m u assignee event ≡ none)
        → l ≡ rest
        → Step m u rest l
    taken :
        (reason : Reason)
        → u.enabled ≡ true
        → is_actor u actor ≡ false
        → reason_for m u assignee event ≡ some reason
        → l ≡ recipient u reason ∷ rest
        → Step m u rest l

  step :
      (m : Membership) (u : User) (candidates : List (Membership × User))
      → Step m u
          (selected candidates assignee actor event)
          (selected ((m, u) ∷ candidates) assignee actor event)
  step m u candidates = elim (Bool-cases (u.enabled && not (is_actor u actor))) [
    | inr e ↦ skipped (λ e'. absurd (true≢false (sym e' ∙ e))) (rw e refl)
    | inl e ↦ elim (Option-cases (reason_for m u assignee event)) [
      | inl n ↦
          skipped (λ _. n)
            (rw e (ap (λ o. push_recipient u o (selected candidates assignee actor event)) n))
      | inr (reason, n) ↦
          taken reason (&&-true u.enabled (not (is_actor u actor)) e).0 (ground arith) n
            (rw e (ap (λ o. push_recipient u o (selected candidates assignee actor event)) n))
    ]
  ]
    where
      true≢false : true ≡ false → ⊥
      true≢false e = cc

  selected_sound :
      (candidates : List (Membership × User))
      → In r (selected candidates assignee actor event)
      → Told candidates
  selected_sound [] h = absurd h
  selected_sound ((m, u) ∷ candidates) h = elim (step m u candidates) [
    | skipped n e ↦ Told-later (m, u) candidates (selected_sound candidates (subst (In r) e h))
    | taken reason enabled other n e ↦ elim (subst (In r) e h) [
      | inr later ↦ Told-later (m, u) candidates (selected_sound candidates later)
      | inl same ↦ record {
        membership = m;
        user = u;
        candidate = inl refl;
        enabled = enabled;
        other = (is_actor-false u actor).0 other;
        reason = (reason_for_iff m u assignee event r.reason).0 (rw same n);
        as_recipient = rw same refl;
      }
    ]
  ]

  selected_complete :
      (candidates : List (Membership × User)) (m : Membership) (u : User)
      → In (m, u) candidates
      → u.enabled ≡ true
      → is_actor u actor ≡ false
      → reason_for m u assignee event ≡ some r.reason
      → r ≡ recipient u r.reason
      → In r (selected candidates assignee actor event)
  selected_complete [] m u h enabled other n same = absurd h
  selected_complete ((m', u') ∷ candidates) m u (inr h) enabled other n same =
      let later = selected_complete candidates m u h enabled other n same in
      elim (step m' u' candidates) [
        | skipped n' e ↦ subst (In r) (sym e) later
        | taken reason _ _ _ e ↦ subst (In r) (sym e) (inr later)
      ]
  selected_complete ((m', u') ∷ candidates) m u (inl h) enabled other n same =
      let em : m ≡ m' = ap (λ (p : Membership × User). p.0) h in
      let eu : u ≡ u' = ap (λ (p : Membership × User). p.1) h in
      let n' : reason_for m' u' assignee event ≡ some r.reason = rw (← em, ← eu) n in
      let pass : u'.enabled && not (is_actor u' actor) ≡ true =
        rw (← eu) (rw (enabled, other) refl) in
      elim (step m' u' candidates) [
        | skipped none_here e ↦ absurd (none≢some (sym (none_here pass) ∙ n'))
        | taken reason _ _ here e ↦
            let is : reason ≡ r.reason = some_same (sym here ∙ n') in
            subst (In r) (sym e) (inl (same ∙ rw (eu, is) refl))
      ]
    where
      none≢some : {x : Reason} → none ≡ some x → ⊥
      none≢some e = cc

      some_same : {x y : Reason} → some x ≡ some y → x ≡ y
      some_same e = cc

  -- The recipients of a notice are, of a ticket that is not deleted, exactly the enabled candidates
  -- who did not do it themselves (by id or by address) and to whom the event is due under their
  -- settings, each with the reason; of a deleted ticket there are none.
  pub select_recipients_iff :
      (candidates : List (Membership × User)) (status : TicketStatus)
      → In r (select_recipients candidates status assignee actor event)
        ↔ ((status ≢ deleted) × Told candidates)
  unfolding select_recipients
  select_recipients_iff candidates «open» = (
    λ h. (λ e. cc, selected_sound candidates h),
    λ (n, t).
        selected_complete candidates t.membership t.user t.candidate t.enabled
          ((is_actor-false t.user actor).1 t.other)
          ((reason_for_iff t.membership t.user assignee event r.reason).1 t.reason) t.as_recipient,
  )
  select_recipients_iff candidates closed = (
    λ h. (λ e. cc, selected_sound candidates h),
    λ (n, t).
        selected_complete candidates t.membership t.user t.candidate t.enabled
          ((is_actor-false t.user actor).1 t.other)
          ((reason_for_iff t.membership t.user assignee event r.reason).1 t.reason) t.as_recipient,
  )
  select_recipients_iff candidates deleted = (λ h. absurd h, λ (n, t). absurd (n refl))
