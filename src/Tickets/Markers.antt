-- ===== src/Tickets/Markers.antt =====
-- The sparse index markers of a ticket (api/src/db.rs).
use microticket.Prelude.{
  Text, Option, none, some, ◌≡◌, ◌≢◌, ◌↔◌, ◌⊎◌, inl, inr, refl, Lacks, split_once,
  split_once-append, ap, sym, ◌∙◌,
}
use microticket.Tickets.{
  TicketStatus, «open», closed, deleted, as_str, parse_status, composite, assignee_marker,
  compute_ticket_markers,
}

parse_status-as_str : (s : TicketStatus) → parse_status (as_str s) ≡ some s
parse_status-as_str «open» = refl
parse_status-as_str closed = refl
parse_status-as_str deleted = refl

as_str_injective : (s t : TicketStatus) → as_str s ≡ as_str t → s ≡ t
as_str_injective s t e =
    some_injective (sym (parse_status-as_str s) ∙ ap parse_status e ∙ parse_status-as_str t)
  where
    some_injective : some s ≡ some t → s ≡ t
    some_injective h = cc

-- Ids have no `#`, so a composite splits in one way.
pub composite_injective :
    (a b c d : Text)
    → Lacks b'#' a
    → Lacks b'#' c
    → composite a b ≡ composite c d
    → (a ≡ c) × (b ≡ d)
composite_injective a b c d ha hc e =
    let x : Text × Text = (a, b) in
    let y : Text × Text = (c, d) in
    let same : x ≡ y = some_injective (
      sym (split_once-append b'#' a b ha)
      ∙ ap (split_once b'#') e
      ∙ split_once-append b'#' c d hc) in
    (ap (λ (p : Text × Text). p.0) same, ap (λ (p : Text × Text). p.1) same)
  where
    some_injective : {x y : Text × Text} → some x ≡ some y → x ≡ y
    some_injective h = cc

module _ (inst : Text) (assignee : Option Text) where
  pub instance_status_lem :
      (status : TicketStatus)
      → (compute_ticket_markers inst status assignee).instance_status
        ≡ composite inst (as_str status)
  unfolding compute_ticket_markers
  instance_status_lem «open» = refl
  instance_status_lem closed = refl
  instance_status_lem deleted = refl

  -- Either the ticket is deleted, and has no marker, or it is not, and has them.
  markers_cases :
      (status : TicketStatus)
      → ((status ≡ deleted)
          × ((compute_ticket_markers inst status assignee).instance_visible ≡ none)
          × ((compute_ticket_markers inst status assignee).instance_assignee ≡ none))
        ⊎ ((status ≢ deleted)
            × ((compute_ticket_markers inst status assignee).instance_visible ≡ some inst)
            × ((compute_ticket_markers inst status assignee).instance_assignee
                ≡ assignee_marker inst assignee))
  unfolding compute_ticket_markers
  markers_cases «open» = inr (λ e. cc, refl, refl)
  markers_cases closed = inr (λ e. cc, refl, refl)
  markers_cases deleted = inl (refl, refl, refl)

assignee_marker_iff :
    (inst inst' : Text) (assignee : Option Text) (user : Text)
    → Lacks b'#' inst
    → Lacks b'#' inst'
    → (assignee_marker inst assignee ≡ some (composite inst' user))
      ↔ ((inst ≡ inst') × (assignee ≡ some user))
assignee_marker_iff inst inst' none user h h' = (λ e. cc, λ (a, b). cc)
assignee_marker_iff inst inst' (some uid) user h h' = (
  λ e.
      let (a, b) = composite_injective inst uid inst' user h h' (some_injective e) in
      (a, ap some b),
  λ (a, b). rw (a, some_injective b) refl,
)
  where
    some_injective : {x y : Text} → some x ≡ some y → x ≡ y
    some_injective e = cc

-- Two tickets share the status marker exactly if they are of one instance and have one status. A
-- ticket has the assignee marker of a user of an instance exactly if it is of that instance, is not
-- deleted and is assigned to that user; it has the visible marker of an instance exactly if it is of
-- that instance and not deleted. Instance ids have no `#`.
pub compute_ticket_markers_iff :
    (inst inst' : Text) (status status' : TicketStatus) (assignee : Option Text)
    (assignee' : Option Text) (user : Text)
    → Lacks b'#' inst
    → Lacks b'#' inst'
    → (((compute_ticket_markers inst status assignee).instance_status
          ≡ (compute_ticket_markers inst' status' assignee').instance_status)
        ↔ ((inst ≡ inst') × (status ≡ status')))
      × (((compute_ticket_markers inst status assignee).instance_assignee
            ≡ some (composite inst' user))
          ↔ ((inst ≡ inst') × (status ≢ deleted) × (assignee ≡ some user)))
      × (((compute_ticket_markers inst status assignee).instance_visible ≡ some inst')
          ↔ ((inst ≡ inst') × (status ≢ deleted)))
compute_ticket_markers_iff inst inst' status status' assignee assignee' user h h' = (
  (
    λ e.
        let (a, b) = composite_injective inst _ inst' _ h h' (
          sym (instance_status_lem inst assignee status)
          ∙ e
          ∙ instance_status_lem inst' assignee' status') in
        (a, as_str_injective status status' b),
    λ (a, b).
        instance_status_lem inst assignee status
        ∙ rw (a, b) refl
        ∙ sym (instance_status_lem inst' assignee' status'),
  ),
  elim (markers_cases inst assignee status) [
    | inl (gone, v, m) ↦ (λ e. absurd (none≢some (sym m ∙ e)), λ (a, n, b). absurd (n gone))
    | inr (live, v, m) ↦
        let (there, back) = assignee_marker_iff inst inst' assignee user h h' in
        (λ e. let (a, b) = there (sym m ∙ e) in (a, live, b), λ (a, n, b). m ∙ back (a, b))
  ],
  elim (markers_cases inst assignee status) [
    | inl (gone, v, m) ↦ (λ e. absurd (none≢some (sym v ∙ e)), λ (a, n). absurd (n gone))
    | inr (live, v, m) ↦ (λ e. (some_same (sym v ∙ e), live), λ (a, n). v ∙ ap some a)
  ],
)
  where
    none≢some : {x : Text} → none ≡ some x → ⊥
    none≢some e = cc

    some_same : some inst ≡ some inst' → inst ≡ inst'
    some_same e = cc
