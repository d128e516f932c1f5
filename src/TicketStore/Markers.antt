-- ===== src/TicketStore/Markers.antt =====
-- The index attributes of stored tickets under the writes of api/src/dynamodb.rs.
use microticket.Prelude.{
  ℕ, Text, Bool, true, Option, none, some, List, [], ◌∷◌, ◌≡◌, refl, sym, subst, inl, inr, ◌⊎◌,
  Bool-cases, text_eq, text_eq_iff, is_some,
}
use microticket.Decimal.{to_decimal}
use microticket.Db.{Error}
use microticket.Dynamo.{Answer, committed, refused, failed}
use microticket.Billing.{is_absent, on_row}
use microticket.Tickets.{TicketMarkers, compute_ticket_markers, composite}
use microticket.TicketStore.{
  TicketRow, Rows, TicketHandler, TicketUpdateShape, set_status_and_assignee, changed, written,
  answer, create_ticket, update_ticket, new_ticket, new_row,
}

abbrev pub markers_of : TicketRow → TicketMarkers
markers_of r = compute_ticket_markers r.ticket.instance_id r.ticket.status r.ticket.assignee_user_id

-- The attributes that the indexes are keyed on are those of the ticket, which stands under its id.
abbrev pub IsIndexed : Text → TicketRow → Type 0
IsIndexed k r =
    (r.ticket.id ≡ k)
    × (r.instance_status ≡ (markers_of r).instance_status)
    × (r.instance_visible ≡ (markers_of r).instance_visible)
    × (r.instance_assignee ≡ (markers_of r).instance_assignee)
    × (r.instance_number ≡ composite r.ticket.instance_id (to_decimal r.ticket.number))

abbrev pub RowIsIndexed : Text → Option TicketRow → Type 0
RowIsIndexed k none = Unit
RowIsIndexed k (some r) = IsIndexed k r

abbrev pub AllIndexed : Rows → Type 0
AllIndexed t = (k : Text) → RowIsIndexed k (t k)

pub data Request : Type 0 where
  create : Text → Text → ℕ → Text → ℕ → Text → List Text → List Text → Request
  change : Text → TicketUpdateShape → Request

unfoldable pub run : TicketHandler → Request → Rows → Rows
run h (create id token now inst number subject requesters ccs) t =
    (create_ticket h id token now inst number subject requesters ccs t).1
run h (change id shape) t = (update_ticket h id shape t).1

unfoldable pub run_all : TicketHandler → List Request → Rows → Rows
run_all h [] t = t
run_all h (c ∷ cs) t = run_all h cs (run h c t)

-- A change of status or assignee is given the instance of the ticket.
abbrev pub OfInstance : Text → Option TicketRow → Type 0
OfInstance i none = Unit
OfInstance i (some r) = i ≡ r.ticket.instance_id

abbrev pub Names : TicketUpdateShape → Option TicketRow → Type 0
Names (set_status_and_assignee i status assignee now) o = OfInstance i o
Names _ o = Unit

abbrev pub PassesInstance : Rows → Request → Type 0
PassesInstance t (change id shape) = Names shape (t id)
PassesInstance t _ = Unit

abbrev pub AllPass : TicketHandler → List Request → Rows → Type 0
AllPass h [] t = Unit
AllPass h (c ∷ cs) t = PassesInstance t c × AllPass h cs (run h c t)

changed-IsIndexed :
    (k : Text) (shape : TicketUpdateShape) (r : TicketRow)
    → Names shape (some r)
    → IsIndexed k r
    → IsIndexed k (changed shape r)
unfolding changed
changed-IsIndexed k (set_status_and_assignee i status assignee now) r same (id, s, v, a, n) =
    rw same (id, refl, refl, refl, n)
changed-IsIndexed k (TicketUpdateShape.add_requester email now) r same h = h
changed-IsIndexed k (TicketUpdateShape.remove_requester email now) r same h = h
changed-IsIndexed k (TicketUpdateShape.add_cc email now) r same h = h
changed-IsIndexed k (TicketUpdateShape.remove_cc email now) r same h = h
changed-IsIndexed k (TicketUpdateShape.touch now) r same h = h
changed-IsIndexed k TicketUpdateShape.mark_has_attachments r same h = h

changed_row :
    (k : Text) (shape : TicketUpdateShape) (o : Option TicketRow)
    → Names shape o
    → RowIsIndexed k o
    → RowIsIndexed k (on_row (changed shape) o)
changed_row k shape none p i = tt
changed_row k shape (some r) p i = changed-IsIndexed k shape r p i

written-AllIndexed :
    (t : Rows) (k : Text) (u : Option TicketRow → Option TicketRow)
    → RowIsIndexed k (u (t k))
    → AllIndexed t
    → AllIndexed (written t k u)
written-AllIndexed t k u p h j = elim (Bool-cases (text_eq k j)) [
  | inl e ↦ rw e (subst (λ i. RowIsIndexed i (u (t k))) ((text_eq_iff k j).0 e) p)
  | inr e ↦ rw e (h j)
]

module _ (h : TicketHandler) (t : Rows) (k : Text) (c : Option TicketRow → Bool)
    (u : Option TicketRow → Option TicketRow) where
  -- Whatever the service answers, the rows are as before or the one written.
  answer-AllIndexed :
      {A : Type 0} (a : A) (e : Error) (w : Answer) (t' : Rows)
      → h.service.submit t k c u ≡ (w, t')
      → (c (t k) ≡ true → RowIsIndexed k (u (t k)))
      → AllIndexed t
      → AllIndexed (answer a e (w, t')).1
  answer-AllIndexed a e committed t' s p i =
      let (holds, made) = h.service.committed_means t k c u t' s in
      subst AllIndexed (sym made) (written-AllIndexed t k u (p holds) i)
  answer-AllIndexed a e refused t' s p i =
      subst AllIndexed (sym (h.service.refused_means t k c u t' s)) i
  answer-AllIndexed a e (failed m) t' s p i = by_cases (h.service.failed_means t k c u m t' s)
    where
      by_cases : (t' ≡ t) ⊎ ((c (t k) ≡ true) × (t' ≡ written t k u)) → AllIndexed t'
      by_cases (inl same) = subst AllIndexed (sym same) i
      by_cases (inr (holds, made)) =
          subst AllIndexed (sym made) (written-AllIndexed t k u (p holds) i)

create_ticket-AllIndexed :
    (h : TicketHandler) (id token : Text) (now : ℕ) (inst : Text) (number : ℕ) (subject : Text)
    (requesters ccs : List Text) (t : Rows)
    → AllIndexed t
    → AllIndexed (create_ticket h id token now inst number subject requesters ccs t).1
unfolding create_ticket compute_ticket_markers
create_ticket-AllIndexed h id token now inst number subject requesters ccs t i =
    elim (Bool-cases h.read_only) [
      | inl r ↦ rw r i
      | inr w ↦
          let ticket = new_ticket id token now inst number subject requesters ccs in
          rw w (
            answer-AllIndexed h t id is_absent (λ _. some (new_row ticket)) ticket _ _ _ refl
              (λ _. (refl, refl, refl, refl, refl)) i)
    ]

update_ticket-AllIndexed :
    (h : TicketHandler) (id : Text) (shape : TicketUpdateShape) (t : Rows)
    → Names shape (t id)
    → AllIndexed t
    → AllIndexed (update_ticket h id shape t).1
unfolding update_ticket
update_ticket-AllIndexed h id shape t p i = elim (Bool-cases h.read_only) [
  | inl r ↦ rw r i
  | inr w ↦ rw w (
      answer-AllIndexed h t id is_some (on_row (changed shape)) tt _ _ _ refl
        (λ _. changed_row id shape (t id) p (i id)) i)
]

run-AllIndexed :
    (h : TicketHandler) (c : Request) (t : Rows)
    → PassesInstance t c
    → AllIndexed t
    → AllIndexed (run h c t)
unfolding run
run-AllIndexed h (create id token now inst number subject requesters ccs) t p i =
    create_ticket-AllIndexed h id token now inst number subject requesters ccs t i
run-AllIndexed h (change id shape) t p i = update_ticket-AllIndexed h id shape t p i

-- If the index attributes of each stored ticket are those of its instance, number, status and
-- assignee, so they are after any requests, whatever the service answers, where each change of
-- status or assignee is given the instance of the stored ticket.
pub run_all-AllIndexed :
    (h : TicketHandler) (cs : List Request) (t : Rows)
    → AllPass h cs t
    → AllIndexed t
    → AllIndexed (run_all h cs t)
unfolding run_all
run_all-AllIndexed h [] t p i = i
run_all-AllIndexed h (c ∷ cs) t (p, ps) i =
    run_all-AllIndexed h cs (run h c t) ps (run-AllIndexed h c t p i)
