-- ===== src/Tickets/Threads.antt =====
-- The threading headers of a new message (api/src/outbound.rs `threading_for`).
use microticket.Prelude.{
  Option, ◌≢◌, ◌⊎◌, inl, inr, sym, not, is_empty, if◌then◌else◌, trim, Text, none, some, List, [],
  ◌∷◌, ◌++◌, ◌≡◌, refl, All, ap, ◌∙◌,
}
use microticket.Tickets.{
  TicketMessage, Threading, thread_on, references_of, threading_from, threading_for,
}

abbrev pub HasNoId : TicketMessage → Type 0
HasNoId m = m.rfc_message_id ≡ none

thread_on-none : (m : TicketMessage) (s : Threading) → HasNoId m → thread_on m s ≡ s
unfolding thread_on
thread_on-none m s h = rw h refl

thread_on-some :
    (m : TicketMessage) (s : Threading) (rid : Text)
    → m.rfc_message_id ≡ some rid
    → thread_on m s
      ≡ record { in_reply_to = some rid; references = some (references_of m.references rid) }
unfolding thread_on
thread_on-some m s rid h = rw h refl

threading_from-append :
    (a b : List TicketMessage) (s : Threading)
    → threading_from s (a ++ b) ≡ threading_from (threading_from s a) b
unfolding threading_from
threading_from-append [] b s = refl
threading_from-append (m ∷ a) b s = threading_from-append a b (thread_on m s)

threading_from-none :
    (a : List TicketMessage) (s : Threading) → All HasNoId a → threading_from s a ≡ s
unfolding threading_from
threading_from-none [] s h = refl
threading_from-none (m ∷ a) s (hm, h) =
    ap (λ x. threading_from x a) (thread_on-none m s hm) ∙ threading_from-none a s h

-- The ids that a message with this id carries on, for a `References` that is not blank.
abbrev pub Carries : Option Text → Text → Text → Type 0
Carries none rid references = references ≡ rid
Carries (some old) rid references =
    ((trim old ≡ []) × (references ≡ rid)) ⊎ ((trim old ≢ []) × (references ≡ old ++ b' ' ∷ rid))

references_of-Carries : (old : Option Text) (rid : Text) → Carries old rid (references_of old rid)
unfolding references_of
references_of-Carries none rid = refl
references_of-Carries (some old) rid = blank_cases (trim old) refl
  where
    blank_cases :
        (s : Text)
        → trim old ≡ s
        → Carries (some old) rid (if not (is_empty (trim old)) then old ++ b' ' ∷ rid else rid)
    blank_cases [] e = inl (e, rw e refl)
    blank_cases (c ∷ s) e = inr ((λ q. cons≢nil (sym e ∙ q)), rw e refl)
      where
        cons≢nil : c ∷ s ≡ [] → ⊥
        cons≢nil q = cc

-- A message sent answers the last message that has an id, whatever notes and failed sends without one
-- come behind it, and its references are that id, behind those of that message and a space if it has
-- any that are not blank.
pub threading_for_last :
    (before behind : List TicketMessage) (m : TicketMessage) (rid : Text)
    → m.rfc_message_id ≡ some rid
    → All HasNoId behind
    → (references : Text) × (threading_for (before ++ m ∷ behind)
        ≡ record { in_reply_to = some rid; references = some references })
      × Carries m.references rid references
unfolding threading_for threading_from
threading_for_last before behind m rid e h =
    let start : Threading = record { in_reply_to = none; references = none } in
    (
      references_of m.references rid,
      threading_from-append before (m ∷ behind) start
          ∙ threading_from-none behind (thread_on m (threading_from start before)) h
          ∙ thread_on-some m (threading_from start before) rid e,
      references_of-Carries m.references rid,
    )
