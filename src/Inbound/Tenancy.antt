-- ===== src/Inbound/Tenancy.antt =====
-- What `resolve_ticket` of api/src/inbound/pipeline.rs finds.
use microticket.Prelude.{
  ℕ, Text, Option, none, some, List, [], ◌∷◌, ◌≡◌, ◌⊎◌, inl, inr, refl, All, Result, ok, err, ◌>>=◌,
  ok_injective, ap, Lacks, Bool-cases, text_eq, text_eq_iff, sym, ◌∙◌,
}
use microticket.Decimal.{to_decimal}
use microticket.Decimal.RoundTrip.{value, value-to_decimal}
use microticket.Db.{Error, at_most_one}
use microticket.Tickets.{composite}
use microticket.Tickets.Markers.{composite_injective}
use microticket.Mail.{ReplyTag}
use microticket.Tickets.Notices.{In}
use microticket.Inbound.{
  Ticket, ResolutionPlan, TicketReads, TicketLookup, found, cross_tenant, constant_time_eq,
  in_tenant, verified, by_tags, named, referred, by_messages, numbered_ticket, at_number, by_number,
  resolve_ticket, get_ticket_id_by_instance_number,
}
use microticket.Inbound.Tokens.{IsByte, constant_time_eq_iff}

module _ (utf8 : Text → List ℕ) (bytes : (s : Text) → All IsByte (utf8 s))
    (injective : (s s' : Text) → utf8 s ≡ utf8 s' → s ≡ s') (reads : TicketReads)
    (instance_id : Text) (t : Ticket)
    (indexed : (id : Text) (s : Ticket)
      → reads.get_ticket id ≡ ok (some s)
      → (reads.instance_number id ≡ composite s.instance_id (to_decimal s.number))
        × Lacks b'#' s.instance_id)
    (plain : Lacks b'#' instance_id) where
  -- Named by a tag with its token.
  abbrev pub ByTag : List ReplyTag → Type 0
  ByTag tags =
      (tag : ReplyTag) × In tag tags × (tag.ticket_id ≡ t.id) × (tag.reply_token ≡ t.reply_token)

  -- Named by the id of one of its messages.
  abbrev pub ByMessage : List Text → Type 0
  ByMessage mids =
      (mid : Text) × In mid mids × (reads.get_ticket_id_by_rfc_message_id mid ≡ ok (some t.id))

  -- Named by its number.
  abbrev pub ByNumber : Option ℕ → Type 0
  ByNumber number = number ≡ some t.number

  in_tenant_found :
      (s : Ticket)
      → in_tenant utf8 reads instance_id s ≡ found t
      → (s ≡ t) × (s.instance_id ≡ instance_id)
  in_tenant_found s e = elim (Bool-cases (text_eq s.instance_id instance_id)) [
    | inl same ↦ (same_ticket (rw same at e), (text_eq_iff s.instance_id instance_id).0 same)
    | inr other ↦ absurd (not_found_here (rw other at e))
  ]
    where
      same_ticket : found s ≡ found t → s ≡ t
      same_ticket h = cc

      not_found_here : cross_tenant ≡ found t → ⊥
      not_found_here h = cc

  -- The last lookup: the key splits in one way, as ids of instances have no `#`.
  same_key :
      (n : ℕ) (id : Text) (s : Ticket)
      → reads.instance_number id ≡ composite instance_id (to_decimal n)
      → reads.get_ticket id ≡ ok (some s)
      → (instance_id ≡ s.instance_id) × (n ≡ s.number)
  same_key n id s key g =
      let (stored, lacks) = indexed id s g in
      let (inst, digits) =
        composite_injective instance_id (to_decimal n) s.instance_id (to_decimal s.number) plain
          lacks (sym key ∙ stored) in
      (inst, sym (value-to_decimal n) ∙ ap (value 0) digits ∙ value-to_decimal s.number)

  number_read :
      (n : ℕ) (id : Text) (r : Result Error (Option Ticket))
      → reads.instance_number id ≡ composite instance_id (to_decimal n)
      → reads.get_ticket id ≡ r
      → (r >>= λ o. ok (numbered_ticket utf8 reads instance_id o)) ≡ ok (found t)
      → (n ≡ t.number) × (t.instance_id ≡ instance_id)
  number_read n id (err x) key g h = cc
  number_read n id (ok none) key g h = cc
  number_read n id (ok (some s)) key g h =
      let same : s ≡ t = same_ticket (ok_injective h) in
      let (inst, number) = same_key n id s key g in rw (← same) (number, sym inst)
    where
      same_ticket : found s ≡ found t → s ≡ t
      same_ticket h' = cc

  number_named :
      (n : ℕ) (d : Text) (r : Result Error (List Text))
      → reads.query_number (composite instance_id (to_decimal n)) ≡ r
      → ((r >>= λ ids. at_most_one ids d) >>= at_number utf8 reads instance_id) ≡ ok (found t)
      → (n ≡ t.number) × (t.instance_id ≡ instance_id)
  unfolding at_most_one
  number_named n d (err x) e h = cc
  number_named n d (ok []) e h = cc
  number_named n d (ok (id ∷ [])) e h =
      let (key, _) = reads.under_key _ (id ∷ []) e in
      number_read n id (reads.get_ticket id) key refl h
  number_named n d (ok (id ∷ j ∷ ids)) e h = cc

  by_number_sound :
      (number : Option ℕ)
      → by_number utf8 reads instance_id number ≡ ok (found t)
      → ByNumber number × (t.instance_id ≡ instance_id)
  unfolding get_ticket_id_by_instance_number
  by_number_sound none e = cc
  by_number_sound (some n) e =
      let (number, tenant) = number_named n _ _ refl e in (ap some number, tenant)

  message_read :
      (mid id : Text) (r : Result Error (Option Ticket)) (next : Result Error TicketLookup)
      → reads.get_ticket_id_by_rfc_message_id mid ≡ ok (some id)
      → reads.get_ticket id ≡ r
      → (r >>= λ o. named utf8 reads instance_id o next) ≡ ok (found t)
      → ((reads.get_ticket_id_by_rfc_message_id mid ≡ ok (some t.id))
          × (t.instance_id ≡ instance_id))
        ⊎ (next ≡ ok (found t))
  message_read mid id (err x) next e g h = cc
  message_read mid id (ok none) next e g h = inr h
  message_read mid id (ok (some s)) next e g h =
      let (same, tenant) = in_tenant_found s (ok_injective h) in
      let under = reads.read_under_id id s g in inl (rw (← same) (e ∙ rw under refl, tenant))

  message_named :
      (mid : Text) (r : Result Error (Option Text)) (next : Result Error TicketLookup)
      → reads.get_ticket_id_by_rfc_message_id mid ≡ r
      → (r >>= λ o. referred utf8 reads instance_id o next) ≡ ok (found t)
      → ((reads.get_ticket_id_by_rfc_message_id mid ≡ ok (some t.id))
          × (t.instance_id ≡ instance_id))
        ⊎ (next ≡ ok (found t))
  message_named mid (err x) next e h = cc
  message_named mid (ok none) next e h = inr h
  message_named mid (ok (some id)) next e h =
      message_read mid id (reads.get_ticket id) next e refl h

  by_messages_sound :
      (mids : List Text) (next : Result Error TicketLookup)
      → by_messages utf8 reads instance_id mids next ≡ ok (found t)
      → (ByMessage mids × (t.instance_id ≡ instance_id)) ⊎ (next ≡ ok (found t))
  by_messages_sound [] next e = inr e
  by_messages_sound (mid ∷ mids) next e = elim (message_named mid _ _ refl e) [
    | inl (at, tenant) ↦ inl ((mid, inl refl, at), tenant)
    | inr later ↦ elim (by_messages_sound mids next later) [
      | inl ((m, among, at), tenant) ↦ inl ((m, inr among, at), tenant)
      | inr n ↦ inr n
    ]
  ]

  tag_read :
      (tag : ReplyTag) (r : Result Error (Option Ticket)) (next : Result Error TicketLookup)
      → reads.get_ticket tag.ticket_id ≡ r
      → (r >>= λ o. verified utf8 reads instance_id tag o next) ≡ ok (found t)
      → ((tag.ticket_id ≡ t.id) × (tag.reply_token ≡ t.reply_token) × (t.instance_id ≡ instance_id))
        ⊎ (next ≡ ok (found t))
  unfolding verified
  tag_read tag (err x) next g h = cc
  tag_read tag (ok none) next g h = inr h
  tag_read tag (ok (some s)) next g h =
      elim (Bool-cases (constant_time_eq (utf8 s.reply_token) (utf8 tag.reply_token))) [
        | inr other ↦ inr (rw other at h)
        | inl equal ↦
            let (same, tenant) = in_tenant_found s (ok_injective (rw equal at h)) in
            let token =
              injective s.reply_token tag.reply_token (
                (constant_time_eq_iff _ _ (bytes s.reply_token) (bytes tag.reply_token)).0 equal) in
            let under = reads.read_under_id tag.ticket_id s g in
            inl (rw (← same) (sym under, sym token, tenant))
      ]

  by_tags_sound :
      (tags : List ReplyTag) (next : Result Error TicketLookup)
      → by_tags utf8 reads instance_id tags next ≡ ok (found t)
      → (ByTag tags × (t.instance_id ≡ instance_id)) ⊎ (next ≡ ok (found t))
  unfolding by_tags
  by_tags_sound [] next e = inr e
  by_tags_sound (tag ∷ tags) next e = elim (tag_read tag _ _ refl e) [
    | inl (id, token, tenant) ↦ inl ((tag, inl refl, id, token), tenant)
    | inr later ↦ elim (by_tags_sound tags next later) [
      | inl ((g, among, id, token), tenant) ↦ inl ((g, inr among, id, token), tenant)
      | inr n ↦ inr n
    ]
  ]

  -- If `utf8` makes bytes and tells texts apart, the number index has the numbers of the tickets that
  -- are read, and ids of instances have no `#`: a ticket found for a message is of the instance that
  -- the message was routed to, and it was named by a reply tag with the ticket's own token, by the id
  -- of one of its messages, or by its own number.
  pub resolve_ticket_sound :
      (plan : ResolutionPlan)
      → resolve_ticket utf8 reads instance_id plan ≡ ok (found t)
      → (t.instance_id ≡ instance_id)
        × (ByTag plan.reply_tags ⊎ (ByMessage plan.message_ids ⊎ ByNumber plan.subject_number))
  unfolding resolve_ticket
  resolve_ticket_sound plan e = elim (by_tags_sound plan.reply_tags _ e) [
    | inl (tag, tenant) ↦ (tenant, inl tag)
    | inr later ↦ elim (by_messages_sound plan.message_ids _ later) [
      | inl (message, tenant) ↦ (tenant, inr (inl message))
      | inr last ↦
          let (number, tenant) = by_number_sound plan.subject_number last in
          (tenant, inr (inr number))
    ]
  ]
