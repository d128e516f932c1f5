-- ===== src/Examples/Messages.antt =====
-- The theorems on mail, tickets and pages, applied.
use microticket.Prelude.{
  ℕ, suc, min, Text, Bool, true, false, ◌||◌, ltb, none, some, List, [], ◌∷◌, ◌++◌, ◌≡◌, ◌≢◌, ◌↔◌,
  refl, arith, All, codes, ok, map, take, reverse, length, text_eq,
}
use microticket.Prelude.Int.{pos}
use microticket.Mail.{
  at, reply_to_address, extract_reply_tags, lookup_keys, parse_subject_tag, tag_subject, or_next,
  resolve, classify_for_storage, exact, wildcard_for_domain,
}
use microticket.Mail.Reply.{reply_to_address_returns}
use microticket.Mail.Subject.{tag_subject_reads_back}
use microticket.Mail.Routing.{FirstKnown, all_keys, resolve_first}
use microticket.Mail.Stored.{stored_address_reached, plus_address_unreached}
use microticket.Tickets.{
  TicketMessage, threading_for, «open», closed, deleted, composite, compute_ticket_markers,
  default_settings, User, Membership, MembershipRole, by_user, agent_reply, Recipient, Reason,
  recipient, select_recipients,
}
use microticket.Tickets.Markers.{compute_ticket_markers_iff}
use microticket.Tickets.Threads.{Carries, threading_for_last}
use microticket.Tickets.Notices.{In, Told, select_recipients_iff}
use microticket.Paging.{pagination_args, build_connection}
use microticket.Paging.Windows.{Asked, pagination_args_iff, build_connection_window}

-- Lowercasing that leaves the texts of these examples as they are.
abbrev same : Text → Text
same s = s

not_nil : {c : ℕ} {s : Text} → c ∷ s ≢ []
not_nil e = cc

reply_to_address_returns_example :
    (raw : Text) × (reply_to_address (at (codes "ab") (codes "x.y")) (codes "Q7") (codes "zZ")
      ≡ ok raw)
    × (extract_reply_tags same (raw ∷ [])
        ≡ record { ticket_id = codes "Q7"; reply_token = codes "zZ" } ∷ [])
    × (lookup_keys same raw ≡ lookup_keys same (at (codes "ab") (codes "x.y")))
reply_to_address_returns_example =
    reply_to_address_returns same (codes "ab") (codes "x.y") (codes "Q7") (codes "zZ")
      (λ e. omega arith, (λ e. omega arith, tt)) (λ e. omega arith, (λ e. omega arith, tt)) not_nil
      (λ e. omega arith, (λ e. omega arith, tt)) (λ e. omega arith, (λ e. omega arith, tt)) not_nil
      (λ e. omega arith, (λ e. omega arith, tt))

tag_subject_reads_back_example :
    (parse_subject_tag (tag_subject (codes "a-b") 42 (codes "Re: hi"))
      ≡ or_next (parse_subject_tag (codes "Re: hi")) (some (codes "a-b", 42)))
    × (tag_subject (codes "a-b") 42 (tag_subject (codes "a-b") 42 (codes "Re: hi"))
        ≡ tag_subject (codes "a-b") 42 (codes "Re: hi"))
tag_subject_reads_back_example =
    tag_subject_reads_back (codes "a-b") (codes "Re: hi") 42 not_nil
      (λ e. omega arith, (λ e. omega arith, (λ e. omega arith, tt))) (omega arith)

abbrev two : List Text
two = codes "b@x" ∷ codes "a+t@x" ∷ []

abbrev is_a : Text → Bool
is_a k = text_eq k (codes "a@x")

resolve_first_example :
    ((resolve same two is_a ≡ some (codes "a@x"))
      ↔ FirstKnown is_a (all_keys same two) (codes "a@x"))
    × ((resolve same two is_a ≡ none) ↔ All (λ j. is_a j ≡ false) (all_keys same two))
resolve_first_example = resolve_first same two is_a (codes "a@x")

stored_address_reached_example :
    lookup_keys same (at (codes "a") (codes "x"))
    ≡ at (codes "a") (codes "x") ∷ wildcard_for_domain (codes "x") ∷ []
unfolding classify_for_storage
stored_address_reached_example =
    stored_address_reached same (λ s t. refl) (λ s. refl) (codes " a@x ") (codes "a") (codes "x")
      refl (λ e. omega arith, tt) (λ e. omega arith, tt)

-- The row that no mail reaches can be stored.
classify_for_storage_accepts_plus :
    classify_for_storage same (codes "a+b@x") ≡ ok (codes "a+b@x", exact)
unfolding classify_for_storage
classify_for_storage_accepts_plus = refl

plus_address_unreached_example :
    All (λ k. k ≢ at (codes "a+b") (codes "x")) (lookup_keys same (codes "a+b@x"))
plus_address_unreached_example =
    plus_address_unreached same (λ s h. h) (λ s h. h) (codes "a+b@x") (codes "a+b") (codes "x")
      (λ e. omega arith, (λ e. omega arith, (λ e. omega arith, tt))) (λ (_, (plus, _)). plus refl)

abbrev kim : User
kim = record {
  id = codes "kim";
  email = codes "kim@x";
  name = codes "Kim";
  enabled = true;
  created_at = 0;
  access_time = none;
  superuser = false;
}

abbrev lee : User
lee = record {
  id = codes "lee";
  email = codes "lee@x";
  name = codes "Lee";
  enabled = true;
  created_at = 0;
  access_time = none;
  superuser = false;
}

abbrev member : User → Membership
member u = record {
  id = u.id;
  user_id = u.id;
  instance_id = codes "i";
  role = MembershipRole.agent;
  notification_settings = default_settings;
}

abbrev team : List (Membership × User)
team = (member kim, kim) ∷ (member lee, lee) ∷ []

abbrev told_kim : Recipient
told_kim = recipient kim Reason.assigned_to_me_updated

select_recipients_iff_example :
    In told_kim
      (select_recipients team «open» (some (codes "kim")) (by_user (codes "lee")) agent_reply)
    ↔ ((«open» ≢ deleted)
        × Told (some (codes "kim")) (by_user (codes "lee")) agent_reply told_kim team)
select_recipients_iff_example =
    select_recipients_iff (some (codes "kim")) (by_user (codes "lee")) agent_reply told_kim team
      «open»

compute_ticket_markers_iff_example :
    (((compute_ticket_markers (codes "i") «open» (some (codes "u"))).instance_status
        ≡ (compute_ticket_markers (codes "j") closed none).instance_status)
      ↔ ((codes "i" ≡ codes "j") × («open» ≡ closed)))
    × (((compute_ticket_markers (codes "i") «open» (some (codes "u"))).instance_assignee
          ≡ some (composite (codes "j") (codes "u")))
        ↔ ((codes "i" ≡ codes "j") × («open» ≢ deleted) × (some (codes "u") ≡ some (codes "u"))))
    × (((compute_ticket_markers (codes "i") «open» (some (codes "u"))).instance_visible
          ≡ some (codes "j"))
        ↔ ((codes "i" ≡ codes "j") × («open» ≢ deleted)))
compute_ticket_markers_iff_example =
    compute_ticket_markers_iff (codes "i") (codes "j") «open» closed (some (codes "u")) none
      (codes "u") (λ e. omega arith, tt) (λ e. omega arith, tt)

abbrev three : List ℕ
three = 1 ∷ 2 ∷ 3 ∷ []

abbrev id : ℕ → ℕ
id n = n

build_connection_window_example :
    (build_connection (take (suc 2) three) 2 false true false id ≡ record {
      has_previous_page = true;
      has_next_page = ltb 2 (length three);
      edges = map id (take 2 three);
    })
    × ((before page : List ℕ) × (three ≡ before ++ page)
        × (length page ≡ min 2 (length three))
        × (build_connection (take (suc 2) (reverse three)) 2 true true false id ≡ record {
          has_previous_page = ltb 2 (length three) || true;
          has_next_page = false;
          edges = map id page;
        }))
build_connection_window_example = build_connection_window three 2 true false id

pagination_args_iff_example :
    (pagination_args (some (pos 10)) none 20 50 ≡ ok (10, false))
    ↔ Asked (some (pos 10)) none 20 50 10 false
pagination_args_iff_example = pagination_args_iff (some (pos 10)) none 20 50 10 false

abbrev sent : TicketMessage
sent = record {
  rfc_message_id = some (codes "<b>");
  in_reply_to = some (codes "<a>");
  references = some (codes "<a>");
}

abbrev note : TicketMessage
note = record { rfc_message_id = none; in_reply_to = none; references = none }

threading_for_last_example :
    (references : Text) × (threading_for ((note ∷ []) ++ sent ∷ note ∷ [])
      ≡ record { in_reply_to = some (codes "<b>"); references = some references })
    × Carries (some (codes "<a>")) (codes "<b>") references
threading_for_last_example =
    threading_for_last (note ∷ []) (note ∷ []) sent (codes "<b>") refl (refl, tt)
