-- ===== src/Mail/Reply.antt =====
-- Reply addresses and the way back (api/src/outbound.rs `reply_to_address`,
-- api/src/inbound/routing.rs, api/src/inbound/resolution.rs).
use microticket.Prelude.{
  Text, false, none, some, [], ◌∷◌, ◌++◌, ◌≡◌, ◌≢◌, refl, All-append, Lacks, ok, split_once,
  split_once-append, split_once-none, is_empty,
}
use microticket.Mail.{
  at, tagged_local, reply_to_address, lookup_keys, extract_reply_tags, parse_reply_tag,
}

not_empty : (s : Text) → s ≢ [] → is_empty s ≡ false
not_empty [] h = absurd (h refl)
not_empty (c ∷ s) h = refl

tagged_local-Lacks :
    (local id token : Text)
    → Lacks b'@' local
    → Lacks b'@' id
    → Lacks b'@' token
    → Lacks b'@' (tagged_local local id token)
tagged_local-Lacks local id token hl hi ht =
    All-append _ local _ hl ((λ e. cc), ((λ e. cc), All-append _ id _ hi ((λ e. cc), ht)))

parse_reply_tag_made :
    (id token : Text)
    → id ≢ []
    → token ≢ []
    → Lacks b'.' id
    → parse_reply_tag (b't' ∷ (id ++ b'.' ∷ token))
      ≡ some (record { ticket_id = id; reply_token = token })
unfolding parse_reply_tag
parse_reply_tag_made id token hi ht dot =
    rw (split_once-append b'.' id token dot) (rw (not_empty id hi, not_empty token ht) refl)

-- A reply address made from one of the instance's addresses carries exactly its ticket's tag, with the
-- case of id and token kept, and is looked up under the same keys as the address it was made from. The
-- local part has no `@` and no `+`, the id no `@` and no `.`, the token no `@`, and neither is empty.
pub reply_to_address_returns :
    (lower : Text → Text) (local domain id token : Text)
    → Lacks b'@' local
    → Lacks b'+' local
    → id ≢ []
    → Lacks b'@' id
    → Lacks b'.' id
    → token ≢ []
    → Lacks b'@' token
    → (raw : Text) × (reply_to_address (at local domain) id token ≡ ok raw)
      × (extract_reply_tags lower (raw ∷ []) ≡ record { ticket_id = id; reply_token = token } ∷ [])
      × (lookup_keys lower raw ≡ lookup_keys lower (at local domain))
unfolding reply_to_address
reply_to_address_returns lower local domain id token la lp ni ia idot nt ta =
    let l = tagged_local local id token in
    let split : split_once b'@' (at l domain) ≡ some (l, domain) =
      split_once-append b'@' l domain (tagged_local-Lacks local id token la ia ta) in
    let plain : split_once b'@' (at local domain) ≡ some (local, domain) =
      split_once-append b'@' local domain la in
    let plus : split_once b'+' l ≡ some (local, b't' ∷ (id ++ b'.' ∷ token)) =
      split_once-append b'+' local _ lp in
    let none_plus : split_once b'+' local ≡ none = split_once-none b'+' local lp in
    let parsed = parse_reply_tag_made id token ni nt idot in
    (
      at l domain,
      rw plain refl,
      rw split (rw plus (rw parsed refl)),
      rw split (rw plus (rw plain (rw none_plus refl))),
    )
