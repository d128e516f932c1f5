-- ===== src/Mail.antt =====
-- Addresses and subjects of ticket mail (api/src/inbound/routing.rs, api/src/inbound/resolution.rs and
-- the address and subject parts of api/src/outbound.rs). `str::to_lowercase` is the parameter `lower`,
-- since it follows the Unicode tables; `is_known` is the database lookup that `resolve` is given.
pub mod Routing
pub mod Stored
pub mod Reply
pub mod Subject
use microticket.Prelude.{
  ℕ, Text, Bool, true, false, not, ◌&&◌, ◌||◌, Option, none, some, List, [], ◌∷◌, ◌++◌, ◌==◌,
  text_eq, leb, length, is_empty, if◌then◌else◌, split_once, starts_with, trim, drop, any, codes,
  Result, ok, err,
}
use microticket.Decimal.{to_decimal, parse_unsigned, u64_max}

pub record NormalizedRecipient : Type 0 where
  pub address : Text
  pub tag : Option Text
  pub domain : Option Text

pub data AddressKind : Type 0 where
  exact wildcard : AddressKind

pub record InboundAddress : Type 0 where
  pub address : Text
  pub instance_id : Text
  pub kind : AddressKind
  pub created_at : ℕ

pub data AddressError : Type 0 where
  missing_at no_domain misplaced_star no_local : Text → AddressError

pub record ReplyTag : Type 0 where
  pub ticket_id : Text
  pub reply_token : Text

-- `{local}@{domain}`
abbrev pub at : Text → Text → Text
at local domain = local ++ b'@' ∷ domain

abbrev pub contains : ℕ → Text → Bool
contains c = any (λ x. x == c)

module _ (lower : Text → Text) where
  abbrev pub normalize_local : Text → Text → Option (Text × Text) → NormalizedRecipient
  normalize_local local domain none = record {
    address = at (lower local) (lower domain);
    tag = none;
    domain = some (lower domain);
  }
  normalize_local local domain (some (base, tag)) = record {
    address = at (lower base) (lower domain);
    tag = some tag;
    domain = some (lower domain);
  }

  abbrev pub normalize_split : Text → Option (Text × Text) → NormalizedRecipient
  unfolding split_once
  normalize_split raw none = record { address = lower raw; tag = none; domain = none }
  normalize_split raw (some (local, domain)) = normalize_local local domain (split_once b'+' local)

  abbrev pub normalize_recipient : Text → NormalizedRecipient
  unfolding split_once
  normalize_recipient raw = normalize_split raw (split_once b'@' raw)

abbrev pub wildcard_for_domain : Text → Text
wildcard_for_domain domain = b'*' ∷ b'@' ∷ domain

abbrev pub keys_of : NormalizedRecipient → List Text
keys_of n = elim n.domain [
  | some d ↦ n.address ∷ wildcard_for_domain d ∷ []
  | none ↦ n.address ∷ []
]

abbrev pub lookup_keys : (Text → Text) → Text → List Text
lookup_keys lower raw = keys_of (normalize_recipient lower raw)

abbrev pub first_known : (Text → Bool) → List Text → Option Text
first_known is_known [] = none
first_known is_known (k ∷ keys) =
    let rest = first_known is_known keys in if is_known k then some k else rest

abbrev pub or_else : Option Text → Option Text → Option Text
or_else none o = o
or_else (some k) o = some k

abbrev pub resolve : (Text → Text) → List Text → (Text → Bool) → Option Text
resolve lower [] is_known = none
resolve lower (r ∷ recipients) is_known =
    or_else (first_known is_known (lookup_keys lower r)) (resolve lower recipients is_known)

abbrev pub classify_split :
    Text → Text → Option (Text × Text) → Result AddressError (Text × AddressKind)
classify_split raw low none = err (missing_at raw)
classify_split raw low (some (local, domain)) =
    if is_empty domain
    then err (no_domain raw)
    else if text_eq local (b'*' ∷ [])
    then ok (low, wildcard)
    else if contains b'*' local || contains b'*' domain
    then err (misplaced_star raw)
    else if is_empty local
    then err (no_local raw)
    else ok (low, exact)

unfoldable pub classify_for_storage :
    (Text → Text) → Text → Result AddressError (Text × AddressKind)
unfolding trim split_once
classify_for_storage lower raw =
    classify_split raw (lower (trim raw)) (split_once b'@' (lower (trim raw)))

abbrev pub reply_tag_of : Option (Text × Text) → Option ReplyTag
reply_tag_of none = none
reply_tag_of (some (id, token)) =
    if is_empty id || is_empty token
    then none
    else some record { ticket_id = id; reply_token = token }

abbrev pub parse_reply_tag : Text → Option ReplyTag
unfolding split_once
parse_reply_tag [] = none
parse_reply_tag (c ∷ rest) = if c == b't' then reply_tag_of (split_once b'.' rest) else none

abbrev pub same_tag : ReplyTag → ReplyTag → Bool
same_tag a b = text_eq a.ticket_id b.ticket_id && text_eq a.reply_token b.reply_token

-- `{local}+t{ticket_id}.{reply_token}`
abbrev pub tagged_local : Text → Text → Text → Text
tagged_local local ticket_id reply_token =
    local ++ b'+' ∷ (b't' ∷ (ticket_id ++ b'.' ∷ reply_token))

abbrev pub with_tag : Text → Text → Text → Option (Text × Text) → Result AddressError Text
with_tag from_address ticket_id reply_token none = err (missing_at from_address)
with_tag from_address ticket_id reply_token (some (local, domain)) =
    ok (at (tagged_local local ticket_id reply_token) domain)

unfoldable pub reply_to_address : Text → Text → Text → Result AddressError Text
unfolding split_once
reply_to_address from_address ticket_id reply_token =
    with_tag from_address ticket_id reply_token (split_once b'@' from_address)

-- The loop keeps what it found; a tag is pushed unless it is there already.
abbrev pub push_tag : List ReplyTag → Option ReplyTag → List ReplyTag
push_tag out none = out
push_tag out (some t) = if any (λ x. same_tag x t) out then out else out ++ t ∷ []

abbrev pub tag_in : Option Text → Option ReplyTag
tag_in none = none
tag_in (some tag) = parse_reply_tag tag

abbrev pub extract_from : (Text → Text) → List ReplyTag → List Text → List ReplyTag
extract_from lower out [] = out
extract_from lower out (r ∷ recipients) =
    extract_from lower (push_tag out (tag_in (normalize_recipient lower r).tag)) recipients

abbrev pub extract_reply_tags : (Text → Text) → List Text → List ReplyTag
extract_reply_tags lower = extract_from lower []

abbrev pub ticket_subject_tag : Text → ℕ → Text
unfolding to_decimal
ticket_subject_tag slug number = codes "[#" ++ slug ++ b'-' ∷ (to_decimal number ++ b']' ∷ [])

abbrev pub cons_before : ℕ → Text → Option (Text × Text) → Option (Text × Text)
cons_before x s none = none
cons_before x s (some (a, b)) = some (x ∷ a, b)

-- `str::rsplit_once` at the last occurrence of a character.
unfoldable pub rsplit_once : ℕ → Text → Option (Text × Text)
rsplit_once c [] = none
rsplit_once c (x ∷ s) = elim (rsplit_once c s) [
  | some (a, b) ↦ some (x ∷ a, b)
  | none ↦ if x == c then some ([], s) else none
]

abbrev pub numbered : Text → Option ℕ → Option (Text × ℕ)
numbered slug none = none
numbered slug (some n) = some (slug, n)

abbrev pub slug_and_number : Option (Text × Text) → Option (Text × ℕ)
unfolding parse_unsigned
slug_and_number none = none
slug_and_number (some (slug, number)) =
    if is_empty slug then none else numbered slug (parse_unsigned u64_max number)

abbrev pub tag_before : Option (Text × Text) → Option (Text × ℕ)
unfolding rsplit_once
tag_before none = none
tag_before (some (tag, rest)) = slug_and_number (rsplit_once b'-' tag)

abbrev pub or_next : Option (Text × ℕ) → Option (Text × ℕ) → Option (Text × ℕ)
or_next none o = o
or_next (some x) o = some x

-- The tag after the first `[#` that has one. The loop goes on behind the `[#`; a `[#` cannot start at
-- its `#`.
unfoldable pub parse_subject_tag : Text → Option (Text × ℕ)
unfolding split_once tag_before
parse_subject_tag [] = none
parse_subject_tag (c ∷ s) =
    let rest = parse_subject_tag s in
    let here = tag_before (split_once b']' (drop 1 s)) in
    if (c == b'[') && starts_with b'#' s then or_next here rest else rest

abbrev pub keep_or_tag : Text → ℕ → Text → Option (Text × ℕ) → Text
unfolding ticket_subject_tag
keep_or_tag slug number subject (some t) = subject
keep_or_tag slug number subject none = ticket_subject_tag slug number ++ b' ' ∷ subject

unfoldable pub tag_subject : Text → ℕ → Text → Text
unfolding parse_subject_tag keep_or_tag
tag_subject slug number subject = keep_or_tag slug number subject (parse_subject_tag subject)
