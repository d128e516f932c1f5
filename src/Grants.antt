-- ===== src/Grants.antt =====
-- OAuth grants (api/src/oauth.rs) and their rows (the `oauth_grant` methods of api/src/dynamodb.rs).
-- SHA-256, `subtle`, `str::as_bytes`, nonces, fresh ids and readings of the clock are parameters. The
-- service makes one conditional write of a row, as in Dynamo.
pub mod Users
pub mod Access
pub mod Refresh
pub mod Stored
pub mod Accepted
pub mod Refreshing
pub mod Lifetime
pub mod SingleUse
use microticket.Prelude.{
  ℕ, Text, Bool, true, false, not, ◌&&◌, Option, none, some, List, [], ◌∷◌, ◌++◌, codes, Result, ok,
  err, if◌then◌else◌, text_eq, is_empty, split_once, length, ◌==◌, ◌+◌, ◌%◌, ◌^◌, ◌*◌, min, ◌≡◌,
  ◌⊎◌, ◌↔◌,
}
use microticket.Db.{Error, not_found, infrastructure, mutation_disabled}
use microticket.Dynamo.{Answer, committed, refused, failed, update}
use microticket.Billing.{is_absent, on_row}

pub record OAuthGrant : Type 0 where
  pub id : Text
  pub user_id : Text
  pub client_id : Text
  pub client_name : Text
  pub redirect_uri : Text
  pub resource : Text
  pub scope : Text
  pub access_token_hash : Text
  pub access_expires_at : ℕ
  pub refresh_token_hash : Text
  pub refresh_expires_at : ℕ
  pub expires_at : ℕ
  pub created_at : ℕ
  pub last_used_at : Option ℕ

pub record Rotation : Type 0 where
  pub expected_refresh_token_hash : Text
  pub access_token_hash : Text
  pub access_expires_at : ℕ
  pub refresh_token_hash : Text
  pub refresh_expires_at : ℕ

pub data OAuthGrantUpdateShape : Type 0 where
  rotate : Rotation → OAuthGrantUpdateShape
  touch_last_used : OAuthGrantUpdateShape

abbrev pub access_token_lifetime_s : ℕ
access_token_lifetime_s = 60 * 60

abbrev pub refresh_token_lifetime_s : ℕ
refresh_token_lifetime_s = 60 * 60 * 24 * 30

abbrev pub grant_absolute_lifetime_s : ℕ
grant_absolute_lifetime_s = 60 * 60 * 24 * 90

-- The sum of two `u64`, which wraps.
abbrev pub add_u64 : ℕ → ℕ → ℕ
add_u64 a b = (a + b) % 2 ^ 64

-- What the code relies on: hashes are a function of the token, two texts with the same bytes are one,
-- and `ct_eq` of slices of one length says if they are equal.
pub record Crypto : Type 0 where
  pub as_bytes : Text → List ℕ
  pub hash_token : Text → Text
  pub ct_eq : List ℕ → List ℕ → Bool
  pub as_bytes_injective : (s t : Text) → as_bytes s ≡ as_bytes t → s ≡ t
  pub ct_eq_iff : (a b : List ℕ) → length a ≡ length b → (ct_eq a b ≡ true) ↔ (a ≡ b)

unfoldable pub equal_in_constant_time : Crypto → List ℕ → List ℕ → Bool
equal_in_constant_time c a b = (length a == length b) && c.ct_eq a b

-- `str::strip_prefix`.
unfoldable pub strip_prefix : Text → Text → Option Text
strip_prefix [] s = some s
strip_prefix (p ∷ prefix) [] = none
strip_prefix (p ∷ prefix) (c ∷ s) = if c == p then strip_prefix prefix s else none

abbrev pub halves : Option (Text × Text) → Option (Text × Text)
halves none = none
halves (some (grant_id, secret)) = elim (is_empty grant_id) [
  | true ↦ none
  | false ↦ if is_empty secret then none else some (grant_id, secret)
]

abbrev pub split_rest : Option Text → Option (Text × Text)
split_rest none = none
split_rest (some rest) = halves (split_once b'.' rest)

unfoldable pub parse_token : Text → Text → Option (Text × Text)
parse_token token prefix = split_rest (strip_prefix prefix token)

-- The grant id, with the whole token.
abbrev pub with_token : Text → Option (Text × Text) → Option (Text × Text)
with_token token none = none
with_token token (some (grant_id, secret)) = some (grant_id, token)

abbrev pub access_token_prefix : Text
access_token_prefix = codes "mtoa_"

abbrev pub refresh_token_prefix : Text
refresh_token_prefix = codes "mtor_"

unfoldable pub parse_access_token : Text → Option (Text × Text)
parse_access_token token = with_token token (parse_token token access_token_prefix)

unfoldable pub parse_refresh_token : Text → Option (Text × Text)
parse_refresh_token token = with_token token (parse_token token refresh_token_prefix)

-- The two results of `generate_nonce`.
pub record Nonces : Type 0 where
  pub for_access : Text
  pub for_refresh : Text

abbrev pub mint_tokens : Nonces → Text → Text × Text
mint_tokens n grant_id = (
  access_token_prefix ++ grant_id ++ b'.' ∷ n.for_access,
  refresh_token_prefix ++ grant_id ++ b'.' ∷ n.for_refresh,
)

-- What a client is granted.
pub record Consent : Type 0 where
  pub user_id : Text
  pub client_id : Text
  pub client_name : Text
  pub redirect_uri : Text
  pub resource : Text
  pub scope : Text

unfoldable pub mint_grant : Crypto → Nonces → Text → Consent → ℕ → OAuthGrant
mint_grant c n id k now = record {
  id = id;
  user_id = k.user_id;
  client_id = k.client_id;
  client_name = k.client_name;
  redirect_uri = k.redirect_uri;
  resource = k.resource;
  scope = k.scope;
  access_token_hash = c.hash_token (mint_tokens n id).0;
  access_expires_at = add_u64 now access_token_lifetime_s;
  refresh_token_hash = c.hash_token (mint_tokens n id).1;
  refresh_expires_at =
      min (add_u64 now refresh_token_lifetime_s) (add_u64 now grant_absolute_lifetime_s);
  expires_at = add_u64 now grant_absolute_lifetime_s;
  created_at = now;
  last_used_at = none;
}

unfoldable pub rotate_grant : Crypto → Nonces → OAuthGrant → ℕ → Rotation
rotate_grant c n grant now = record {
  expected_refresh_token_hash = grant.refresh_token_hash;
  access_token_hash = c.hash_token (mint_tokens n grant.id).0;
  access_expires_at = add_u64 now access_token_lifetime_s;
  refresh_token_hash = c.hash_token (mint_tokens n grant.id).1;
  refresh_expires_at = min (add_u64 now refresh_token_lifetime_s) grant.expires_at;
}

abbrev pub Grants : Type 0
Grants = Text → Option OAuthGrant

pub record GrantWrite : Type 0 where
  pub key : Text
  pub condition : Option OAuthGrant → Bool
  pub after : Option OAuthGrant → Option OAuthGrant

abbrev pub written : Grants → GrantWrite → Grants
written t w = update t w.key (w.after (t w.key))

pub record GrantTable : Type 0 where
  pub submit : Grants → GrantWrite → Answer × Grants
  pub read_fault : Grants → Text → Option Text
  pub committed_means :
      (t : Grants) (w : GrantWrite) (t' : Grants)
      → submit t w ≡ (committed, t')
      → (w.condition (t w.key) ≡ true) × (t' ≡ written t w)
  pub refused_means :
      (t : Grants) (w : GrantWrite) (t' : Grants) → submit t w ≡ (refused, t') → t' ≡ t
  pub failed_means :
      (t : Grants) (w : GrantWrite) (e : Text) (t' : Grants)
      → submit t w ≡ (failed e, t')
      → (t' ≡ t) ⊎ ((w.condition (t w.key) ≡ true) × (t' ≡ written t w))

pub record GrantStore : Type 0 where
  pub service : GrantTable
  pub read_only : Bool

-- The answer to one write; the error is that of a refusal.
abbrev pub settled : Error → Answer × Grants → Result Error Unit × Grants
settled e (committed, t) = (ok tt, t)
settled e (refused, t) = (err e, t)
settled e (failed m, t) = (err (infrastructure m), t)

unfoldable pub write : GrantStore → Error → GrantWrite → Grants → Result Error Unit × Grants
write h e w t =
    let r = settled e (h.service.submit t w) in
    if h.read_only then (err mutation_disabled, t) else r

abbrev pub refusal : Text
refusal = codes "ConditionalCheckFailedException"

abbrev pub grant_creation : OAuthGrant → GrantWrite
grant_creation grant = record { key = grant.id; condition = is_absent; after = λ o. some grant }

unfoldable pub create_oauth_grant : GrantStore → OAuthGrant → Grants → Result Error Unit × Grants
create_oauth_grant h grant = write h (infrastructure refusal) (grant_creation grant)

abbrev pub row_read : Option Text → Option OAuthGrant → Result Error (Option OAuthGrant)
row_read none o = ok o
row_read (some m) o = err (infrastructure m)

unfoldable pub get_oauth_grant : GrantStore → Text → Grants → Result Error (Option OAuthGrant)
get_oauth_grant h id t = row_read (h.service.read_fault t id) (t id)

abbrev pub has_refresh_hash : Text → Option OAuthGrant → Bool
has_refresh_hash hash none = false
has_refresh_hash hash (some g) = text_eq g.refresh_token_hash hash

abbrev pub rotated : Rotation → OAuthGrant → OAuthGrant
rotated r g = record g {
  access_token_hash = r.access_token_hash;
  access_expires_at = r.access_expires_at;
  refresh_token_hash = r.refresh_token_hash;
  refresh_expires_at = r.refresh_expires_at;
}

abbrev pub used_at : ℕ → OAuthGrant → OAuthGrant
used_at now g = record g { last_used_at = some now }

abbrev pub there : Option OAuthGrant → Bool
there none = false
there (some g) = true

abbrev pub grant_update : Text → OAuthGrantUpdateShape → ℕ → GrantWrite
grant_update id (rotate r) now = record {
  key = id;
  condition = has_refresh_hash r.expected_refresh_token_hash;
  after = on_row (rotated r);
}
grant_update id touch_last_used now = record {
  key = id;
  condition = there;
  after = on_row (used_at now);
}

unfoldable pub update_oauth_grant :
    GrantStore → Text → OAuthGrantUpdateShape → ℕ → Grants → Result Error Unit × Grants
update_oauth_grant h id change now =
    write h (not_found (codes "OAuthGrant " ++ id)) (grant_update id change now)

abbrev pub grant_deletion : Text → GrantWrite
grant_deletion id = record { key = id; condition = λ o. true; after = λ o. none }

unfoldable pub delete_oauth_grant : GrantStore → Text → Grants → Result Error Unit × Grants
delete_oauth_grant h id = write h (infrastructure refusal) (grant_deletion id)
