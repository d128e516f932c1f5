-- ===== src/Grants/Access.antt =====
-- `verify_access_token` of api/src/oauth.rs. The row is read in one state of the table and its last use
-- is written in a later one.
use microticket.Prelude.{
  ℕ, ◌*◌, Text, Bool, not, none, some, codes, Result, ok, err, leb, if◌then◌else◌, ◌>>=◌, ◌>>◌,
  ensure, text_eq,
}
use microticket.Grants.{
  OAuthGrant, touch_last_used, Crypto, equal_in_constant_time, parse_access_token, Grants,
  GrantStore, get_oauth_grant, update_oauth_grant,
}
use microticket.Grants.Users.{
  AuthError, permanent, or_classify, or_permanent, Users, AuthUser, is_stale, or_skipped,
  fetch_update_user_auth_info,
}

pub record App : Type 0 where
  pub crypto : Crypto
  pub store : GrantStore
  pub users : Users

-- The readings of the clock: for the checks, for a write of the grant, and for the user.
pub record Clock : Type 0 where
  pub now : ℕ
  pub write_now : ℕ
  pub user_now : ℕ

abbrev pub last_used_refresh_secs : ℕ
last_used_refresh_secs = 5 * 60

unfoldable pub matches : Crypto → Text → Text → Bool
matches c token hash = equal_in_constant_time c (c.as_bytes (c.hash_token token)) (c.as_bytes hash)

unfoldable pub access_checks : Crypto → Text → Text → ℕ → OAuthGrant → Result AuthError Unit
access_checks c token resource now grant =
    ensure (matches c token grant.access_token_hash)
      (permanent (codes "Invalid OAuth access token"))
    >> ensure (not (leb grant.access_expires_at now))
        (permanent (codes "OAuth access token has expired"))
    >> ensure (not (leb grant.expires_at now)) (permanent (codes "OAuth grant has expired"))
    >> ensure (text_eq grant.resource resource)
        (permanent (codes "OAuth access token is not valid for this resource"))

-- The grant that a token is of, read and checked.
unfoldable pub grant_of : App → Text → Text → ℕ → Grants → Result AuthError OAuthGrant
grant_of a token resource now seen = do
  parsed ← or_permanent (codes "Malformed OAuth access token") (parse_access_token token)
  row ← or_classify (codes "fetch oauth grant") (get_oauth_grant a.store parsed.0 seen)
  grant ← or_permanent (codes "OAuth grant not found") row
  _ ← access_checks a.crypto parsed.1 resource now grant
  ok grant

abbrev pub with_grant : Text → AuthUser → AuthUser
with_grant id u = record u { token_id = none; grant_id = some id }

unfoldable pub touch : App → OAuthGrant → Clock → Grants → Result AuthError Unit × Grants
touch a grant k t =
    let (r, u) = update_oauth_grant a.store grant.id touch_last_used k.write_now t in
    if is_stale last_used_refresh_secs k.now grant.last_used_at
    then (or_skipped r, u)
    else (ok tt, t)

abbrev pub verified_user : App → OAuthGrant → Clock → Result AuthError AuthUser
verified_user a grant k =
    fetch_update_user_auth_info a.users grant.user_id k.user_now >>= λ u. ok (with_grant grant.id u)

abbrev pub touched_then :
    App → OAuthGrant → Clock → Result AuthError Unit × Grants → Result AuthError AuthUser × Grants
touched_then a grant k (r, u) = (r >> verified_user a grant k, u)

abbrev pub accepted :
    App → Clock → Grants → Result AuthError OAuthGrant → Result AuthError AuthUser × Grants
accepted a k t (err e) = (err e, t)
accepted a k t (ok grant) = touched_then a grant k (touch a grant k t)

unfoldable pub verify_access_token :
    App → Text → Text → Clock → Grants → Grants → Result AuthError AuthUser × Grants
verify_access_token a token resource k seen t =
    accepted a k t (grant_of a token resource k.now seen)
