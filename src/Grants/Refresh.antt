-- ===== src/Grants/Refresh.antt =====
-- `token_refresh` of api/src/oauth_http.rs. The row is read in one state of the table, and replaced or
-- deleted in a later one.
use microticket.Prelude.{
  ℕ, Text, Bool, true, false, not, ◌||◌, Option, none, some, codes, Result, ok, err, leb,
  if◌then◌else◌, ◌>>=◌, ◌>>◌, ensure, text_eq,
}
use microticket.Db.{Error, not_found}
use microticket.Grants.{
  OAuthGrant, rotate, Nonces, mint_tokens, rotate_grant, parse_refresh_token, Grants,
  get_oauth_grant, update_oauth_grant, delete_oauth_grant,
}
use microticket.Grants.Users.{
  AuthError, permanent, transient, AuthUser, fetch_update_user_auth_info,
}
use microticket.Grants.Access.{App, Clock, matches}

-- A refusal has a status, an error and its description.
pub record ErrorReply : Type 0 where
  pub status : ℕ
  pub error : Text
  pub description : Text

-- The tokens and the scope, or a refusal.
pub data HttpReply : Type 0 where
  token_response : Text → Text → Text → HttpReply
  error_reply : ErrorReply → HttpReply

abbrev pub refusal_of : ℕ → Text → Text → ErrorReply
refusal_of status error description = record {
  status = status;
  error = error;
  description = description;
}

abbrev pub server_error : ErrorReply
server_error = refusal_of 500 (codes "server_error") (codes "Internal error")

abbrev pub invalid_grant : Text → ErrorReply
invalid_grant = refusal_of 400 (codes "invalid_grant")

abbrev pub already_used : ErrorReply
already_used = invalid_grant (codes "Refresh token has already been used")

-- The fields of the form.
pub record Params : Type 0 where
  pub refresh_token : Option Text
  pub client_id : Option Text
  pub resource : Option Text

abbrev pub required : Option Text → Result ErrorReply Text
required none =
    err
      (refusal_of 400 (codes "invalid_request") (codes "refresh_token and client_id are required"))
required (some v) = ok v

abbrev pub well_formed_token : Option (Text × Text) → Result ErrorReply (Text × Text)
well_formed_token none = err (invalid_grant (codes "Malformed refresh token"))
well_formed_token (some parsed) = ok parsed

abbrev pub loaded : Result Error (Option OAuthGrant) → Result ErrorReply OAuthGrant
loaded (ok (some grant)) = ok grant
loaded (ok none) = err (invalid_grant (codes "Unknown refresh token"))
loaded (err e) = err server_error

-- The whole token, the client and the row read.
unfoldable pub grant_named : App → Params → Grants → Result ErrorReply (Text × Text × OAuthGrant)
grant_named a p seen = do
  token ← required p.refresh_token
  client_id ← required p.client_id
  parsed ← well_formed_token (parse_refresh_token token)
  grant ← loaded (get_oauth_grant a.store parsed.0 seen)
  ok (parsed.1, client_id, grant)

abbrev pub is_for : Option Text → Text → Bool
is_for none resource = true
is_for (some requested) resource = text_eq requested resource

abbrev pub user_available : Result AuthError AuthUser → Result ErrorReply Unit
user_available (ok u) = ok tt
user_available (err (permanent m)) =
    err (invalid_grant (codes "User account is no longer available"))
user_available (err (transient m)) = err server_error

unfoldable pub refresh_checks : App → Params → Text → Clock → OAuthGrant → Result ErrorReply Unit
refresh_checks a p client_id k grant =
    ensure (not (leb grant.refresh_expires_at k.now || leb grant.expires_at k.now))
      (invalid_grant (codes "Refresh token has expired"))
    >> ensure (text_eq grant.client_id client_id)
        (invalid_grant (codes "client_id does not match this refresh token"))
    >> ensure (is_for p.resource grant.resource)
        (refusal_of 400 (codes "invalid_target") (codes "resource does not match this grant"))
    >> user_available (fetch_update_user_auth_info a.users grant.user_id k.user_now)

abbrev pub is_reuse : Error → Bool
is_reuse (not_found m) = true
is_reuse _ = false

-- The deletion of a grant whose token is used again, and the replacement of its tokens.
abbrev pub revoked : Result Error Unit × Grants → HttpReply × Grants
revoked (ok u, t) = (error_reply already_used, t)
revoked (err e, t) = (error_reply server_error, t)

abbrev pub replaced : HttpReply → Result Error Unit × Grants → HttpReply × Grants
replaced tokens (ok u, t) = (tokens, t)
replaced tokens (err e, t) = (error_reply (if is_reuse e then already_used else server_error), t)

abbrev pub issue : App → Nonces → Clock → OAuthGrant → Grants → HttpReply × Grants
issue a n k grant t =
    replaced (token_response (mint_tokens n grant.id).0 (mint_tokens n grant.id).1 grant.scope) (
      update_oauth_grant a.store grant.id (rotate (rotate_grant a.crypto n grant k.now)) k.write_now
        t)

abbrev pub issue_checked :
    App → Nonces → Clock → OAuthGrant → Grants → Result ErrorReply Unit → HttpReply × Grants
issue_checked a n k grant t (ok u) = issue a n k grant t
issue_checked a n k grant t (err r) = (error_reply r, t)

unfoldable pub refresh_grant :
    App → Params → Nonces → Clock → Text → Text → OAuthGrant → Grants → HttpReply × Grants
refresh_grant a p n k token client_id grant t =
    if matches a.crypto token grant.refresh_token_hash
    then issue_checked a n k grant t (refresh_checks a p client_id k grant)
    else revoked (delete_oauth_grant a.store grant.id t)

abbrev pub refresh_named :
    App
    → Params
    → Nonces
    → Clock
    → Grants
    → Result ErrorReply (Text × Text × OAuthGrant)
    → HttpReply × Grants
refresh_named a p n k t (err r) = (error_reply r, t)
refresh_named a p n k t (ok (token, client_id, grant)) =
    refresh_grant a p n k token client_id grant t

unfoldable pub token_refresh : App → Params → Nonces → Clock → Grants → Grants → HttpReply × Grants
token_refresh a p n k seen t = refresh_named a p n k t (grant_named a p seen)
