-- ===== src/Examples/Tokens.antt =====
-- The theorems on OAuth grants (api/src/oauth.rs, api/src/oauth_http.rs), applied: texts are their own
-- bytes and their own hashes, and each write with its condition is made.
use microticket.Prelude.{
  Text, Bool, true, false, none, some, List, [], ◌∷◌, ◌∙◌, inl, inr, Bool-cases, split_once, ◌≡◌,
  ◌≢◌, refl, sym, ap, arith, codes, ok, text_eq, text_eq_iff, if◌then◌else◌, ◌<◌, ◌+◌,
}
use microticket.Dynamo.{Answer, committed, refused, failed}
use microticket.Grants.{
  Nonces, Consent, Grants, GrantWrite, written, GrantStore, OAuthGrant, mint_grant,
  create_oauth_grant, write, parse_token, strip_prefix, update_oauth_grant, delete_oauth_grant,
  get_oauth_grant, rotate_grant, equal_in_constant_time, touch_last_used, parse_access_token,
  parse_refresh_token, grant_absolute_lifetime_s,
}
use microticket.Grants.Users.{UserRow, AuthUser, fetch_update_user_auth_info}
use microticket.Grants.Access.{
  App, Clock, verify_access_token, grant_of, access_checks, matches, touch,
}
use microticket.Grants.Refresh.{Params, token_refresh, grant_named, refresh_grant, refresh_checks}
use microticket.Grants.Stored.{GrantRequest, change, deletion, run_all, some_row}
use microticket.Grants.Refreshing.{IsKeyed, is_token_response}
use microticket.Grants.SingleUse.{token_refresh_once}
use microticket.Grants.Lifetime.{verify_access_token_bounded}

abbrev submit_grant : Grants → GrantWrite → Answer × Grants
submit_grant t w = if w.condition (t w.key) then (committed, written t w) else (refused, t)

committed_grant :
    (b : Bool) (s t t' : Grants)
    → ◌≡◌ {A = Answer × Grants} (if b then (committed, s) else (refused, t)) (committed, t')
    → (b ≡ true) × (t' ≡ s)
committed_grant true s t t' e = (refl, sym (ap (λ (x : Answer × Grants). x.1) e))
committed_grant false s t t' e = cc

refused_grant :
    (b : Bool) (s t t' : Grants)
    → ◌≡◌ {A = Answer × Grants} (if b then (committed, s) else (refused, t)) (refused, t')
    → t' ≡ t
refused_grant true s t t' e = cc
refused_grant false s t t' e = sym (ap (λ (x : Answer × Grants). x.1) e)

failed_grant :
    (b : Bool) (s t t' : Grants) (m : Text)
    → ◌≡◌ {A = Answer × Grants} (if b then (committed, s) else (refused, t)) (failed m, t')
    → ⊥
failed_grant true s t t' m e = cc
failed_grant false s t t' m e = cc

abbrev store : GrantStore
store = record {
  service = record {
    submit = submit_grant;
    read_fault = λ t id. none;
    committed_means = λ t w t' e. committed_grant (w.condition (t w.key)) (written t w) t t' e;
    refused_means = λ t w t' e. refused_grant (w.condition (t w.key)) (written t w) t t' e;
    failed_means =
        λ t w m t' e. absurd (failed_grant (w.condition (t w.key)) (written t w) t t' m e);
  };
  read_only = false;
}

abbrev enabled : UserRow
enabled = record { enabled = true; access_time = none; superuser = false }

abbrev app : App
app = record {
  crypto = record {
    as_bytes = λ s. s;
    hash_token = λ s. s;
    ct_eq = text_eq;
    as_bytes_injective = λ s t e. e;
    ct_eq_iff = λ a b l. text_eq_iff a b;
  };
  store = store;
  users = record {
    get_user = λ id. ok (some enabled);
    set_access_time = λ id. ok tt;
    list_memberships_by_user = λ id. ok [];
  };
}

abbrev first : Nonces
first = record { for_access = codes "a1"; for_refresh = codes "r1" }

abbrev second : Nonces
second = record { for_access = codes "a2"; for_refresh = codes "r2" }

abbrev consent : Consent
consent = record {
  user_id = codes "u";
  client_id = codes "c";
  client_name = codes "Desk";
  redirect_uri = codes "https://x";
  resource = codes "/mcp";
  scope = codes "toolbox";
}

abbrev stored : Grants
stored =
    (create_oauth_grant store (mint_grant app.crypto first (codes "g") consent 100) (λ _. none)).1

abbrev clock : Clock
clock = record { now = 200; write_now = 201; user_now = 200 }

abbrev form : Params
form = record {
  refresh_token = some (codes "mtor_g.r1");
  client_id = some (codes "c");
  resource = none;
}

-- Others note a use of the grant, and remove another one.
abbrev meanwhile : List GrantRequest
meanwhile = change (codes "g") touch_last_used 150 ∷ deletion (codes "h") ∷ []

stored-IsKeyed : IsKeyed stored
unfolding create_oauth_grant write mint_grant
stored-IsKeyed id g e = elim (Bool-cases (text_eq (codes "g") id)) [
  | inl same ↦
      ap (λ (x : OAuthGrant). x.id) (sym (some_row (rw same at e)))
      ∙ (text_eq_iff (codes "g") id).0 same
  | inr other ↦ absurd (no_row g (rw other at e))
]
  where
    no_row : (x : OAuthGrant) → none ≡ some x → ⊥
    no_row x q = cc

other_hash : codes "mtor_g.r2" ≢ codes "mtor_g.r1"
other_hash e = true≢false (ap (text_eq (codes "mtor_g.r2")) e)
  where
    true≢false : true ≡ false → ⊥
    true≢false q = cc

-- The second request has read the row before the first one replaced it.
token_refresh_once_example :
    is_token_response
      (token_refresh app form second clock stored
        (run_all store meanwhile (token_refresh app form second clock stored stored).1)).0
    ≡ false
unfolding create_oauth_grant write mint_grant parse_refresh_token parse_token split_once
    strip_prefix token_refresh grant_named refresh_grant refresh_checks rotate_grant
    update_oauth_grant get_oauth_grant matches equal_in_constant_time fetch_update_user_auth_info
token_refresh_once_example =
    token_refresh_once app form form second second clock clock stored stored stored
      (token_refresh app form second clock stored stored).1 meanwhile (codes "g")
      (codes "mtor_g.r1") (codes "mtoa_g.a2") (codes "mtor_g.r2") (codes "toolbox") stored-IsKeyed
      stored-IsKeyed refl refl refl refl other_hash ((λ same g kept. kept), (tt, tt))

abbrev caller : AuthUser
caller = record {
  id = codes "u";
  memberships = [];
  is_superuser = false;
  token_id = none;
  grant_id = some (codes "g");
}

verify_access_token_bounded_example :
    (codes "u" ≡ codes "u")
    × (codes "/mcp" ≡ codes "/mcp")
    × (200 < 100 + grant_absolute_lifetime_s)
    × ((g : OAuthGrant) × (run_all store meanwhile stored (codes "g") ≡ some g)
        × (codes "mtoa_g.a1" ≡ g.access_token_hash)
        × (200 < g.access_expires_at)
        × (some (codes "g") ≡ some g.id))
unfolding create_oauth_grant write mint_grant parse_access_token parse_token split_once strip_prefix
    verify_access_token update_oauth_grant get_oauth_grant grant_of access_checks matches
    equal_in_constant_time touch fetch_update_user_auth_info delete_oauth_grant
verify_access_token_bounded_example =
    verify_access_token_bounded app first (codes "g") consent 100 (λ _. none) stored meanwhile
      (codes "mtoa_g.a1") (codes "/mcp") clock (run_all store meanwhile stored)
      (verify_access_token app (codes "mtoa_g.a1") (codes "/mcp") clock
        (run_all store meanwhile stored) (run_all store meanwhile stored)).1
      caller (omega arith) refl (tt, (tt, tt)) refl refl
