-- ===== src/Grants/Accepted.antt =====
-- What an accepted access token says (`verify_access_token` of api/src/oauth.rs).
use microticket.Prelude.{
  ℕ, Text, Bool, true, false, not, Option, none, some, List, ◌≡◌, ◌<◌, refl, sym, ap, ◌∙◌, ◌>>=◌,
  ◌>>◌, ensure, leb, Result, ok, err, ok≢err, ok_injective, text_eq, text_eq_iff, codes,
  if◌then◌else◌, arith,
}
use microticket.Db.{Error}
use microticket.Grants.{
  OAuthGrant, Crypto, Grants, parse_access_token, parse_token, get_oauth_grant, with_token,
  access_token_prefix,
}
use microticket.Mutations.{Membership}
use microticket.Grants.Users.{
  AuthError, permanent, UserRow, is_stale, or_skipped, enabled_user, auth_user, or_permanent,
  or_classify, AuthUser, fetch_update_user_auth_info, Users,
}
use microticket.Grants.Access.{
  App, Clock, matches, access_checks, grant_of, with_grant, accepted, verified_user, touch,
}
use microticket.Grants.Refreshing.{row_read_there, matches_sound}

-- What the checks of a grant say.
abbrev Passes : Crypto → Text → Text → ℕ → OAuthGrant → Type 0
Passes c token resource now g =
    (c.hash_token token ≡ g.access_token_hash)
    × (now < g.access_expires_at)
    × (now < g.expires_at)
    × (g.resource ≡ resource)

four_checks :
    (b1 b2 b3 b4 : Bool) (e1 e2 e3 e4 : AuthError) (x : Unit)
    → (ensure b1 e1 >> ensure b2 e2 >> ensure b3 e3 >> ensure b4 e4) ≡ ok x
    → (b1 ≡ true) × (b2 ≡ true) × (b3 ≡ true) × (b4 ≡ true)
four_checks true true true true e1 e2 e3 e4 x e = (refl, refl, refl, refl)
four_checks true true true false e1 e2 e3 e4 x e = absurd (ok≢err (sym e))
four_checks true true false b4 e1 e2 e3 e4 x e = absurd (ok≢err (sym e))
four_checks true false b3 b4 e1 e2 e3 e4 x e = absurd (ok≢err (sym e))
four_checks false b2 b3 b4 e1 e2 e3 e4 x e = absurd (ok≢err (sym e))

earlier : (a b : ℕ) → not (leb a b) ≡ true → b < a
earlier a b e = ground arith

access_checks_sound :
    (c : Crypto) (token resource : Text) (now : ℕ) (g : OAuthGrant) (x : Unit)
    → access_checks c token resource now g ≡ ok x
    → Passes c token resource now g
unfolding access_checks
access_checks_sound c token resource now g x e =
    let (m, a, b, r) =
      four_checks (matches c token g.access_token_hash) (not (leb g.access_expires_at now))
        (not (leb g.expires_at now)) (text_eq g.resource resource) _ _ _ _ x e in
    (
      matches_sound c token g.access_token_hash m,
      earlier g.access_expires_at now a,
      earlier g.expires_at now b,
      (text_eq_iff g.resource resource).0 r,
    )

module _ (c : Crypto) (token resource : Text) (now : ℕ) (g : OAuthGrant) (m1 m2 m3 : Text) where
  check_parts :
      (r : Result AuthError Unit) (x : OAuthGrant)
      → (r >>= λ _. ok x) ≡ ok g
      → (x ≡ g) × (r ≡ ok tt)
  check_parts (ok u) x e = (ok_injective e, refl)
  check_parts (err f) x e = absurd (ok≢err (sym e))

  row_parts :
      (r : Result Error (Option OAuthGrant))
      → (or_classify m2 r >>= λ row. or_permanent m3 row >>= λ grant.
          access_checks c token resource now grant >>= λ _. ok grant)
        ≡ ok g
      → (r ≡ ok (some g)) × Passes c token resource now g
  row_parts (err f) e = absurd (ok≢err (sym e))
  row_parts (ok none) e = absurd (ok≢err (sym e))
  row_parts (ok (some x)) e =
      let (same, passed) = check_parts (access_checks c token resource now x) x e in
      (
        ap (λ y. ok (some y)) same,
        access_checks_sound c token resource now g tt
            (ap (access_checks c token resource now) (sym same) ∙ passed),
      )

  grant_parts :
      (o : Option (Text × Text)) (rows : Text → Result Error (Option OAuthGrant))
      → (or_permanent m1 (with_token token o) >>= λ parsed.
          or_classify m2 (rows parsed.0) >>= λ row. or_permanent m3 row >>= λ grant.
          access_checks c parsed.1 resource now grant >>= λ _. ok grant)
        ≡ ok g
      → (id : Text) × (with_token token o ≡ some (id, token))
        × (rows id ≡ ok (some g))
        × Passes c token resource now g
  grant_parts none rows e = absurd (ok≢err (sym e))
  grant_parts (some (id, secret)) rows e =
      let (row, passed) = row_parts (rows id) e in (id, refl, row, passed)

pub grant_of_sound :
    (a : App) (token resource : Text) (now : ℕ) (seen : Grants) (g : OAuthGrant)
    → grant_of a token resource now seen ≡ ok g
    → (id : Text) × (parse_access_token token ≡ some (id, token))
      × (seen id ≡ some g)
      × Passes a.crypto token resource now g
unfolding grant_of get_oauth_grant parse_access_token
grant_of_sound a token resource now seen g e =
    let (id, parsed, row, passed) =
      grant_parts a.crypto token resource now g (codes "Malformed OAuth access token")
        (codes "fetch oauth grant") (codes "OAuth grant not found")
        (parse_token token access_token_prefix) (λ id. get_oauth_grant a.store id seen) e in
    (id, parsed, row_read_there _ _ g row, passed)

after_that :
    (r : Result AuthError Unit) (v : Result AuthError AuthUser) (w : AuthUser)
    → (r >> v) ≡ ok w
    → v ≡ ok w
after_that (ok u) v w e = e
after_that (err f) v w e = absurd (ok≢err (sym e))

auth_user_id :
    (user_id : Text) (row : UserRow) (m : Result AuthError (List Membership)) (w : AuthUser)
    → auth_user user_id row m ≡ ok w
    → w.id ≡ user_id
auth_user_id user_id row (ok ms) w e = sym (ap (λ (u : AuthUser). u.id) (ok_injective e))
auth_user_id user_id row (err f) w e = absurd (ok≢err (sym e))

fetched_id :
    (us : Users) (user_id : Text) (now : ℕ) (m1 m2 : Text) (r : Result Error (Option UserRow))
    (w : AuthUser)
    → (or_classify m1 r >>= λ found. or_permanent m2 found >>= enabled_user us user_id now) ≡ ok w
    → w.id ≡ user_id
fetched_id us user_id now m1 m2 (err f) w e = absurd (ok≢err (sym e))
fetched_id us user_id now m1 m2 (ok none) w e = absurd (ok≢err (sym e))
fetched_id us user_id now m1 m2 (ok (some row)) w e = auth_user_id user_id row _ w (
    after_that
      (ensure row.enabled (permanent (codes "User account is disabled"))
        >> (if is_stale 60 now row.access_time
            then or_skipped (us.set_access_time user_id)
            else ok tt))
      _ w e)

user_of_grant :
    (g : OAuthGrant) (r : Result AuthError AuthUser) (w : AuthUser)
    → ((u : AuthUser) → r ≡ ok u → u.id ≡ g.user_id)
    → (r >>= λ u. ok (with_grant g.id u)) ≡ ok w
    → (w.id ≡ g.user_id) × (w.grant_id ≡ some g.id)
user_of_grant g (err f) w k e = absurd (ok≢err (sym e))
user_of_grant g (ok u) w k e =
    let same = ok_injective e in
    (
      sym (ap (λ (x : AuthUser). x.id) same) ∙ k u refl,
      sym (ap (λ (x : AuthUser). x.grant_id) same),
    )

pub accepted_sound :
    (a : App) (k : Clock) (t : Grants) (r : Result AuthError OAuthGrant) (w : AuthUser) (u : Grants)
    → accepted a k t r ≡ (ok w, u)
    → (g : OAuthGrant) × (r ≡ ok g) × (w.id ≡ g.user_id) × (w.grant_id ≡ some g.id)
unfolding fetch_update_user_auth_info
accepted_sound a k t (err f) w u e = absurd (ok≢err (sym (ap (λ x. x.0) e)))
accepted_sound a k t (ok g) w u e =
    let (user, grant) =
      user_of_grant g (fetch_update_user_auth_info a.users g.user_id k.user_now) w
        (fetched_id a.users g.user_id k.user_now (codes "fetch user from db")
          (codes "User not found") (a.users.get_user g.user_id))
        (after_that (touch a g k t).0 (verified_user a g k) w (ap (λ x. x.0) e)) in
    (g, refl, user, grant)
