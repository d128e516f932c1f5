-- ===== src/Grants/Lifetime.antt =====
-- What the grant of an accepted access token is (`verify_access_token` of api/src/oauth.rs), whatever
-- was done to its row since it was minted.
use microticket.Prelude.{
  ℕ, Text, Option, some, List, ◌≡◌, ◌≢◌, ◌<◌, ◌+◌, ◌^◌, refl, sym, ap, ◌∙◌, ok, All, All-map, arith,
}
use microticket.Grants.{
  OAuthGrant, rotate, Grants, Nonces, Consent, GrantStore, parse_access_token, mint_grant,
  create_oauth_grant, grant_creation, grant_absolute_lifetime_s, add_u64, touch_last_used,
}
use microticket.Grants.Users.{AuthUser}
use microticket.Grants.Access.{App, Clock, grant_of, verify_access_token}
use microticket.Grants.Stored.{
  At, GrantRequest, creation, change, deletion, Respects, run_all, run_all-At, write_ok,
  written_here, some_row,
}
use microticket.Grants.Accepted.{accepted_sound, grant_of_sound}

-- A row that keeps the user, the resource and the end of a grant.
abbrev pub IsOf : OAuthGrant → OAuthGrant → Type 0
IsOf minted g =
    (g.user_id ≡ minted.user_id)
    × (g.resource ≡ minted.resource)
    × (g.expires_at ≡ minted.expires_at)

-- Not the creation of a grant under an id.
abbrev pub IsElsewhere : Text → GrantRequest → Type 0
IsElsewhere id (creation g) = g.id ≢ id
IsElsewhere id (change j shape now) = Unit
IsElsewhere id (deletion j) = Unit

elsewhere-Respects :
    (minted : OAuthGrant) (id : Text) (r : GrantRequest)
    → IsElsewhere id r
    → Respects (IsOf minted) id r
elsewhere-Respects minted id (creation g) other = λ same. absurd (other same)
elsewhere-Respects minted id (change j (rotate r) now) h = λ same g kept. kept
elsewhere-Respects minted id (change j touch_last_used now) h = λ same g kept. kept
elsewhere-Respects minted id (deletion j) h = tt

created-At :
    (h : GrantStore) (minted : OAuthGrant) (t u : Grants)
    → create_oauth_grant h minted t ≡ (ok tt, u)
    → At (IsOf minted) minted.id u
unfolding create_oauth_grant
created-At h minted t u e =
    let (absent, made) = write_ok h _ (grant_creation minted) t tt u e in
    λ g at.
      let same : minted ≡ g = some_row (
        sym (written_here t (grant_creation minted) (t minted.id) refl)
        ∙ ap (λ f. f minted.id) (sym made)
        ∙ at) in
      (
        sym (ap (λ (x : OAuthGrant). x.user_id) same),
        sym (ap (λ (x : OAuthGrant). x.resource) same),
        sym (ap (λ (x : OAuthGrant). x.expires_at) same),
      )

before_end :
    (now t0 e : ℕ)
    → t0 + grant_absolute_lifetime_s < 2 ^ 64
    → now < e
    → e ≡ add_u64 t0 grant_absolute_lifetime_s
    → now < t0 + grant_absolute_lifetime_s
before_end now t0 e small h same = omega arith

-- A grant is minted at `t0`, with its end in 64 bits, and stored. Whatever others then do to the
-- table, creating no grant under the same id, if a token of the grant is accepted for a resource, then
-- the user is the one who consented and the resource the one consented to, the time is less than 90
-- days from `t0`, and the row read holds the hash of the token and has not run out.
pub verify_access_token_bounded :
    (a : App) (n : Nonces) (id : Text) (consent : Consent) (t0 : ℕ) (t u : Grants)
    (others : List GrantRequest) (token resource : Text) (k : Clock) (later last : Grants)
    (w : AuthUser)
    → t0 + grant_absolute_lifetime_s < 2 ^ 64
    → create_oauth_grant a.store (mint_grant a.crypto n id consent t0) t ≡ (ok tt, u)
    → All (IsElsewhere id) others
    → parse_access_token token ≡ some (id, token)
    → verify_access_token a token resource k (run_all a.store others u) later ≡ (ok w, last)
    → (w.id ≡ consent.user_id)
      × (resource ≡ consent.resource)
      × (k.now < t0 + grant_absolute_lifetime_s)
      × ((g : OAuthGrant) × (run_all a.store others u id ≡ some g)
          × (a.crypto.hash_token token ≡ g.access_token_hash)
          × (k.now < g.access_expires_at)
          × (w.grant_id ≡ some g.id))
unfolding verify_access_token mint_grant
verify_access_token_bounded a n id consent t0 t u others token resource k later last w small created
      elsewhere parsed e =
    let minted = mint_grant a.crypto n id consent t0 in
    let seen = run_all a.store others u in
    let (g, checked, user, grant) =
      accepted_sound a k later (grant_of a token resource k.now seen) w last e in
    let (j, parsed', row, (hash, access, end, same)) =
      grant_of_sound a token resource k.now seen g checked in
    let here : j ≡ id = same_id (sym parsed' ∙ parsed) in
    let stands : seen id ≡ some g = ap seen (sym here) ∙ row in
    let (by, for, until) =
      run_all-At a.store (IsOf minted) id others u
        (All-map (elsewhere-Respects minted id) others elsewhere)
        (created-At a.store minted t u created) g stands in
    (
      user ∙ by,
      sym same ∙ for,
      before_end k.now t0 g.expires_at small end until,
      (g, stands, hash, access, grant),
    )
  where
    same_id :
        {x y : Text} → ◌≡◌ {A = Option (Text × Text)} (some (x, token)) (some (y, token)) → x ≡ y
    same_id q = cc
