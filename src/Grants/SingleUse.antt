-- ===== src/Grants/SingleUse.antt =====
-- A refresh token is used once (`token_refresh` of api/src/oauth_http.rs).
use microticket.Prelude.{
  Text, true, false, Option, none, some, List, ◌≡◌, ◌≢◌, inl, inr, refl, sym, ap, ◌∙◌, text_eq_iff,
  Bool-cases, All,
}
use microticket.Grants.{
  OAuthGrant, rotate, Grants, Nonces, parse_refresh_token, rotate_grant, has_refresh_hash, rotated,
  mint_tokens, grant_update, written,
}
use microticket.Grants.Access.{App, Clock}
use microticket.Grants.Refresh.{HttpReply, token_response, Params, token_refresh}
use microticket.Grants.Stored.{
  At, GrantRequest, Respects, run_all, run_all-At, written_here, some_row,
}
use microticket.Grants.Refreshing.{IsKeyed, Refreshed, is_token_response, token_refresh_sound}

-- The row no longer has a hash of a refresh token.
abbrev pub Lacks : Text → OAuthGrant → Type 0
Lacks hash g = g.refresh_token_hash ≢ hash

has_refresh_hash_row :
    (hash : Text) (o : Option OAuthGrant)
    → has_refresh_hash hash o ≡ true
    → (g : OAuthGrant) × (o ≡ some g) × (g.refresh_token_hash ≡ hash)
has_refresh_hash_row hash none e = absurd cc
has_refresh_hash_row hash (some g) e = (g, refl, (text_eq_iff g.refresh_token_hash hash).0 e)

tokens_injective :
    {access refresh scope access' refresh' scope' : Text}
    → token_response access refresh scope ≡ token_response access' refresh' scope'
    → refresh ≡ refresh'
tokens_injective e = cc

module _ (a : App) (id token : Text) (parsed : parse_refresh_token token ≡ some (id, token)) where
  same_id : (j : Text) → parse_refresh_token token ≡ some (j, token) → j ≡ id
  same_id j e = ap (λ x. x.0) (some_injective (sym e ∙ parsed))
    where
      some_injective : {x y : Text × Text} → some x ≡ some y → x ≡ y
      some_injective q = cc

  -- No row under the id has the hash of the token, so no refresh gives out tokens.
  no_second :
      (n : Nonces) (k : Clock) (seen t : Grants) (reply : HttpReply) (u : Grants)
      → IsKeyed seen
      → At (Lacks (a.crypto.hash_token token)) id t
      → Refreshed a token n k seen t reply u
      → ⊥
  no_second n k seen t reply u keyed at (j, g, parsed', row, hash, (had, _, _)) =
      let here : g.id ≡ id = keyed j g row ∙ same_id j parsed' in
      let (x, stands, same) = has_refresh_hash_row _ (t g.id) had in
      at x (ap t (sym here) ∙ stands) (same ∙ sym hash)

  spent_once :
      (n : Nonces) (k : Clock) (seen t u : Grants) (access refresh scope : Text)
      → IsKeyed seen
      → a.crypto.hash_token refresh ≢ a.crypto.hash_token token
      → Refreshed a token n k seen t (token_response access refresh scope) u
      → At (Lacks (a.crypto.hash_token token)) id u
  unfolding rotate_grant
  spent_once n k seen t u access refresh scope keyed differs
        (j, g, parsed', row, hash, (had, reply, made)) =
      let (x, stands, same) = has_refresh_hash_row _ (t g.id) had in
      let here : g.id ≡ id = keyed j g row ∙ same_id j parsed' in
      let w = grant_update g.id (rotate (rotate_grant a.crypto n g k.now)) k.write_now in
      let new : refresh ≡ (mint_tokens n g.id).1 = tokens_injective reply in
      let there_is : u id ≡ some (rotated (rotate_grant a.crypto n g k.now) x) =
        rw made (ap (written t w) (sym here) ∙ written_here t w (some x) stands) in
      λ y e same. differs (
        ap a.crypto.hash_token new
        ∙ ap (λ (o : OAuthGrant). o.refresh_token_hash) (some_row (sym there_is ∙ e))
        ∙ same)

-- Rows stand under their own ids. Once a refresh has given out tokens for a refresh token, the new
-- one with another hash, and no request of others puts the old hash back under its grant, no later
-- refresh with the same refresh token gives out tokens, even one that has read the row before.
pub token_refresh_once :
    (a : App) (p p' : Params) (n n' : Nonces) (k k' : Clock) (seen seen' t u : Grants)
    (others : List GrantRequest) (id token : Text) (access refresh scope : Text)
    → IsKeyed seen
    → IsKeyed seen'
    → p.refresh_token ≡ some token
    → p'.refresh_token ≡ some token
    → parse_refresh_token token ≡ some (id, token)
    → token_refresh a p n k seen t ≡ (token_response access refresh scope, u)
    → a.crypto.hash_token refresh ≢ a.crypto.hash_token token
    → All (Respects (Lacks (a.crypto.hash_token token)) id) others
    → is_token_response (token_refresh a p' n' k' seen' (run_all a.store others u)).0 ≡ false
token_refresh_once a p p' n n' k k' seen seen' t u others id token access refresh scope keyed keyed'
      held held' parsed first differs respect =
    let t2 = run_all a.store others u in
    let r = token_refresh a p' n' k' seen' t2 in
    let later = run_all-At a.store (Lacks (a.crypto.hash_token token)) id others u respect (
      spent_once a id token parsed n k seen t u access refresh scope keyed differs (
        token_refresh_sound a p n k t u (token_response access refresh scope) seen token held refl
          first)) in
    elim (Bool-cases (is_token_response r.0)) [
      | inr none_given ↦ none_given
      | inl given ↦ absurd (
          no_second a id token parsed n' k' seen' t2 r.0 r.1 keyed' later
            (token_refresh_sound a p' n' k' t2 r.1 r.0 seen' token held' given refl))
    ]
