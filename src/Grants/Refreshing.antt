-- ===== src/Grants/Refreshing.antt =====
-- What a refresh that gives out tokens has seen and done (`token_refresh` of api/src/oauth_http.rs).
use microticket.Prelude.{
  Text, Bool, true, false, Option, none, some, ◌≡◌, inl, inr, refl, sym, ap, ◌∙◌, ◌>>=◌, Result, ok,
  err, ok≢err, Bool-cases, &&-true, ok_injective, ==_iff,
}
use microticket.Db.{Error}
use microticket.Grants.{
  OAuthGrant, rotate, Crypto, equal_in_constant_time, Grants, Nonces, parse_refresh_token,
  get_oauth_grant, row_read, update_oauth_grant, rotate_grant, has_refresh_hash, mint_tokens,
  with_token, parse_token, refresh_token_prefix, grant_update, written,
}
use microticket.Grants.Access.{App, Clock, matches}
use microticket.Grants.Refresh.{
  ErrorReply, HttpReply, token_response, error_reply, Params, required, loaded, well_formed_token,
  grant_named, refresh_grant, issue_checked, refresh_named, token_refresh, replaced, revoked,
}
use microticket.Grants.Stored.{write_ok}

-- Rows stand under their own ids.
abbrev pub IsKeyed : Grants → Type 0
IsKeyed t = (id : Text) (g : OAuthGrant) → t id ≡ some g → g.id ≡ id

-- The tokens are given out.
abbrev pub is_token_response : HttpReply → Bool
is_token_response (token_response access refresh scope) = true
is_token_response (error_reply r) = false

pub matches_sound :
    (c : Crypto) (token hash : Text) → matches c token hash ≡ true → c.hash_token token ≡ hash
unfolding matches equal_in_constant_time
matches_sound c token hash e =
    let (len, same) = &&-true _ _ e in
    c.as_bytes_injective _ _ ((c.ct_eq_iff _ _ ((==_iff _ _).0 len)).0 same)

-- What giving out tokens does to the row it was decided on.
abbrev Issued : App → Nonces → Clock → OAuthGrant → Grants → HttpReply → Grants → Type 0
Issued a n k g t reply u =
    (has_refresh_hash g.refresh_token_hash (t g.id) ≡ true)
    × (reply ≡ token_response (mint_tokens n g.id).0 (mint_tokens n g.id).1 g.scope)
    × (u ≡ written t (grant_update g.id (rotate (rotate_grant a.crypto n g k.now)) k.write_now))

-- What a refresh that gives out tokens has seen and done.
abbrev pub Refreshed : App → Text → Nonces → Clock → Grants → Grants → HttpReply → Grants → Type 0
Refreshed a token n k seen t reply u =
    (id : Text) × (g : OAuthGrant) × (parse_refresh_token token ≡ some (id, token))
    × (seen id ≡ some g)
    × (a.crypto.hash_token token ≡ g.refresh_token_hash)
    × Issued a n k g t reply u

refused_tokens :
    (r : ErrorReply) (reply : HttpReply)
    → is_token_response reply ≡ true
    → error_reply r ≡ reply
    → ⊥
refused_tokens r reply given e = false≢true (ap is_token_response e ∙ given)
  where
    false≢true : false ≡ true → ⊥
    false≢true q = cc

no_tokens :
    (r : Result Error Unit × Grants) (reply : HttpReply) (u : Grants)
    → is_token_response reply ≡ true
    → revoked r ≡ (reply, u)
    → ⊥
no_tokens (ok x, t) reply u given e = refused_tokens _ reply given (ap (λ q. q.0) e)
no_tokens (err f, t) reply u given e = refused_tokens _ reply given (ap (λ q. q.0) e)

pub row_read_there :
    (fault : Option Text) (o : Option OAuthGrant) (g : OAuthGrant)
    → row_read fault o ≡ ok (some g)
    → o ≡ some g
row_read_there none o g e = ok_injective e
row_read_there (some m) o g e = absurd (ok≢err (sym e))

module _ (token v client_id : Text) (g : OAuthGrant) where
  loaded_parts :
      (c : Text) (r : Result Error (Option OAuthGrant))
      → ◌>>=◌ {B = Text × Text × OAuthGrant} (loaded r) (λ grant. ok (token, c, grant))
        ≡ ok (v, client_id, g)
      → (v ≡ token) × (r ≡ ok (some g))
  loaded_parts c (ok none) e = absurd (ok≢err (sym e))
  loaded_parts c (ok (some x)) e =
      let same = ok_injective e in
      (sym (ap (λ y. y.0) same), ap (λ y. ok (some y)) (ap (λ y. y.2) same))
  loaded_parts c (err f) e = absurd (ok≢err (sym e))

  named_parts :
      (c : Result ErrorReply Text) (o : Option (Text × Text))
      (rows : Text → Result Error (Option OAuthGrant))
      → (c >>= λ client. well_formed_token (with_token token o) >>= λ parsed.
          ◌>>=◌ {B = Text × Text × OAuthGrant}
            (loaded (rows parsed.0))
            (λ grant. ok (parsed.1, client, grant)))
        ≡ ok (v, client_id, g)
      → (v ≡ token)
        × ((id : Text) × (with_token token o ≡ some (id, token)) × (rows id ≡ ok (some g)))
  named_parts (err r) o rows e = absurd (ok≢err (sym e))
  named_parts (ok c) none rows e = absurd (ok≢err (sym e))
  named_parts (ok c) (some (id, secret)) rows e =
      let (whole, row) = loaded_parts c (rows id) e in (whole, (id, refl, row))

grant_named_sound :
    (a : App) (p : Params) (seen : Grants) (token v client_id : Text) (g : OAuthGrant)
    → p.refresh_token ≡ some token
    → grant_named a p seen ≡ ok (v, client_id, g)
    → (v ≡ token)
      × ((id : Text) × (parse_refresh_token token ≡ some (id, token)) × (seen id ≡ some g))
unfolding grant_named get_oauth_grant parse_refresh_token
grant_named_sound a p seen token v client_id g given e =
    let (whole, (id, parsed, row)) =
      named_parts token v client_id g (required p.client_id)
        (parse_token token refresh_token_prefix) (λ id. get_oauth_grant a.store id seen)
        (rw given at e) in
    (whole, (id, parsed, row_read_there _ _ g row))

replaced_tokens :
    (tokens : HttpReply) (r : Result Error Unit × Grants) (reply : HttpReply) (u : Grants)
    → is_token_response reply ≡ true
    → replaced tokens r ≡ (reply, u)
    → (x : Unit) × (r ≡ (ok x, u)) × (reply ≡ tokens)
replaced_tokens tokens (ok x, v) reply u given e = (x, cc, cc)
replaced_tokens tokens (err f, v) reply u given e =
    absurd (refused_tokens _ reply given (ap (λ q. q.0) e))

module _ (a : App) (p : Params) (n : Nonces) (k : Clock) (t u : Grants) (reply : HttpReply) where
  issued :
      (g : OAuthGrant) (checks : Result ErrorReply Unit)
      → is_token_response reply ≡ true
      → issue_checked a n k g t checks ≡ (reply, u)
      → Issued a n k g t reply u
  unfolding update_oauth_grant rotate_grant
  issued g (err r) given e = absurd (refused_tokens r reply given (ap (λ q. q.0) e))
  issued g (ok x) given e =
      let (y, done, same) = replaced_tokens _ _ reply u given e in
      let (holds, made) =
        write_ok a.store _
          (grant_update g.id (rotate (rotate_grant a.crypto n g k.now)) k.write_now) t y u done in
      (holds, same, made)

  refresh_grant_sound :
      (token client_id : Text) (g : OAuthGrant)
      → is_token_response reply ≡ true
      → refresh_grant a p n k token client_id g t ≡ (reply, u)
      → (a.crypto.hash_token token ≡ g.refresh_token_hash) × Issued a n k g t reply u
  unfolding refresh_grant
  refresh_grant_sound token client_id g given e =
      elim (Bool-cases (matches a.crypto token g.refresh_token_hash)) [
        | inl same ↦ (matches_sound a.crypto token _ same, issued g _ given (rw same at e))
        | inr other ↦ absurd (no_tokens _ reply u given (rw other at e))
      ]

  pub token_refresh_sound :
      (seen : Grants) (token : Text)
      → p.refresh_token ≡ some token
      → is_token_response reply ≡ true
      → token_refresh a p n k seen t ≡ (reply, u)
      → Refreshed a token n k seen t reply u
  unfolding token_refresh
  token_refresh_sound seen token held given e = named (grant_named a p seen) refl e
    where
      named :
          (r : Result ErrorReply (Text × Text × OAuthGrant))
          → grant_named a p seen ≡ r
          → refresh_named a p n k t r ≡ (reply, u)
          → Refreshed a token n k seen t reply u
      named (err r) at q = absurd (refused_tokens r reply given (ap (λ x. x.0) q))
      named (ok (v, client_id, g)) at q =
          let (whole, (id, parsed, row)) = grant_named_sound a p seen token v client_id g held at in
          let (hash, done) = refresh_grant_sound token client_id g given (rw whole at q) in
          (id, g, parsed, row, hash, done)
