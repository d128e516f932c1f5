-- ===== src/Grants/Stored.antt =====
-- What a request on the rows of grants does to one row (the `oauth_grant` methods of
-- api/src/dynamodb.rs), whoever sends it.
use microticket.Prelude.{
  ℕ, Text, true, Option, none, some, List, [], ◌∷◌, ◌≡◌, ◌⊎◌, inl, inr, refl, sym, ap, ok, ok≢err,
  text_eq, text_eq_iff, Bool-cases, All,
}
use microticket.Db.{Error}
use microticket.Billing.{on_row}
use mathlib.Core.Path.{subst}
use microticket.Dynamo.{Answer, committed, refused, failed}
use microticket.Grants.{
  OAuthGrant, OAuthGrantUpdateShape, rotate, touch_last_used, Grants, GrantWrite, written,
  GrantStore, settled, write, grant_creation, grant_update, grant_deletion, create_oauth_grant,
  update_oauth_grant, delete_oauth_grant, rotated, used_at,
}

-- A write made, or nothing.
abbrev pub MayWrite : GrantWrite → Grants → Grants → Type 0
MayWrite w t u = (u ≡ t) ⊎ ((w.condition (t w.key) ≡ true) × (u ≡ written t w))

module _ (h : GrantStore) (e : Error) (w : GrantWrite) (t : Grants) where
  settled_effect : (a : Answer × Grants) → h.service.submit t w ≡ a → MayWrite w t (settled e a).1
  settled_effect (committed, u) s = inr (h.service.committed_means t w u s)
  settled_effect (refused, u) s = inl (h.service.refused_means t w u s)
  settled_effect (failed m, u) s = h.service.failed_means t w m u s

  settled_ok :
      (a : Answer × Grants) (x : Unit) (u : Grants)
      → h.service.submit t w ≡ a
      → settled e a ≡ (ok x, u)
      → (w.condition (t w.key) ≡ true) × (u ≡ written t w)
  settled_ok (committed, v) x u s q =
      let (holds, same) = h.service.committed_means t w v s in (holds, cc)
  settled_ok (refused, v) x u s q = absurd (ok≢err (sym (ap (λ p. p.0) q)))
  settled_ok (failed m, v) x u s q = absurd (ok≢err (sym (ap (λ p. p.0) q)))

  pub write-effect : MayWrite w t (write h e w t).1
  unfolding write
  write-effect = elim (Bool-cases h.read_only) [
    | inl on ↦ inl (rw on refl)
    | inr off ↦ rw off (settled_effect (h.service.submit t w) refl)
  ]

  pub write_ok :
      (x : Unit) (u : Grants)
      → write h e w t ≡ (ok x, u)
      → (w.condition (t w.key) ≡ true) × (u ≡ written t w)
  unfolding write
  write_ok x u q = elim (Bool-cases h.read_only) [
    | inl on ↦ absurd (ok≢err (sym (ap (λ p. p.0) (rw on at q))))
    | inr off ↦ settled_ok (h.service.submit t w) x u refl (rw off at q)
  ]

pub written_here :
    (t : Grants) (w : GrantWrite) (o : Option OAuthGrant)
    → t w.key ≡ o
    → written t w w.key ≡ w.after o
written_here t w o e = rw ((text_eq_iff w.key w.key).1 refl) (ap w.after e)

pub some_row : {x y : OAuthGrant} → some x ≡ some y → x ≡ y
some_row e = cc

-- The row under an id, if there is one, has a property.
abbrev pub At : (OAuthGrant → Type 0) → Text → Grants → Type 0
At Q i t = (g : OAuthGrant) → t i ≡ some g → Q g

module _ (Q : OAuthGrant → Type 0) (i : Text) (t : Grants) where
  pub written-At :
      (w : GrantWrite)
      → At Q i t
      → ((g : OAuthGrant) → w.key ≡ i → w.after (t i) ≡ some g → Q g)
      → At Q i (written t w)
  written-At w at k g e = elim (Bool-cases (text_eq w.key i)) [
    | inr other ↦ at g (rw other at e)
    | inl same ↦ let here = (text_eq_iff w.key i).0 same in k g here (rw here at (rw same at e))
  ]

  pub MayWrite-At :
      (w : GrantWrite) (u : Grants)
      → At Q i t
      → ((g : OAuthGrant) → w.key ≡ i → w.after (t i) ≡ some g → Q g)
      → MayWrite w t u
      → At Q i u
  MayWrite-At w u at k (inl same) = rw same at
  MayWrite-At w u at k (inr (holds, made)) = rw made (written-At w at k)

-- A request on the table, by anyone.
pub data GrantRequest : Type 0 where
  creation : OAuthGrant → GrantRequest
  change : Text → OAuthGrantUpdateShape → ℕ → GrantRequest
  deletion : Text → GrantRequest

abbrev pub run : GrantStore → GrantRequest → Grants → Grants
run h (creation g) t = (create_oauth_grant h g t).1
run h (change id shape now) t = (update_oauth_grant h id shape now t).1
run h (deletion id) t = (delete_oauth_grant h id t).1

abbrev pub run_all : GrantStore → List GrantRequest → Grants → Grants
run_all h [] t = t
run_all h (r ∷ rs) t = run_all h rs (run h r t)

-- A request leaves the property to the row under an id.
abbrev pub Respects : (OAuthGrant → Type 0) → Text → GrantRequest → Type 0
Respects Q i (creation g) = g.id ≡ i → Q g
Respects Q i (change id (rotate r) now) = id ≡ i → (g : OAuthGrant) → Q g → Q (rotated r g)
Respects Q i (change id touch_last_used now) = id ≡ i → (g : OAuthGrant) → Q g → Q (used_at now g)
Respects Q i (deletion id) = Unit

module _ (h : GrantStore) (Q : OAuthGrant → Type 0) (i : Text) where
  on_row_at :
      (f : OAuthGrant → OAuthGrant) (o : Option OAuthGrant)
      → ((g : OAuthGrant) → o ≡ some g → Q (f g))
      → (g : OAuthGrant) → on_row f o ≡ some g
      → Q g
  on_row_at f none k g e = absurd cc
  on_row_at f (some x) k g e = subst Q (some_injective e) (k x refl)
    where
      some_injective : some (f x) ≡ some g → f x ≡ g
      some_injective q = cc

  no_row : (g : OAuthGrant) → none ≡ some g → Q g
  no_row g e = absurd cc

  pub run-At : (r : GrantRequest) (t : Grants) → Respects Q i r → At Q i t → At Q i (run h r t)
  unfolding create_oauth_grant update_oauth_grant delete_oauth_grant
  run-At (creation x) t k at =
      MayWrite-At Q i t (grant_creation x) _ at (λ g same e. subst Q (some_injective g e) (k same))
        (write-effect h _ _ t)
    where
      some_injective : (g : OAuthGrant) → some x ≡ some g → x ≡ g
      some_injective g q = cc
  run-At (change id (rotate x) now) t k at =
      MayWrite-At Q i t (grant_update id (rotate x) now) _ at
        (λ g same. on_row_at _ (t i) (λ y e. k same y (at y e)) g) (write-effect h _ _ t)
  run-At (change id touch_last_used now) t k at =
      MayWrite-At Q i t (grant_update id touch_last_used now) _ at
        (λ g same. on_row_at _ (t i) (λ y e. k same y (at y e)) g) (write-effect h _ _ t)
  run-At (deletion id) t k at =
      MayWrite-At Q i t (grant_deletion id) _ at (λ g same. no_row g) (write-effect h _ _ t)

  pub run_all-At :
      (rs : List GrantRequest) (t : Grants)
      → All (Respects Q i) rs
      → At Q i t
      → At Q i (run_all h rs t)
  run_all-At [] t k at = at
  run_all-At (r ∷ rs) t (k, ks) at = run_all-At rs (run h r t) ks (run-At r t k at)
