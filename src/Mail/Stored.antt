-- ===== src/Mail/Stored.antt =====
-- Which stored inbound addresses mail can reach (api/src/inbound/routing.rs `classify_for_storage` and
-- `lookup_keys`).
use microticket.Prelude.{
  ℕ, Text, Bool, true, false, ◌||◌, Option, none, some, [], ◌∷◌, ◌++◌, ◌≡◌, ◌≢◌, refl, arith, All,
  All-map, Lacks, ok, Result, err, split_once, trim, split_once-append, split_once-none,
  split_once_sound, text_eq, is_empty, if◌then◌else◌, sym, ap, ◌∙◌, subst,
}
use microticket.Mail.{
  AddressKind, AddressError, exact, wildcard, at, contains, classify_split, classify_for_storage,
  lookup_keys, wildcard_for_domain, normalize_recipient, normalize_local, normalize_split, keys_of,
}

-- What is stored is the lowercased text.
classify_split_ok :
    (raw low : Text) (o : Option (Text × Text)) (a : Text) (k : AddressKind)
    → classify_split raw low o ≡ ok (a, k)
    → low ≡ a
classify_split_ok raw low none a k h = cc
classify_split_ok raw low (some (local, domain)) a k h =
    go (is_empty domain) (text_eq local (b'*' ∷ [])) (contains b'*' local || contains b'*' domain)
      (is_empty local) h
  where
    stored :
        {k' : AddressKind}
        → ◌≡◌ {A = Result AddressError (Text × AddressKind)} (ok (low, k')) (ok (a, k))
        → low ≡ a
    stored e = cc

    go :
        (b c d e : Bool)
        → ◌≡◌ {A = Result AddressError (Text × AddressKind)}
            (if b
              then err (AddressError.no_domain raw)
              else if c
              then ok (low, wildcard)
              else if d
              then err (AddressError.misplaced_star raw)
              else if e
              then err (AddressError.no_local raw)
              else ok (low, exact))
            (ok (a, k))
        → low ≡ a
    go true c d e h' = cc
    go false true d e h' = stored h'
    go false false true e h' = cc
    go false false false true h' = cc
    go false false false false h' = stored h'

module _ (lower : Text → Text) (parts : (s t : Text) → lower (at s t) ≡ at (lower s) (lower t))
    (again : (s : Text) → lower (lower s) ≡ lower s) where
  -- If `lower` lowercases the parts on both sides of an `@` on their own and does nothing the
  -- second time, mail to a stored exact address whose local part has no `+` is looked up under the
  -- stored address first, and then under the wildcard of its domain.
  pub stored_address_reached :
      (raw local domain : Text)
      → classify_for_storage lower raw ≡ ok (at local domain, exact)
      → Lacks b'@' local
      → Lacks b'+' local
      → lookup_keys lower (at local domain)
        ≡ at local domain ∷ wildcard_for_domain (lower domain) ∷ []
  unfolding classify_for_storage
  stored_address_reached raw local domain h la lp =
      let low =
        classify_split_ok raw _ (split_once b'@' (lower (trim raw))) (at local domain) exact h in
      let fixed : lower (at local domain) ≡ at local domain =
        ap lower (sym low) ∙ again (trim raw) ∙ low in
      let whole : at (lower local) (lower domain) ≡ at local domain =
        sym (parts local domain) ∙ fixed in
      ap (λ o. keys_of (normalize_split lower (at local domain) o))
        (split_once-append b'@' local domain la)
      ∙ ap (λ o. keys_of (normalize_local lower local domain o)) (split_once-none b'+' local lp)
      ∙ ap (λ z. z ∷ wildcard_for_domain (lower domain) ∷ []) whole

-- The local part of the text, if it is an address, has no `+`.
abbrev pub Plain : Text → Type 0
Plain k = (local domain : Text) → Lacks b'@' local → k ≡ at local domain → Lacks b'+' local

Lacks-left : (c : ℕ) (a b : Text) → Lacks c (a ++ b) → Lacks c a
Lacks-left c [] b h = tt
Lacks-left c (x ∷ a) b (hx, h) = (hx, Lacks-left c a b h)

Lacks-not_at : (local domain : Text) → Lacks b'@' (at local domain) → ⊥
Lacks-not_at [] domain (h, _) = h refl
Lacks-not_at (x ∷ local) domain (_, h) = Lacks-not_at local domain h

unsplit : (c : ℕ) (s : Text) → split_once c s ≡ none → Lacks c s
unfolding split_once
unsplit c [] h = tt
unsplit c (x ∷ s) h = ground (arith, unsplit c s)

at-Plain : (x y : Text) → Lacks b'@' x → Lacks b'+' x → Plain (at x y)
at-Plain x y xa xp local domain la e =
    let same : x ≡ local =
      ap (λ (p : Text × Text). p.0)
        (pair_same (
          sym (split_once-append b'@' x y xa)
          ∙ ap (split_once b'@') e
          ∙ split_once-append b'@' local domain la)) in
    rw (← same) xp
  where
    pair_same : {p q : Text × Text} → some p ≡ some q → p ≡ q
    pair_same h = cc

module _ (lower : Text → Text) (no_at : (s : Text) → Lacks b'@' s → Lacks b'@' (lower s))
    (no_plus : (s : Text) → Lacks b'+' s → Lacks b'+' (lower s)) where
  star_Plain : (d : Text) → Plain (wildcard_for_domain d)
  star_Plain d = at-Plain (b'*' ∷ []) d ((λ e. cc), tt) ((λ e. cc), tt)

  local_Plain :
      (local domain : Text) (o : Option (Text × Text))
      → Lacks b'@' local
      → split_once b'+' local ≡ o
      → All Plain (keys_of (normalize_local lower local domain o))
  local_Plain local domain none la e =
      (at-Plain _ _ (no_at local la) (no_plus local (unsplit b'+' local e)), (star_Plain _, tt))
  local_Plain local domain (some (base, tag)) la e =
      let (whole, lacks) = split_once_sound b'+' local base tag e in
      let base_at : Lacks b'@' base = Lacks-left b'@' base (b'+' ∷ tag) (rw (← whole) la) in
      (at-Plain _ _ (no_at base base_at) (no_plus base lacks), (star_Plain _, tt))

  split_Plain :
      (raw : Text) (o : Option (Text × Text))
      → split_once b'@' raw ≡ o
      → All Plain (keys_of (normalize_split lower raw o))
  unfolding normalize_split
  split_Plain raw none e = (
    λ local domain la k.
        absurd (Lacks-not_at local domain (subst (Lacks b'@') k (no_at raw (unsplit b'@' raw e)))),
    tt,
  )
  split_Plain raw (some (local, domain)) e =
      local_Plain local domain _ (split_once_sound b'@' raw local domain e).1 refl

  keys_Plain : (raw : Text) → All Plain (lookup_keys lower raw)
  unfolding normalize_recipient normalize_split
  keys_Plain raw = split_Plain raw _ refl

  -- If `lower` makes no `@` and no `+`, no recipient is looked up under an address whose local
  -- part has a `+`.
  pub plus_address_unreached :
      (raw local domain : Text)
      → Lacks b'@' local
      → (Lacks b'+' local → ⊥)
      → All (λ k. k ≢ at local domain) (lookup_keys lower raw)
  plus_address_unreached raw local domain la plus =
      All-map (λ k plain e. plus (plain local domain la e)) (lookup_keys lower raw) (keys_Plain raw)
