-- ===== src/Mail/Routing.antt =====
-- Which inbound address a message is routed to (api/src/inbound/routing.rs).
use microticket.Prelude.{
  Text, Bool, true, false, none, some, List, [], ◌∷◌, ◌++◌, ◌≡◌, ◌↔◌, refl, arith, All, inl, inr,
  Bool-cases, Option, Option-cases, split_once,
}
use microticket.Mail.{
  keys_of, normalize_split, normalize_recipient, first_known, or_else, resolve, lookup_keys,
}

-- The first key of a list that is known.
pub data FirstKnown (is_known : Text → Bool) : List Text → Text → Type 0 where
  here : {k : Text} {keys : List Text} → is_known k ≡ true → FirstKnown is_known (k ∷ keys) k
  there :
      {j k : Text} {keys : List Text}
      → is_known j ≡ false
      → FirstKnown is_known keys k
      → FirstKnown is_known (j ∷ keys) k

-- The keys of a recipient: without an `@`, all of it; else the part before the first `+` of the local
-- part at the domain, and behind it the wildcard of the domain. All are lowercase.
abbrev pub exact_address : (Text → Text) → Text → Text → Option (Text × Text) → Text
exact_address lower local domain none = lower local ++ b'@' ∷ lower domain
exact_address lower local domain (some (base, tag)) = lower base ++ b'@' ∷ lower domain

abbrev pub address_keys : (Text → Text) → Text → Option (Text × Text) → List Text
address_keys lower raw none = lower raw ∷ []
address_keys lower raw (some (local, domain)) =
    exact_address lower local domain (split_once b'+' local) ∷ (b'*' ∷ b'@' ∷ lower domain) ∷ []

keys_of_split :
    (lower : Text → Text) (raw : Text) (o : Option (Text × Text))
    → keys_of (normalize_split lower raw o) ≡ address_keys lower raw o
unfolding normalize_split
keys_of_split lower raw none = refl
keys_of_split lower raw (some (local, domain)) = elim (Option-cases (split_once b'+' local)) [
  | inl f ↦ rw f refl
  | inr ((base, tag), f) ↦ rw f refl
]

keys_lem :
    (lower : Text → Text) (raw : Text)
    → lookup_keys lower raw ≡ address_keys lower raw (split_once b'@' raw)
unfolding normalize_recipient
keys_lem lower raw = keys_of_split lower raw (split_once b'@' raw)

-- All keys of all recipients, in the order in which they are to be tried.
abbrev pub all_keys : (Text → Text) → List Text → List Text
all_keys lower [] = []
all_keys lower (r ∷ recipients) =
    address_keys lower r (split_once b'@' r) ++ all_keys lower recipients

first_known-append :
    (is_known : Text → Bool) (a b : List Text)
    → first_known is_known (a ++ b) ≡ or_else (first_known is_known a) (first_known is_known b)
first_known-append is_known [] b = refl
first_known-append is_known (k ∷ a) b = ground (arith, first_known-append is_known a b)

resolve-first_known :
    (lower : Text → Text) (recipients : List Text) (is_known : Text → Bool)
    → resolve lower recipients is_known ≡ first_known is_known (all_keys lower recipients)
resolve-first_known lower [] is_known = refl
resolve-first_known lower (r ∷ recipients) is_known =
    rw
      (
        keys_lem lower r,
        first_known-append is_known (address_keys lower r (split_once b'@' r))
            (all_keys lower recipients),
        resolve-first_known lower recipients is_known,
      )
      refl

first_known_sound :
    (is_known : Text → Bool) (keys : List Text) (k : Text)
    → first_known is_known keys ≡ some k
    → FirstKnown is_known keys k
first_known_sound is_known [] k h = cc
first_known_sound is_known (j ∷ keys) k h = elim (Bool-cases (is_known j)) [
  | inl e ↦ let same : j ≡ k = ground arith in rw (← same) (here e)
  | inr e ↦ there e (first_known_sound is_known keys k (ground arith))
]

first_known_complete :
    (is_known : Text → Bool) (keys : List Text) (k : Text)
    → FirstKnown is_known keys k
    → first_known is_known keys ≡ some k
first_known_complete is_known _ _ (here e) = rw e refl
first_known_complete is_known _ k (there e h) = rw e (first_known_complete is_known _ k h)

first_known-none :
    (is_known : Text → Bool) (keys : List Text)
    → (first_known is_known keys ≡ none) ↔ All (λ k. is_known k ≡ false) keys
first_known-none is_known [] = (λ h. tt, λ h. refl)
first_known-none is_known (j ∷ keys) =
    let (fwd, back) = first_known-none is_known keys in
    elim (Bool-cases (is_known j)) [
      | inl e ↦ rw e (λ h. cc, λ (h, _). cc)
      | inr e ↦ rw e (λ h. (refl, fwd h), λ (_, h). back h)
    ]

-- Recipients are resolved to the first known key, each recipient's exact address before the wildcard
-- of its domain, and to nothing exactly if no key of any recipient is known.
pub resolve_first :
    (lower : Text → Text) (recipients : List Text) (is_known : Text → Bool) (k : Text)
    → ((resolve lower recipients is_known ≡ some k)
        ↔ FirstKnown is_known (all_keys lower recipients) k)
      × ((resolve lower recipients is_known ≡ none)
          ↔ All (λ j. is_known j ≡ false) (all_keys lower recipients))
resolve_first lower recipients is_known k =
    let keys = all_keys lower recipients in
    let (fwd, back) = first_known-none is_known keys in
    (
      (
        λ h. first_known_sound is_known keys k (rw resolve-first_known at h),
        λ h. rw resolve-first_known (first_known_complete is_known keys k h),
      ),
      (λ h. fwd (rw resolve-first_known at h), λ h. rw resolve-first_known (back h)),
    )
