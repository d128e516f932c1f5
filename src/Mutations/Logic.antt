-- ===== src/Mutations/Logic.antt =====
-- What a program of api/src/graphql/mutations.rs can end in, step by step.
use microticket.Prelude.{
  ap, ◌∙◌, ok_injective, ok≢err, sym, subst, Option-cases, Bool-cases, inl, inr, Text, codes,
  Option, none, some, List, ◌≡◌, refl, Result, ok, err, Bool, true, false,
}
use microticket.Dynamo.{Tables, Handler, Op}
use microticket.Db.{Error, Invoice}
use microticket.Mutations.{
  Membership, if_member, M, World, Failure, pass, ◌>>=◌, fail_if, or_fail, checked, call, read,
  database, AuthInfo, user, other, user_id_of, memberships_of, Server, require_invoice_member,
  is_member, missing, api, forbidden, get_invoice_consistent,
}

-- The result and the state that a run ends in satisfy `Q`, or its error and state satisfy `E`.
unfoldable pub Ends :
    {A : Type 0}
    → (A → World → Type 0)
    → (Failure → World → Type 0)
    → Result Failure A × World
    → Type 0
Ends Q E (ok a, w) = Q a w
Ends Q E (err e, w) = E e w

-- A member of the instance, as a user.
abbrev pub IsMember : AuthInfo → Text → Type 0
IsMember (user id memberships) instance_id = is_member memberships instance_id ≡ true
IsMember other instance_id = ⊥

module _ (E : Failure → World → Type 0) where
  module _ {A B : Type 0} (Q : A → World → Type 0) where
    pub bind-Ends :
        (m : M B) (f : B → M A) (w : World) (R : B → World → Type 0)
        → Ends R E (m w)
        → ((b : B) (u : World) → R b u → Ends Q E (f b u))
        → Ends Q E ((m >>= f) w)
    unfolding ◌>>=◌ Ends
    bind-Ends m f w R h k = by_result (m w) h
      where
        by_result :
            (r : Result Failure B × World)
            → Ends R E r
            → Ends Q E (let (b, w') = r in elim b [ ok a ↦ f a w' | err e ↦ (err e, w') ])
        by_result (ok b, u) h = k b u h
        by_result (err e, u) h = h

  pub weaken-Ends :
      {A : Type 0} {R : A → World → Type 0} (Q : A → World → Type 0) (r : Result Failure A × World)
      → Ends R E r
      → ((a : A) (u : World) → R a u → Q a u)
      → Ends Q E r
  unfolding Ends
  weaken-Ends Q (ok a, u) h k = k a u h
  weaken-Ends Q (err e, u) h k = h

  pub pure-Ends :
      {A : Type 0} (Q : A → World → Type 0) (a : A) (w : World) → Q a w → Ends Q E (ok a, w)
  unfolding Ends
  pure-Ends Q a w h = h

  pub fail_if-Ends :
      (b : Bool) (e : Failure) (w : World)
      → (b ≡ true → E e w)
      → Ends (λ _ u. (u ≡ w) × (b ≡ false)) E (fail_if b e w)
  unfolding Ends
  fail_if-Ends true e w h = h refl
  fail_if-Ends false e w h = (refl, refl)

  pub or_fail-Ends :
      {A : Type 0} (o : Option A) (e : Failure) (w : World)
      → (o ≡ none → E e w)
      → Ends (λ a u. (u ≡ w) × (o ≡ some a)) E (or_fail o e w)
  unfolding Ends
  or_fail-Ends none e w h = h refl
  or_fail-Ends (some a) e w h = (refl, refl)

  pub checked-Ends :
      {D A : Type 0} (f : D → Failure) (r : Result D A) (w : World)
      → ((d : D) → r ≡ err d → E (f d) w)
      → Ends (λ a u. (u ≡ w) × (r ≡ ok a)) E (checked f r w)
  unfolding Ends
  checked-Ends f (ok a) w h = (refl, refl)
  checked-Ends f (err d) w h = h d refl

  pub user_id_of-Ends :
      (caller : AuthInfo) (w : World)
      → ((m : Text) → E (api forbidden m) w)
      → Ends (λ _ u. u ≡ w) E (user_id_of caller w)
  unfolding Ends
  user_id_of-Ends (user id memberships) w h = refl
  user_id_of-Ends other w h = h _

  pub memberships_of-Ends :
      (caller : AuthInfo) (w : World)
      → ((m : Text) → E (api forbidden m) w)
      → Ends
          (λ memberships u.
            (u ≡ w)
            × ((instance_id : Text)
                → is_member memberships instance_id ≡ true
                → IsMember caller instance_id))
          E
          (memberships_of caller w)
  unfolding Ends
  memberships_of-Ends (user id memberships) w h = (refl, λ instance_id m. m)
  memberships_of-Ends other w h = h _

  pub if_member-Ends :
      {A : Type 0} (memberships : List Membership) (instance_id : Text) (a : A) (e : Failure)
      (w : World)
      → E e w
      → Ends
          (λ b u. (u ≡ w) × (b ≡ a) × (is_member memberships instance_id ≡ true))
          E
          (if_member memberships instance_id a e w)
  unfolding Ends
  if_member-Ends memberships instance_id a e w h =
      elim (Bool-cases (is_member memberships instance_id)) [
        | inl m ↦ rw m (refl, refl, refl)
        | inr m ↦ rw m h
      ]

  module _ (h : Handler) (w : World) where
    pub read-Ends :
        {A : Type 0} (f : Tables → Result Error A)
        → ((e : Error) → E (database e) (pass h w))
        → Ends (λ a u. (u ≡ pass h w) × (f u.tables ≡ ok a)) E (read h f w)
    unfolding Ends
    read-Ends f fault = by_result (f (pass h w).tables) refl
      where
        by_result :
            (r : Result Error _)
            → f (pass h w).tables ≡ r
            → Ends (λ a u. (u ≡ pass h w) × (f u.tables ≡ ok a)) E (checked database r (pass h w))
        by_result (ok a) e = (refl, e)
        by_result (err d) e = fault d

    -- The state after a call that answered.
    pub call-Ends :
        {A : Type 0} (op : Op A)
        → ((e : Error)
            → (op (pass h w).tables).0 ≡ err e
            → E
                (database e)
                (record { tables = (op (pass h w).tables).1; later = (pass h w).later }))
        → Ends
            (λ a u.
              ((op (pass h w).tables).0 ≡ ok a)
              × (u.tables ≡ (op (pass h w).tables).1)
              × (u.later ≡ (pass h w).later))
            E
            (call h op w)
    unfolding Ends
    call-Ends {A} op fault = by_result (op (pass h w).tables) fault
      where
        by_result :
            (r : Result Error A × Tables)
            → ((e : Error)
                → r.0 ≡ err e
                → E (database e) (record { tables = r.1; later = (pass h w).later }))
            → Ends
                (λ a u. (r.0 ≡ ok a) × (u.tables ≡ r.1) × (u.later ≡ (pass h w).later))
                E
                (checked database r.0 (record { tables = r.1; later = (pass h w).later }))
        by_result (ok a, t) k = (refl, refl, refl)
        by_result (err d, t) k = k d refl

found_row :
    (s : Server) (id : Text) (t : Tables) (found : Option Invoice)
    → get_invoice_consistent s id t ≡ ok found
    → t.invoice id ≡ found
found_row s id t found e = elim (Option-cases (s.handler.service.read_fault t id)) [
  | inl f ↦ ok_injective (rw (f, get_invoice_consistent) at e)
  | inr (m, f) ↦ absurd (ok≢err (sym (rw (f, get_invoice_consistent) at e)))
]

module _ (E : Failure → World → Type 0) (s : Server) where
  pub require_invoice_member-Ends :
      (caller : AuthInfo) (id : Text) (w : World)
      → ((m : Text) → E (api forbidden m) w)
      → ((e : Error) → E (database e) (pass s.handler w))
      → E (missing (codes "Invoice") id) (pass s.handler w)
      → Ends
          (λ invoice u.
            (u ≡ pass s.handler w)
            × (u.tables.invoice id ≡ some invoice)
            × IsMember caller invoice.instance_id)
          E
          (require_invoice_member s caller id w)
  unfolding require_invoice_member
  require_invoice_member-Ends caller id w no_user fault absent =
      bind-Ends E _ _ _ w _ (memberships_of-Ends E caller w no_user) (λ memberships w1 (e1, member).
        bind-Ends E _ _ _ w1 _
          (read-Ends E s.handler w1 (get_invoice_consistent s id) (λ e. rw e1 (fault e)))
          (λ found w2 (e2, f).
            bind-Ends E _ _ _ w2 _ (or_fail-Ends E found _ w2 (λ _. rw (e2, e1) absent))
              (λ invoice w3 (e3, g).
                weaken-Ends E _ _
                  (if_member-Ends E memberships invoice.instance_id invoice _ w3
                    (rw (e3, e2, e1) absent))
                  (λ a w4 (e4, same, m). (
                    e4 ∙ e3 ∙ e2 ∙ ap (pass s.handler) e1,
                    rw (e4, e3, same) (found_row s id w2.tables found f ∙ g),
                    rw same (member invoice.instance_id m),
                  )))))

-- What a run with a known end satisfies.
module _ {A : Type 0} (Q : A → World → Type 0) (E : Failure → World → Type 0)
    (r : Result Failure A × World) where
  pub Ends-ok : (a : A) (u : World) → Ends Q E r → r ≡ (ok a, u) → Q a u
  unfolding Ends
  Ends-ok a u h e = subst (Ends Q E) e h

  pub Ends-err : (e : Failure) (u : World) → Ends Q E r → r ≡ (err e, u) → E e u
  unfolding Ends
  Ends-err x u h e = subst (Ends Q E) e h
