-- ===== src/Mutations/Lookups.antt =====
-- What `get_records_consistent` of api/src/dynamodb.rs finds while others write: each row is one that
-- was stored under its id at some moment of the read.
use microticket.Prelude.{
  ℕ, zero, suc, ◌+◌, Text, Option, none, some, List, [], ◌∷◌, ◌≡◌, refl, sym, ◌∙◌, inl, inr,
  Bool-cases, Option-cases, text_eq, text_eq_iff, Result, subst, length,
}
use microticket.Db.{BillableItem, Error}
use microticket.Billing.Keyed.{IsKeyed, run_all-IsKeyed, ItemHasId}
use microticket.Mutations.{Server, World, Failure, pass, database}
use microticket.Mutations.Records.{
  Found, Looked, insert_row, looked_up, after_request, attempts, all_chunks, chunks, removed,
  get_records_consistent, batch_get_max_attempts,
}
use microticket.Mutations.Logic.{Ends, bind-Ends, pure-Ends}
use microticket.Mutations.Traces.{Waits, at_once, then_others}

module _ (s : Server) (w : World) (keyed : IsKeyed w.tables) where
  -- The row that was stored under an id at some moment before `u`.
  abbrev pub Seen : World → Text → BillableItem → Type 0
  Seen u k r =
      (m : World) × Waits s.handler w m × Waits s.handler m u × (m.tables.billable_item k ≡ some r)

  abbrev pub AllSeen : World → Found → Type 0
  AllSeen u found = (k : Text) (r : BillableItem) → found k ≡ some r → Seen u k r

  abbrev Goes : World → Found → Type 0
  Goes u found = Waits s.handler w u × AllSeen u found

  AllSeen-pass : (u : World) (found : Found) → AllSeen u found → AllSeen (pass s.handler u) found
  AllSeen-pass u found seen k r e = let (m, a, b, at) = seen k r e in (m, a, then_others b, at)

  Waits-IsKeyed : (u : World) → Waits s.handler w u → IsKeyed u.tables
  Waits-IsKeyed _ at_once = keyed
  Waits-IsKeyed _ (then_others a) = run_all-IsKeyed s.handler _ _ (Waits-IsKeyed _ a)

  insert_row-AllSeen :
      (u : World) (k : Text) (o : Option BillableItem) (found : Found)
      → Waits s.handler w u
      → u.tables.billable_item k ≡ o
      → AllSeen u found
      → AllSeen u (insert_row o found)
  insert_row-AllSeen u k none found a at seen j r e = seen j r e
  insert_row-AllSeen u k (some x) found a at seen j r e = elim (Bool-cases (text_eq x.id j)) [
    | inr other ↦ seen j r (rw other at e)
    | inl same ↦
        let own : x.id ≡ k = subst (ItemHasId k) at ((Waits-IsKeyed u a).items k) in
        let here : k ≡ j = sym own ∙ (text_eq_iff x.id j).0 same in
        let row : some x ≡ some r = rw same at e in
        (u, a, at_once, subst (λ i. u.tables.billable_item i ≡ some r) here (at ∙ row))
  ]

  looked_up-Goes :
      (attempt : ℕ) (keys : List Text) (found : Found) (u : World)
      → Goes u found
      → Goes (looked_up s attempt keys found u).1 (looked_up s attempt keys found u).0.0
  looked_up-Goes attempt [] found u go = go
  looked_up-Goes attempt (k ∷ keys) found u (a, seen) = elim (Bool-cases (s.defers attempt k)) [
    | inl later ↦ rw (looked_up, later) (looked_up-Goes attempt keys found u (a, seen))
    | inr now ↦
        rw (looked_up, now)
          (looked_up-Goes attempt keys _ (pass s.handler u) (
            then_others a,
            insert_row-AllSeen (pass s.handler u) k _ found (then_others a) refl
                (AllSeen-pass u found seen),
          ))
  ]

  module _ (E : Failure → World → Type 0) (fault : (e : Error) (u : World) → E (database e) u) where
    after_request-Ends :
        (next : List Text → Found → World → Result Failure Found × World) (r : Looked)
        → Goes r.1 r.0.0
        → ((keys : List Text) (found : Found) (u : World)
            → Goes u found
            → Ends (λ f v. Goes v f) E (next keys found u))
        → Ends (λ f v. Goes v f) E (after_request next r)
    unfolding Ends
    after_request-Ends next ((found, []), u) go k = go
    after_request-Ends next ((found, i ∷ keys), u) go k = k (i ∷ keys) found u go

    attempts-Ends :
        (left attempt : ℕ) (keys : List Text) (found : Found) (u : World)
        → Goes u found
        → Ends (λ f v. Goes v f) E (attempts left s attempt keys found u)
    unfolding Ends
    attempts-Ends zero attempt keys found u go = fault _ u
    attempts-Ends (suc left) attempt keys found u go =
        elim (Option-cases (s.batch_fault attempt keys)) [
          | inr (m, f) ↦ rw (Ends, attempts, f) (fault _ u)
          | inl f ↦
              rw (Ends, attempts, f)
                (after_request-Ends (attempts left s (attempt + 1))
                  (looked_up s attempt keys found u) (looked_up-Goes attempt keys found u go)
                  (attempts-Ends left (attempt + 1)))
        ]

    all_chunks-Ends :
        (cs : List (List Text)) (found : Found) (u : World)
        → Goes u found
        → Ends (λ f v. Goes v f) E (all_chunks s cs found u)
    all_chunks-Ends [] found u go = pure-Ends E _ found u go
    all_chunks-Ends (keys ∷ cs) found u go =
        bind-Ends E _ _ _ u _ (attempts-Ends batch_get_max_attempts 1 keys found u go)
          (λ f v h. all_chunks-Ends cs f v h)

    -- A read that answers takes the rows of its answer from a map of rows that were stored while it
    -- ran.
    pub get_records_consistent-Ends :
        (ids : List Text)
        → Ends
            (λ rows u.
              Waits s.handler w u
              × ((found : Found) × (rows ≡ removed ids found) × AllSeen u found))
            E
            (get_records_consistent s ids w)
    unfolding get_records_consistent
    get_records_consistent-Ends ids =
        bind-Ends E _ _ _ w _
          (all_chunks-Ends (chunks (length ids) 100 ids) (λ i. none) w
            (at_once, λ k r e. absurd (none≢some r e)))
          (λ found u (a, seen). pure-Ends E _ _ u (a, (found, refl, seen)))
      where
        none≢some : (r : BillableItem) → none ≡ some r → ⊥
        none≢some r e = cc
