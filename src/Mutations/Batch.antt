-- ===== src/Mutations/Batch.antt =====
-- `get_records_consistent` of api/src/dynamodb.rs with no other client at work and a service that
-- processes every key.
use microticket.Prelude.{
  ℕ, zero, suc, ◌+◌, ◌≤◌, arith, Text, true, false, Option, none, some, List, [], ◌∷◌, ◌++◌, ◌≡◌,
  ◌⊎◌, refl, sym, ap, ◌∙◌, inl, inr, Bool-cases, text_eq, text_eq_iff, ok, subst, drop, length,
  take, map, take-drop, length-drop,
}
use microticket.Db.{BillableItem}
use microticket.Dynamo.{Tables, update, mem, AreDistinct}
use microticket.Billing.Keyed.{IsKeyed, ItemHasId}
use microticket.Billing.Commands.{run_all}
use microticket.Mutations.{Server, World}
use microticket.Mutations.Records.{
  Found, insert_row, looked_up, after_request, attempts, all_chunks, chunks, removed,
  get_records_consistent,
}
use microticket.Mutations.Runs.{bind_run}

abbrev insert_all : Tables → List Text → Found → Found
insert_all t [] found = found
insert_all t (k ∷ keys) found = insert_all t keys (insert_row (t.billable_item k) found)

insert_all-append :
    (t : Tables) (a b : List Text) (found : Found)
    → insert_all t (a ++ b) found ≡ insert_all t b (insert_all t a found)
insert_all-append t [] b found = refl
insert_all-append t (k ∷ a) b found = insert_all-append t a b (insert_row (t.billable_item k) found)

abbrev all_of : List (List Text) → List Text
all_of [] = []
all_of (keys ∷ rest) = keys ++ all_of rest

all_of-chunks :
    (fuel n : ℕ) (ids : List Text) → length ids ≤ fuel → all_of (chunks fuel (suc n) ids) ≡ ids
all_of-chunks zero n [] h = refl
all_of-chunks zero n (i ∷ ids) h = absurd (omega arith)
all_of-chunks (suc fuel) n [] h = refl
all_of-chunks (suc fuel) n (i ∷ ids) h =
    ap (λ l. i ∷ (take n ids ++ l))
      (all_of-chunks fuel n (drop n ids) (omega (arith, length-drop n ids)))
    ∙ ap (λ l. i ∷ l) (take-drop n ids)

module _ (s : Server) (t : Tables) (prompt : (attempt : ℕ) (k : Text) → s.defers attempt k ≡ false)
    (no_fault : (attempt : ℕ) (keys : List Text) → s.batch_fault attempt keys ≡ none) where
  abbrev alone : World
  alone = record { tables = t; later = [] }

  looked_up_runs :
      (attempt : ℕ) (keys : List Text) (found : Found)
      → looked_up s attempt keys found alone ≡ ((insert_all t keys found, []), alone)
  unfolding run_all
  looked_up_runs attempt [] found = refl
  looked_up_runs attempt (k ∷ keys) found =
      rw (looked_up, prompt attempt k)
        (looked_up_runs attempt keys (insert_row (t.billable_item k) found))

  attempts_runs :
      (left attempt : ℕ) (keys : List Text) (found : Found)
      → attempts (suc left) s attempt keys found alone ≡ (ok (insert_all t keys found), alone)
  attempts_runs left attempt keys found =
      rw (attempts, no_fault attempt keys)
        (ap (after_request (attempts left s (attempt + 1))) (looked_up_runs attempt keys found))

  all_chunks_runs :
      (cs : List (List Text)) (found : Found)
      → all_chunks s cs found alone ≡ (ok (insert_all t (all_of cs) found), alone)
  all_chunks_runs [] found = refl
  all_chunks_runs (keys ∷ cs) found =
      bind_run _ _ alone (insert_all t keys found) alone (attempts_runs 4 1 keys found)
      ∙ all_chunks_runs cs (insert_all t keys found)
      ∙ ap (λ f. (ok f, alone)) (sym (insert_all-append t keys (all_of cs) found))

module _ (t : Tables) (keyed : IsKeyed t) where
  -- What is in the map is in the table.
  abbrev IsPart : Found → Type 0
  IsPart found = (k : Text) → (found k ≡ none) ⊎ (found k ≡ t.billable_item k)

  insert_row-IsPart :
      (j : Text) (o : Option BillableItem) (found : Found)
      → t.billable_item j ≡ o
      → IsPart found
      → IsPart (insert_row o found)
        × ((k : Text)
            → (found k ≡ t.billable_item k) ⊎ (j ≡ k)
            → insert_row o found k ≡ t.billable_item k)
  insert_row-IsPart j none found at part = (part, λ k. kept k)
    where
      kept : (k : Text) → (found k ≡ t.billable_item k) ⊎ (j ≡ k) → found k ≡ t.billable_item k
      kept k (inl e) = e
      kept k (inr same) = elim (part k) [ inl e ↦ e ∙ sym at ∙ ap t.billable_item same | inr e ↦ e ]
  insert_row-IsPart j (some r) found at part =
      let own : r.id ≡ j = subst (ItemHasId j) at (keyed.items j) in
      (
        λ k. elim (Bool-cases (text_eq r.id k)) [
          | inl same ↦
              let here : j ≡ k = sym own ∙ (text_eq_iff r.id k).0 same in
              rw same (inr (sym at ∙ ap t.billable_item here))
          | inr other ↦ rw other (part k)
        ],
        λ k there. elim (Bool-cases (text_eq r.id k)) [
          | inl same ↦
              let here : j ≡ k = sym own ∙ (text_eq_iff r.id k).0 same in
              rw same (sym at ∙ ap t.billable_item here)
          | inr other ↦ elim there [
            | inl e ↦ rw other e
            | inr here ↦ absurd (true≢false (sym ((text_eq_iff r.id k).1 (own ∙ here)) ∙ other))
          ]
        ],
      )
    where
      true≢false : true ≡ false → ⊥
      true≢false e = cc

  insert_all_agrees :
      (ids : List Text) (found : Found)
      → IsPart found
      → (k : Text) → (found k ≡ t.billable_item k) ⊎ (mem k ids ≡ true)
      → insert_all t ids found k ≡ t.billable_item k
  insert_all_agrees [] found part k (inl e) = e
  insert_all_agrees [] found part k (inr e) = absurd cc
  insert_all_agrees (j ∷ ids) found part k (inl e) =
      let (part', at) = insert_row-IsPart j (t.billable_item j) found refl part in
      insert_all_agrees ids _ part' k (inl (at k (inl e)))
  insert_all_agrees (j ∷ ids) found part k (inr e) =
      let (part', at) = insert_row-IsPart j (t.billable_item j) found refl part in
      elim (Bool-cases (text_eq j k)) [
        | inl same ↦ insert_all_agrees ids _ part' k (inl (at k (inr ((text_eq_iff j k).0 same))))
        | inr other ↦ insert_all_agrees ids _ part' k (inr (rw other at e))
      ]

removed_agrees :
    (t : Tables) (ids : List Text) (found : Found)
    → AreDistinct ids
    → ((k : Text) → mem k ids ≡ true → found k ≡ t.billable_item k)
    → removed ids found ≡ map t.billable_item ids
removed_agrees t [] found d h = refl
removed_agrees t (i ∷ ids) found (absent, d) h =
    rw
      (
        h i (rw ((text_eq_iff i i).1 refl) refl),
        removed_agrees t ids (update found i none) d (λ k among. others k among),
      )
      refl
  where
    true≢false : true ≡ false → ⊥
    true≢false e = cc

    others : (k : Text) → mem k ids ≡ true → update found i none k ≡ t.billable_item k
    others k among = elim (Bool-cases (text_eq i k)) [
      | inl same ↦
          let here : i ≡ k = (text_eq_iff i k).0 same in
          absurd (true≢false (sym (subst (λ j. mem j ids ≡ true) (sym here) among) ∙ absent))
      | inr other ↦ rw other (h k (ground (arith)))
    ]

-- With nobody else at work, a service that defers no key and fails no request, rows under their own ids
-- and ids that are distinct, however many, `get_records_consistent` answers with the row of each id, in
-- the order of the ids.
pub get_records_consistent_alone :
    (s : Server) (t : Tables) (ids : List Text)
    → ((attempt : ℕ) (k : Text) → s.defers attempt k ≡ false)
    → ((attempt : ℕ) (keys : List Text) → s.batch_fault attempt keys ≡ none)
    → IsKeyed t
    → AreDistinct ids
    → get_records_consistent s ids (record { tables = t; later = [] })
      ≡ (ok (map t.billable_item ids), record { tables = t; later = [] })
unfolding get_records_consistent
get_records_consistent_alone s t ids prompt no_fault keyed distinct =
    let w : World = record { tables = t; later = [] } in
    let found = insert_all t (all_of (chunks (length ids) 100 ids)) (λ i. none) in
    let whole : all_of (chunks (length ids) 100 ids) ≡ ids =
      all_of-chunks (length ids) 99 ids (omega arith) in
    bind_run _ _ w found w
      (all_chunks_runs s t prompt no_fault (chunks (length ids) 100 ids) (λ i. none))
    ∙ ap (λ rows. (ok rows, w))
        (ap (λ l. removed ids (insert_all t l (λ i. none))) whole
          ∙ removed_agrees t ids (insert_all t ids (λ i. none)) distinct
              (λ k among. insert_all_agrees t keyed ids (λ i. none) (λ j. inl refl) k (inr among)))
