-- ===== src/Mutations/Ids.antt =====
-- The ids that `createInvoice`, `addInvoiceItems` and `removeInvoiceItems` accept
-- (api/src/graphql/mutations.rs).
use microticket.Prelude.{
  ◌+◌, ◌≤◌, Text, true, false, not, List, [], ◌∷◌, ◌++◌, ◌≡◌, ◌↔◌, refl, ap, sym, ◌∙◌, arith, All,
  length, filter, ltb, text_eq, ok, err, ok_injective, ok≢err, Result, inl, inr, Bool-cases,
}
use microticket.Dynamo.{mem, AreDistinct}
use microticket.Billing.{set_add}
use microticket.Mutations.{Failure}
use microticket.Mutations.Checks.{
  unseen, unseen_of, cons_ok, validate_new_invoice_item_ids, validate_remove_invoice_item_ids,
  max_invoice_items,
}

abbrev pub NoneOf : List Text → List Text → Type 0
NoneOf seen = All (λ s. mem s seen ≡ false)

abbrev pub AllOf : List Text → List Text → Type 0
AllOf current = All (λ s. mem s current ≡ true)

text_eq_sym : (s t : Text) → text_eq s t ≡ text_eq t s
text_eq_sym [] [] = refl
text_eq_sym [] (y ∷ t) = refl
text_eq_sym (x ∷ s) [] = refl
text_eq_sym (x ∷ s) (y ∷ t) = ground (arith, text_eq_sym s t)

NoneOf-cons :
    (s : Text) (seen ids : List Text)
    → NoneOf (s ∷ seen) ids ↔ ((mem s ids ≡ false) × NoneOf seen ids)
NoneOf-cons s seen [] = (λ _. (refl, tt), λ _. tt)
NoneOf-cons s seen (x ∷ ids) = ground (arith, NoneOf-cons s seen ids, text_eq_sym s x)

cons_ok_iff :
    (s : Text) (r : Result Failure (List Text)) (out : List Text)
    → (cons_ok s r ≡ ok out) ↔ ((rest : List Text) × (r ≡ ok rest) × (s ∷ rest ≡ out))
cons_ok_iff s (ok rest) out =
    (λ h. (rest, refl, ok_injective h), λ (r, e, f). ap ok (ap (λ l. s ∷ l) (ok_injective e) ∙ f))
cons_ok_iff s (err e) out = (λ h. absurd (ok≢err (sym h)), λ (r, f, g). absurd (ok≢err (sym f)))

pub unseen_iff :
    (seen ids out : List Text)
    → (unseen seen ids ≡ ok out) ↔ ((out ≡ ids) × AreDistinct ids × NoneOf seen ids)
unseen_iff seen [] out = (λ h. (sym (ok_injective h), tt, tt), λ (e, _, _). ap ok (sym e))
unseen_iff seen (s ∷ ids) out = elim (Bool-cases (mem s seen)) [
  | inl m ↦ rw m (λ h. absurd (ok≢err (sym h)), λ (e, d, (n, _)). cc)
  | inr m ↦ rw m (
    λ h.
        let (rest, f, g) = (cons_ok_iff s (unseen (s ∷ seen) ids) out).0 h in
        let (same, distinct, none_of) = (unseen_iff (s ∷ seen) ids rest).0 f in
        let (apart, others) = (NoneOf-cons s seen ids).0 none_of in
        (sym g ∙ ap (λ l. s ∷ l) same, (apart, distinct), (refl, others)),
    λ (e, (apart, distinct), (_, others)). (cons_ok_iff s (unseen (s ∷ seen) ids) out).1 (
      ids,
      (unseen_iff (s ∷ seen) ids ids).1
          (refl, distinct, (NoneOf-cons s seen ids).1 (apart, others)),
      sym e,
    ),
  )
]

unseen_of_iff :
    (current seen ids out : List Text)
    → (unseen_of current seen ids ≡ ok out)
      ↔ ((out ≡ ids) × AreDistinct ids × NoneOf seen ids × AllOf current ids)
unseen_of_iff current seen [] out =
    (λ h. (sym (ok_injective h), tt, tt, tt), λ (e, _, _, _). ap ok (sym e))
unseen_of_iff current seen (s ∷ ids) out = elim (Bool-cases (mem s seen)) [
  | inl m ↦ rw m (λ h. absurd (ok≢err (sym h)), λ (e, d, (n, _), a). cc)
  | inr m ↦ elim (Bool-cases (mem s current)) [
    | inr c ↦ rw (m, c) (λ h. absurd (ok≢err (sym h)), λ (e, d, n, (a, _)). cc)
    | inl c ↦
        rw (m, c)
          (
            λ h.
                let (rest, f, g) = (cons_ok_iff s (unseen_of current (s ∷ seen) ids) out).0 h in
                let (same, distinct, none_of, all_of) =
                  (unseen_of_iff current (s ∷ seen) ids rest).0 f in
                let (apart, others) = (NoneOf-cons s seen ids).0 none_of in
                (sym g ∙ ap (λ l. s ∷ l) same, (apart, distinct), (refl, others), (refl, all_of)),
            λ (e, (apart, distinct), (_, others), (_, all_of)).
                (cons_ok_iff s (unseen_of current (s ∷ seen) ids) out).1 (
                  ids,
                  (unseen_of_iff current (s ∷ seen) ids ids).1
                      (refl, distinct, (NoneOf-cons s seen ids).1 (apart, others), all_of),
                  sym e,
                ),
          )
  ]
]

abbrev pub IsNonempty : List Text → Type 0
IsNonempty [] = ⊥
IsNonempty (s ∷ ids) = Unit

new_ids_iff :
    (ids existing out : List Text)
    → (validate_new_invoice_item_ids ids existing ≡ ok out) ↔ (
        (out ≡ ids)
        × IsNonempty ids
        × (length existing + length ids ≤ max_invoice_items)
        × AreDistinct ids
        × NoneOf existing ids)
unfolding validate_new_invoice_item_ids
new_ids_iff [] existing out = (λ h. absurd (ok≢err (sym h)), λ (e, n, _, _, _). absurd n)
new_ids_iff (s ∷ ids) existing out =
    elim (Bool-cases (ltb max_invoice_items (length existing + length (s ∷ ids)))) [
      | inl big ↦
          rw big (λ h. absurd (ok≢err (sym h)), λ (e, n, small, _, _). absurd (ground arith))
      | inr fits ↦ rw fits (
        λ h.
            let (same, distinct, none_of) = (unseen_iff existing (s ∷ ids) out).0 h in
            (same, tt, ground arith, distinct, none_of),
        λ (same, _, _, distinct, none_of).
            (unseen_iff existing (s ∷ ids) out).1 (same, distinct, none_of),
      )
    ]

removed_ids_iff :
    (ids current out : List Text)
    → (validate_remove_invoice_item_ids ids current ≡ ok out)
      ↔ ((out ≡ ids) × IsNonempty ids × AreDistinct ids × AllOf current ids)
unfolding validate_remove_invoice_item_ids
removed_ids_iff [] current out = (λ h. absurd (ok≢err (sym h)), λ (e, n, _, _). absurd n)
removed_ids_iff (s ∷ ids) current out = (
  λ h.
      let (same, distinct, _, all_of) = (unseen_of_iff current [] (s ∷ ids) out).0 h in
      (same, tt, distinct, all_of),
  λ (same, _, distinct, all_of).
      (unseen_of_iff current [] (s ∷ ids) out).1 (same, distinct, none (s ∷ ids), all_of),
)
  where
    none : (l : List Text) → NoneOf [] l
    none [] = tt
    none (x ∷ l) = (refl, none l)

-- Ids to add are accepted, as they are, exactly if there is one at least, no more than fifty
-- together with those of the invoice, none is listed twice and none is on the invoice. Ids to remove
-- are accepted, as they are, exactly if there is one at least, none is listed twice and each is on
-- the invoice.
pub validate_item_ids_iff :
    (ids existing out : List Text)
    → ((validate_new_invoice_item_ids ids existing ≡ ok out) ↔ (
        (out ≡ ids)
        × IsNonempty ids
        × (length existing + length ids ≤ 50)
        × AreDistinct ids
        × NoneOf existing ids))
      × ((validate_remove_invoice_item_ids ids existing ≡ ok out)
          ↔ ((out ≡ ids) × IsNonempty ids × AreDistinct ids × AllOf existing ids))
validate_item_ids_iff ids existing out =
    (new_ids_iff ids existing out, removed_ids_iff ids existing out)

-- Ids that the check lets through are appended by the set.
pub set_add-NoneOf :
    (existing ids : List Text) → NoneOf existing ids → set_add existing ids ≡ existing ++ ids
set_add-NoneOf existing ids h = ap (λ l. existing ++ l) (kept ids h)
  where
    kept : (l : List Text) → NoneOf existing l → filter (λ i. not (mem i existing)) l ≡ l
    kept [] h = refl
    kept (i ∷ l) (a, h) = rw a (ap (λ r. i ∷ r) (kept l h))
