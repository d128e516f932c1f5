-- ===== src/Dynamo/Effects.antt =====
-- What a write operation can have done to the tables, whatever the service answers
-- (`transact_write` of api/src/dynamodb.rs).
use microticket.Prelude.{
  Text, Bool, true, false, ◌≡◌, refl, ◌⊎◌, inl, inr, List, [], ◌∷◌, Option, arith, ok, Bool-cases,
  &&-true, text_eq, text_eq_iff, if◌then◌else◌, ◌∙◌,
}
use microticket.Db.{BillableItem}
use microticket.Dynamo.{
  Tables, Write, Handler, Answer, committed, refused, failed, all_hold, apply_all, answered,
  transact_write, mem, on_items,
}

-- Nothing, or every write under its condition.
abbrev pub Effect : Tables → List Write → Tables → Type 0
Effect t ws t' = (t' ≡ t) ⊎ ((all_hold t ws ≡ true) × (t' ≡ apply_all t ws))

module _ (h : Handler) (ws : List Write) (t : Tables) where
  answered-Effect :
      (a : Answer) (t' : Tables)
      → h.service.submit t ws ≡ (a, t')
      → Effect t ws (answered (a, t')).1
  answered-Effect committed t' e = inr (h.service.committed_means t ws t' e)
  answered-Effect refused t' e = inl (h.service.refused_means t ws t' e)
  answered-Effect (failed m) t' e = h.service.failed_means t ws m t' e

  pub transact_write-Effect : Effect t ws (transact_write h ws t).1
  unfolding transact_write
  transact_write-Effect = elim (Bool-cases h.read_only) [
    | inl r ↦ inl (rw r)
    | inr w ↦ rw w (answered-Effect _ _ refl)
  ]

  answered-true :
      (a : Answer) (t' : Tables)
      → h.service.submit t ws ≡ (a, t')
      → (answered (a, t')).0 ≡ ok true
      → (all_hold t ws ≡ true) × ((answered (a, t')).1 ≡ apply_all t ws)
  answered-true committed t' e d = h.service.committed_means t ws t' e
  answered-true refused t' e d = cc
  answered-true (failed m) t' e d = cc

  -- `true` is reported only for writes that were made.
  pub transact_write-true :
      (transact_write h ws t).0 ≡ ok true
      → (all_hold t ws ≡ true) × ((transact_write h ws t).1 ≡ apply_all t ws)
  unfolding transact_write
  transact_write-true d = elim (Bool-cases h.read_only) [
    | inl r ↦ ground arith
    | inr w ↦ rw w (answered-true _ _ refl (rw w at d))
  ]

  answered-false :
      (a : Answer) (t' : Tables)
      → h.service.submit t ws ≡ (a, t')
      → (answered (a, t')).0 ≡ ok false
      → (answered (a, t')).1 ≡ t
  answered-false committed t' e d = cc
  answered-false refused t' e d = h.service.refused_means t ws t' e
  answered-false (failed m) t' e d = cc

  -- `false` is reported only if nothing was written.
  pub transact_write-false : (transact_write h ws t).0 ≡ ok false → (transact_write h ws t).1 ≡ t
  unfolding transact_write
  transact_write-false d = elim (Bool-cases h.read_only) [
    | inl r ↦ rw r refl
    | inr w ↦ rw w (answered-false _ _ refl (rw w at d))
  ]

module _ (c : Option BillableItem → Bool) (u : Option BillableItem → Option BillableItem) where
  pub invoice-on_items :
      (ids : List Text) (t : Tables) → (apply_all t (on_items ids c u)).invoice ≡ t.invoice
  invoice-on_items [] t = refl
  invoice-on_items (i ∷ ids) t = invoice-on_items ids _

  pub counter-on_items :
      (ids : List Text) (t : Tables)
      → (apply_all t (on_items ids c u)).next_invoice_number ≡ t.next_invoice_number
  counter-on_items [] t = refl
  counter-on_items (i ∷ ids) t = counter-on_items ids _

  -- Each item named is rewritten once, and no other.
  pub item-on_items :
      ((r : Option BillableItem) → u (u r) ≡ u r)
      → (ids : List Text) (t : Tables) (j : Text)
      → (apply_all t (on_items ids c u)).billable_item j
        ≡ (if mem j ids then u (t.billable_item j) else t.billable_item j)
  item-on_items idem [] t j = refl
  item-on_items idem (i ∷ ids) t j =
      item-on_items idem ids _ j ∙ ground (arith, text_eq_iff i j, idem (t.billable_item j))

  pub holds-on_items :
      (ids : List Text) (t : Tables) (j : Text)
      → all_hold t (on_items ids c u) ≡ true
      → mem j ids ≡ true
      → c (t.billable_item j) ≡ true
  holds-on_items [] t j h m = cc
  holds-on_items (i ∷ ids) t j h m =
      let (first, rest) = &&-true _ _ h in
      elim (Bool-cases (text_eq i j)) [
        | inl e ↦ let p : i ≡ j = (text_eq_iff i j).0 e in rw (← p) first
        | inr e ↦ holds-on_items ids t j rest (ground arith)
      ]
