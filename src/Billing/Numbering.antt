-- ===== src/Billing/Numbering.antt =====
-- Invoice numbers (api/src/dynamodb.rs `increment_invoice_counter`, `set_next_invoice_number`).
use microticket.Prelude.{
  ℕ, ◌+◌, ◌≤◌, ◌<◌, Text, Bool, true, false, Option, none, some, List, [], ◌∷◌, ◌≡◌, refl, arith,
  ltb, text_eq, text_eq_iff, inl, inr, Bool-cases, ok, err, Result, ap, sym, ◌∙◌,
}
use microticket.Db.{Error}
use microticket.Dynamo.{Tables, Handler, apply_all, all_hold, on_counter, update, transact_write}
use microticket.Dynamo.Effects.{Effect, counter-on_items, transact_write-true}
use microticket.Billing.Numbers.{increment_invoice_counter, or_zero, returned, counter_value}
use microticket.Billing.Commands.{Command, run, run_all, writes_of, run-Effect}
use microticket.Decimal.{u64_max}

-- The last number given out for an instance.
abbrev pub last_number : Text → Tables → ℕ
last_number inst t = or_zero (t.next_invoice_number inst)

counter-up :
    (k inst : Text) (t : Tables) (o : Option ℕ)
    → or_zero (t.next_invoice_number k) ≤ or_zero o
    → or_zero (t.next_invoice_number inst) ≤ or_zero (update t.next_invoice_number k o inst)
counter-up k inst t o h = elim (Bool-cases (text_eq k inst)) [
  | inl e ↦ let p : k ≡ inst = (text_eq_iff k inst).0 e in rw e (rw (← p) h)
  | inr e ↦ rw e (omega arith)
]

writes-up :
    (inst : Text) (t : Tables) (c : Command)
    → all_hold t (writes_of c) ≡ true
    → last_number inst t ≤ last_number inst (apply_all t (writes_of c))
writes-up inst t (Command.create_item id now i p f u) h = omega arith
writes-up inst t (Command.update_item id none f now) h = omega arith
writes-up inst t (Command.update_item id (some v) f now) h = omega arith
writes-up inst t (Command.delete_item id) h = omega arith
writes-up inst t (Command.create id now i p ids u) h = rw counter-on_items (omega arith)
writes-up inst t (Command.add v p ids version now) h = rw counter-on_items (omega arith)
writes-up inst t (Command.remove v ids version now) h = rw counter-on_items (omega arith)
writes-up inst t (Command.delete v ids version) h = rw counter-on_items (omega arith)
writes-up inst t (Command.finalize v version f now) h = omega arith
writes-up inst t (Command.pay v d now) h = omega arith
writes-up inst t (Command.keep_pdf v key) h = omega arith
writes-up inst t (Command.increment k) h = counter-up k inst t _ (omega arith)
writes-up inst t (Command.set_next k n) h = counter-up k inst t _ (ground arith)

run-up :
    (h : Handler) (inst : Text) (c : Command) (t : Tables)
    → last_number inst t ≤ last_number inst (run h c t)
run-up h inst c t = made (run-Effect h c t)
  where
    made : Effect t (writes_of c) (run h c t) → last_number inst t ≤ last_number inst (run h c t)
    made (inl e) = rw e (omega arith)
    made (inr (holds, e)) = rw e (writes-up inst t c holds)

-- Whatever requests run, the last number of an instance does not fall.
pub run_all-up :
    (h : Handler) (inst : Text) (cs : List Command) (t : Tables)
    → last_number inst t ≤ last_number inst (run_all h cs t)
unfolding run_all
run_all-up h inst [] t = omega arith
run_all-up h inst (c ∷ cs) t = omega (arith, run-up h inst c t, run_all-up h inst cs (run h c t))

counter_value_ok :
    (inst : Text) (r : Result Error Bool × Tables) (n : ℕ)
    → (counter_value inst r).0 ≡ ok n
    → (r.0 ≡ ok true)
      × (returned (r.1.next_invoice_number inst) ≡ ok n)
      × ((counter_value inst r).1 ≡ r.1)
counter_value_ok inst (ok true, t) n e = (refl, e, refl)
counter_value_ok inst (ok false, t) n e = cc
counter_value_ok inst (err x, t) n e = cc

returned_ok : (o : Option ℕ) (n : ℕ) → returned o ≡ ok n → o ≡ some n
returned_ok none n e = cc
returned_ok (some k) n e = elim (Bool-cases (ltb u64_max k)) [
  | inl over ↦ ground arith
  | inr fits ↦ ground arith
]

bumped : (inst : Text) (t : Tables) (o : Option ℕ) → update t.next_invoice_number inst o inst ≡ o
bumped inst t o = rw ((text_eq_iff inst inst).1 refl) refl

-- An increment that answers returns the number it left, one more than was there.
pub increment_lem :
    (h : Handler) (inst : Text) (t : Tables) (n : ℕ)
    → (increment_invoice_counter h inst t).0 ≡ ok n
    → (n ≡ last_number inst t + 1) × (last_number inst (increment_invoice_counter h inst t).1 ≡ n)
unfolding increment_invoice_counter
increment_lem h inst t n e =
    let ws = on_counter inst (λ _. true) (λ c. some (or_zero c + 1)) ∷ [] in
    let (done, answer, same) = counter_value_ok inst (transact_write h ws t) n e in
    let (_, left) = transact_write-true h ws t done in
    let there = returned_ok _ n answer in
    let now : (transact_write h ws t).1.next_invoice_number inst ≡ some (last_number inst t + 1) =
      ap (λ (s : Tables). s.next_invoice_number inst) left ∙ bumped inst t _ in
    (
      some_same (sym there ∙ now),
      ap (λ (s : Tables). or_zero (s.next_invoice_number inst)) same ∙ ap or_zero there,
    )
  where
    some_same : {x y : ℕ} → some x ≡ some y → x ≡ y
    some_same h = cc

-- No number is given out twice: an increment that answers returns a number above every number that an
-- earlier increment of the instance returned, whatever requests run in between.
pub increment_invoice_counter_fresh :
    (h h' : Handler) (inst : Text) (between : List Command) (t : Tables) (n m : ℕ)
    → (increment_invoice_counter h inst t).0 ≡ ok n
    → (increment_invoice_counter h' inst
        (run_all h' between (increment_invoice_counter h inst t).1)).0
      ≡ ok m
    → n < m
increment_invoice_counter_fresh h h' inst between t n m e e' =
    let (_, left) = increment_lem h inst t n e in
    let (next, _) = increment_lem h' inst _ m e' in
    omega (arith, run_all-up h' inst between (increment_invoice_counter h inst t).1)
