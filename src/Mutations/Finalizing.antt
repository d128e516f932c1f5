-- ===== src/Mutations/Finalizing.antt =====
-- `finalize_invoice` of api/src/graphql/mutations.rs, from its first read to its last write.
use microticket.Prelude.{
  ◌⊎◌, inl, inr, ℕ, Text, false, some, List, ◌∷◌, ◌++◌, ◌≡◌, refl, ap, ◌∙◌, ◌≤◌, subst, All-append,
  ok, err, arith,
}
use microticket.Db.{Invoice, BillableItem}
use microticket.Dynamo.{Tables, Handler}
use microticket.Billing.Version.{Since, Since-trans}
use microticket.Billing.Interleaving.{run_all-Since}
use microticket.Billing.Commands.{run_all}
use microticket.Mutations.Lookups.{Seen}
use microticket.Mutations.Traces.{Waits, Waits-Reached}
use microticket.Mutations.Batches.{Waits-Since}
use microticket.Mutations.Printing.{Between}
use microticket.Mutations.{◌>>=◌}
use microticket.Mutations.Reads.{AreOn-map}
use microticket.Prelude.{sym}
use microticket.Dynamo.Effects.{transact_write-false}
use microticket.Billing.{Frozen}
use microticket.Billing
use microticket.Billing.Commands.{Command}
use microticket.Billing.Numbers.{increment_invoice_counter}
use microticket.Billing.Keyed.{IsKeyed, run_all-IsKeyed, InvoiceHasId}
use microticket.Mutations.{
  classify, internal, Server, AuthInfo, World, Failure, pass, first_batch, rest_of, bad_input,
}
use microticket.Mutations.Invoices.{finalize_invoice, finalize_resolved, write_final, items_on}
use microticket.Mutations.Logic.{
  Ends, Ends-err, pure-Ends, bind-Ends, call-Ends, checked-Ends, fail_if-Ends, user_id_of-Ends,
  IsMember, require_invoice_member-Ends,
}
use microticket.Mutations.Traces.{Reached, Fails, begun, waited, counted}
use microticket.Mutations.Reads.{AreOn, items_on-Ends, require_project-Ends, require_instance-Ends}
use microticket.Mutations.Batches.{Quiet, first-Quiet, world_eq, not-false, not-true, between_lem}
use microticket.Mutations.Printing.{IsPrintOf, number_and_freeze-Ends, IsFinalized, written}

-- The tables of a refused finalization.
not_written :
    (h : Handler) (v : Text) (version : ℕ) (f : Frozen) (now : ℕ) (t : Tables)
    → (Billing.finalize_invoice h v version f now t).0 ≡ ok false
    → (Billing.finalize_invoice h v version f now t).1 ≡ t
unfolding Billing.finalize_invoice
not_written h v version f now t e = transact_write-false h _ t e

module _ (s : Server) (caller : AuthInfo) (id issue_date : Text) (w : World)
    (keyed : IsKeyed w.tables) (quiet : Quiet id w.later) where
  abbrev w1 : World
  w1 = pass s.handler w

  abbrev E : Failure → World → Type 0
  E = Fails s.handler w 1

  abbrev Left : World → Type 0
  Left u = (j : ℕ) × (j ≤ 1) × Reached s.handler w j u

  at_first : (u : World) → u ≡ w1 → Left u
  at_first u same = rw same (0, omega arith, waited begun)

  keyed_1 : IsKeyed w1.tables
  keyed_1 = run_all-IsKeyed s.handler (first_batch w.later) w.tables keyed

  own_id : (invoice : Invoice) → w1.tables.invoice id ≡ some invoice → invoice.id ≡ id
  own_id invoice at = subst (InvoiceHasId id) at (keyed_1.invoices id)

  -- The run from the end of the read of the items on.
  module _ (w2 : World) (waits : Waits s.handler w1 w2) where
    reached_2 : Reached s.handler w 0 w2
    reached_2 = Waits-Reached (waited begun) waits

    -- After a number was given out and the write was refused.
    at_last :
        (i : Text) (v u : World)
        → v.tables ≡ (increment_invoice_counter s.handler i (pass s.handler w2).tables).1
        → v.later ≡ (pass s.handler w2).later
        → u.tables ≡ (pass s.handler v).tables
        → u.later ≡ (pass s.handler v).later
        → Left u
    at_last i v u vt vl ut ul =
        let same : v ≡ record {
          tables = (increment_invoice_counter s.handler i (pass s.handler w2).tables).1;
          later = (pass s.handler w2).later;
        } =
          world_eq v _ vt vl in
        let last : u ≡ pass s.handler v = world_eq u _ ut ul in
        rw (last, same) (1, omega arith, waited (counted i reached_2))

    -- From a moment of the read of the items to the last write.
    commit-Since :
        (i : Text) (v : World)
        → v.tables ≡ (increment_invoice_counter s.handler i (pass s.handler w2).tables).1
        → v.later ≡ (pass s.handler w2).later
        → Since id w2.tables (pass s.handler v).tables
    commit-Since i v vt vl =
        let (_, q1) = first-Quiet id w.later quiet in
        let (_, q2) = Waits-Since s.handler id w1 w2 q1 waits in
        let (n2, q3) = first-Quiet id w2.later q2 in
        let (n3, _) = first-Quiet id (rest_of w2.later) q3 in
        let between = Command.increment i ∷ first_batch (rest_of w2.later) in
        let same : (pass s.handler v).tables
            ≡ run_all s.handler (first_batch w2.later ++ between) w2.tables =
          rw (vt, vl)
            (between_lem s.handler (first_batch w2.later) (first_batch (rest_of w2.later)) i
              w2.tables) in
        subst (Since id w2.tables) (sym same) (
          run_all-Since s.handler id (first_batch w2.later ++ between) w2.tables
            (All-append _ (first_batch w2.later) between n2 (refl, n3)))

    Seen-Between :
        (at_commit : Tables)
        → Since id w2.tables at_commit
        → (k : Text) (r : BillableItem) → Seen s w1 keyed_1 w2 k r
        → Between id w1.tables at_commit k r
    Seen-Between at_commit since k r (m, a, b, at) =
        let (_, q1) = first-Quiet id w.later quiet in
        let (s1, q) = Waits-Since s.handler id w1 m q1 a in
        let (s2, _) = Waits-Since s.handler id m w2 q b in
        (m.tables, s1, Since-trans id m.tables w2.tables at_commit s2 since, at)

    whole-Since : (at_commit : Tables) → Since id w2.tables at_commit → Since id w1.tables at_commit
    whole-Since at_commit since =
        let (_, q1) = first-Quiet id w.later quiet in
        let (s1, _) = Waits-Since s.handler id w1 w2 q1 waits in
        Since-trans id w1.tables w2.tables at_commit s1 since

    -- The last write and the answer.
    last-Ends :
        (invoice : Invoice) (items : List BillableItem) (f : Frozen) (v : World)
        → v.tables
          ≡ (increment_invoice_counter s.handler invoice.instance_id (pass s.handler w2).tables).1
        → v.later ≡ (pass s.handler w2).later
        → w1.tables.invoice id ≡ some invoice
        → IsMember caller invoice.instance_id
        → AreOn id (Seen s w1 keyed_1 w2) invoice.item_ids items
        → IsPrintOf s w invoice.project_id invoice.instance_id items f
        → Ends (IsFinalized s w caller id) E (write_final s invoice f v)
    last-Ends invoice items f v vt vl at member on print =
        bind-Ends E _ _ _ v _
          (call-Ends E s.handler v
            (Billing.finalize_invoice s.handler invoice.id invoice.version f s.written_at)
            (λ e _. inl refl))
          (λ ok_or_not u (done, made, later).
            bind-Ends E _ _ _ u _
              (fail_if-Ends E _ _ u (λ no. inr (
                at_last invoice.instance_id v u vt vl
                  (made ∙ not_written s.handler _ _ f _ _ (done ∙ ap ok (not-true _ no))) later)))
              (λ _ u' (e', committed).
                let since = commit-Since invoice.instance_id v vt vl in
                pure-Ends E _ _ u' (
                  written s w caller id w1.tables (pass s.handler v).tables invoice items f u'
                    (whole-Since _ since) (own_id invoice at) at member
                    (AreOn-map id (Seen-Between _ since) invoice.item_ids items on) print
                    (done ∙ ap ok (not-false _ committed)) (rw e' made))))

    rest-Ends :
        (invoice : Invoice) (items : List BillableItem) (date user_id : Text)
        → w1.tables.invoice id ≡ some invoice
        → IsMember caller invoice.instance_id
        → AreOn id (Seen s w1 keyed_1 w2) invoice.item_ids items
        → Ends (IsFinalized s w caller id) E (finalize_resolved s invoice items date user_id w2)
    rest-Ends invoice items date user_id at member on =
        let left : (u : World) → u ≡ w2 → Left u = λ u e. rw e (0, omega arith, reached_2) in
        bind-Ends E _ _ _ w2 _
          (require_project-Ends E s invoice.project_id w2 (λ e. inl refl) (λ m. inr (left w2 refl)))
          (λ project u1 (e1, p).
            bind-Ends E _ _ _ u1 _
              (require_instance-Ends E s invoice.instance_id u1 (λ e. inl refl)
                (λ m. inr (left u1 e1)))
              (λ inst u2 (e2, i).
                bind-Ends E _ _ _ u2 _ (fail_if-Ends E _ _ u2 (λ _. inl refl)) (λ _ u3 (e3, named).
                  let same : u3 ≡ w2 = e3 ∙ e2 ∙ e1 in
                  bind-Ends E _ _ _ u3 _
                    (number_and_freeze-Ends E s (λ e u c. inl c) invoice inst project items date
                      user_id w u3 (rw same reached_2) p i (not-false _ named))
                    (λ f v (vt, vl, print).
                      last-Ends invoice items f v (rw same at vt) (rw same at vl) at member on
                        print))))

  finalize_invoice-Ends :
      Ends (IsFinalized s w caller id) E (finalize_invoice s caller id issue_date w)
  unfolding finalize_invoice
  finalize_invoice-Ends =
      bind-Ends E _ _ _ w _
        (require_invoice_member-Ends E s caller id w (λ m. inr (0, omega arith, begun))
          (λ e. inl refl) (inr (at_first w1 refl)))
        (λ invoice u1 (e1, at, member).
          bind-Ends E _ _ _ u1 _ (user_id_of-Ends E caller u1 (λ m. inr (at_first u1 e1)))
            (λ user_id u2 e2.
              bind-Ends E _ _ _ u2 _ (fail_if-Ends E _ _ u2 (λ _. inr (at_first u2 (e2 ∙ e1))))
                (λ _ u3 (e3, _).
                  bind-Ends E _ _ _ u3 _ (fail_if-Ends E _ _ u3 (λ _. inl refl)) (λ _ u4 (e4, _).
                    bind-Ends E _ _ _ u4 _ (checked-Ends E bad_input _ u4 (λ e _. inl refl))
                      (λ date u5 (e5, _).
                        let e : u5 ≡ w1 = e5 ∙ e4 ∙ e3 ∙ e2 ∙ e1 in
                        from_items invoice date user_id u5 e (rw e1 at at) member)))))
    where
      from_items :
          (invoice : Invoice) (date user_id : Text) (u : World)
          → u ≡ w1
          → w1.tables.invoice id ≡ some invoice
          → IsMember caller invoice.instance_id
          → Ends
              (IsFinalized s w caller id)
              E
              ((items_on s invoice >>= λ items. finalize_resolved s invoice items date user_id) u)
      from_items invoice date user_id u e at member = rw e (
          bind-Ends E _ _ _ w1 _
            (items_on-Ends E s invoice w1 keyed_1 (λ e u. inl refl)
              (λ m u waits. inr (0, omega arith, Waits-Reached (waited begun) waits)))
            (λ items w2 (waits, on). rest-Ends w2 waits invoice items date user_id at member (
              subst (λ v. AreOn v (Seen s w1 keyed_1 w2) invoice.item_ids items) (own_id invoice at)
                on)))

-- Rows stand under their own ids, and none of the requests of others creates an invoice under this
-- id. If `finalizeInvoice` ends in an error, the error is an internal one, or nothing was done but the
-- others' requests and the giving out of one number at most.
pub finalize_invoice_fails :
    (s : Server) (caller : AuthInfo) (id issue_date : Text) (w : World) (e : Failure) (u : World)
    → IsKeyed w.tables
    → Quiet id w.later
    → finalize_invoice s caller id issue_date w ≡ (err e, u)
    → (classify e ≡ internal) ⊎ ((j : ℕ) × (j ≤ 1) × Reached s.handler w j u)
finalize_invoice_fails s caller id issue_date w e u keyed quiet =
    Ends-err _ _ _ e u (finalize_invoice-Ends s caller id issue_date w keyed quiet)
