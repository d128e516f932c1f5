-- ===== src/Mutations/Adding.antt =====
-- `add_invoice_items` of api/src/graphql/mutations.rs.
use microticket.Prelude.{
  ℕ, ◌+◌, ◌≤◌, Text, true, false, not, some, List, [], ◌∷◌, ◌++◌, ◌≡◌, refl, ap, subst, inl, inr,
  arith, All, length, length-append, ok,
}
use microticket.Db.{Invoice, InvoiceStatus, draft, finalized}
use microticket.Dynamo.{Tables, Handler}
use microticket.Dynamo.Effects.{transact_write-false}
use microticket.Billing.{is_draft}
use microticket.Billing
use microticket.Billing.Keyed.{IsKeyed}
use microticket.Mutations.{Server, AuthInfo, World, Failure, pass}
use microticket.Mutations.Checks.{validate_new_invoice_item_ids}
use microticket.Mutations.Invoices.{add_invoice_items, fetch_eligible_items, existing_items, itself}
use microticket.Mutations.Ids.{validate_item_ids_iff}
use microticket.Dynamo.{AreDistinct}
use microticket.Mutations.Logic.{
  Ends, Ends-ok, pure-Ends, bind-Ends, read-Ends, checked-Ends, fail_if-Ends, weaken-Ends, IsMember,
  require_invoice_member-Ends,
}
use microticket.Mutations.Batches.{Quiet}
use microticket.Mutations.Commits.{Idle, pass-Idle, add_made}
use microticket.Mutations.Reads.{require_instance-Ends}
use microticket.Mutations.Traces.{Fails, begun}
use microticket.Mutations.Steady.{IsEdited, begin, left, commit-Ends, own_id}

is_draft_lem : (st : InvoiceStatus) → not (is_draft st) ≡ false → st ≡ draft
is_draft_lem draft e = refl
is_draft_lem finalized e = cc

add_refused :
    (h : Handler) (v p : Text) (ids : List Text) (version now : ℕ) (t : Tables)
    → (Billing.add_invoice_items h v p ids version now t).0 ≡ ok false
    → (Billing.add_invoice_items h v p ids version now t).1 ≡ t
unfolding Billing.add_invoice_items
add_refused h v p ids version now t e = transact_write-false h _ t e

module _ (s : Server) (caller : AuthInfo) (id : Text) (w : World) (keyed : IsKeyed w.tables)
    (quiet : Quiet id w.later) where
  abbrev w1 : World
  w1 = pass s.handler w

  abbrev E : Failure → World → Type 0
  E = Fails s.handler w 0

  abbrev I : World → Type 0
  I = Idle s.handler id w w1.tables

  fetch-Ends :
      (project_id : Text) (ids : List Text) (u : World)
      → I u
      → Ends (λ _ x. I x) E (fetch_eligible_items s project_id ids u)
  fetch-Ends project_id ids u i =
      let next = pass-Idle s.handler id w w1.tables u i in
      bind-Ends E _ _ _ u _
        (read-Ends E s.handler u (λ t. s.get_billable_items t ids) (λ e. inl refl))
        (λ rows u1 (e1, _).
          weaken-Ends E _ _
            (checked-Ends E itself _ u1
              (λ e _. inr (left s caller id w keyed quiet u1 (rw e1 next))))
            (λ items u2 (e2, _). rw (e2, e1) next))

  existing-Ends : (ids : List Text) (u : World) → I u → Ends (λ _ x. I x) E (existing_items s ids u)
  existing-Ends [] u i = pure-Ends E _ _ u i
  existing-Ends (j ∷ ids) u i =
      bind-Ends E _ _ _ u _
        (read-Ends E s.handler u (λ t. s.get_billable_items t (j ∷ ids)) (λ e. inl refl))
        (λ rows u1 (e1, _). pure-Ends E _ _ u1 (rw e1 (pass-Idle s.handler id w w1.tables u i)))

  added :
      (invoice : Invoice) (new_ids item_ids : List Text) (u x : World)
      → I u
      → w1.tables.invoice id ≡ some invoice
      → IsMember caller invoice.instance_id
      → invoice.status ≡ draft
      → validate_new_invoice_item_ids item_ids invoice.item_ids ≡ ok new_ids
      → (Billing.add_invoice_items s.handler invoice.id invoice.project_id new_ids invoice.version
          s.written_at u.tables).0
        ≡ ok true
      → x.tables
        ≡ (Billing.add_invoice_items s.handler invoice.id invoice.project_id new_ids invoice.version
            s.written_at u.tables).1
      → IsEdited caller id
          (some id)
          item_ids
          (record invoice {
            item_ids = invoice.item_ids ++ new_ids;
            version = invoice.version + 1;
            updated_at = s.answered_at;
          })
          x
        × AreDistinct item_ids
        × (length (invoice.item_ids ++ new_ids) ≤ 50)
  added invoice new_ids item_ids u x i at member status valid done made =
      let (same, _, few, distinct, fresh) =
        (validate_item_ids_iff item_ids invoice.item_ids new_ids).0.0 valid in
      let own = own_id s caller id w keyed quiet invoice at in
      let (row, stored, ids, version, drafted, project, inst, items) =
        add_made s.handler id invoice.project_id new_ids s.written_at w1.tables u.tables invoice
          i.since at (rw same fresh) (rw own at done) in
      (
        record {
          row = row;
          stored = rw (made, own) stored;
          answers = (ids, version, drafted, project, inst);
          member = member;
          items = rw (made, own) (subst (All _) same items);
        },
        distinct,
        rw length-append (omega (arith, ap length same)),
      )

  pub add_invoice_items-Ends :
      (item_ids : List Text)
      → Ends
          (λ answer u.
            IsEdited caller id (some id) item_ids answer u
            × AreDistinct item_ids
            × (length answer.item_ids ≤ 50))
          E
          (add_invoice_items s caller id item_ids w)
  unfolding add_invoice_items
  add_invoice_items-Ends item_ids =
      bind-Ends E _ _ _ w _
        (require_invoice_member-Ends E s caller id w (λ m. inr (0, omega arith, begun))
          (λ e. inl refl)
          (inr (left s caller id w keyed quiet w1 (begin s caller id w keyed quiet))))
        (λ invoice u1 (e1, at, member).
          bind-Ends E _ _ _ u1 _
            (fail_if-Ends E _ _ u1 (λ _.
              inr (left s caller id w keyed quiet u1 (rw e1 (begin s caller id w keyed quiet)))))
            (λ _ u2 (e2, drafted).
              bind-Ends E _ _ _ u2 _
                (checked-Ends E itself _ u2 (λ e _. inr (
                  left s caller id w keyed quiet u2
                    (rw (e2, e1) (begin s caller id w keyed quiet)))))
                (λ new_ids u3 (e3, valid).
                  bind-Ends E _ _ _ u3 _
                    (fetch-Ends invoice.project_id new_ids u3
                      (rw (e3, e2, e1) (begin s caller id w keyed quiet)))
                    (λ new_items u4 i4.
                      bind-Ends E _ _ _ u4 _ (existing-Ends invoice.item_ids u4 i4)
                        (λ existing u5 i5.
                          bind-Ends E _ _ _ u5 _
                            (require_instance-Ends E s invoice.instance_id u5 (λ e. inl refl)
                              (λ m. inr (left s caller id w keyed quiet u5 i5)))
                            (λ inst u6 (e6, _).
                              bind-Ends E _ _ _ u6 _
                                (checked-Ends E itself _ u6
                                  (λ e _. inr (left s caller id w keyed quiet u6 (rw e6 i5))))
                                (λ _ u7 (e7, _).
                                  let i8 : I (pass s.handler u7) =
                                    pass-Idle s.handler id w w1.tables u7 (rw (e7, e6) i5) in
                                  commit-Ends s caller id w keyed quiet _ _ _ _ u7
                                    (add_refused s.handler invoice.id _ new_ids _ _) i8
                                    (λ x.
                                      added invoice new_ids item_ids (pass s.handler u7) x i8
                                        (rw e1 at at) member (is_draft_lem _ drafted) valid))))))))

-- Rows stand under their own ids, and none of the requests of others creates an invoice under this
-- id. If `addInvoiceItems` answers with an invoice, whatever the others did before each of its
-- calls, the row stored is a draft and agrees with the answer in its items, version, project and
-- instance, of which the caller is a member; the items named are distinct and each is stored as on
-- this invoice, which has fifty items at most.
pub add_invoice_items_sound :
    (s : Server) (caller : AuthInfo) (id : Text) (item_ids : List Text) (w : World)
    (answer : Invoice) (u : World)
    → IsKeyed w.tables
    → Quiet id w.later
    → add_invoice_items s caller id item_ids w ≡ (ok answer, u)
    → IsEdited caller id (some id) item_ids answer u
      × AreDistinct item_ids
      × (length answer.item_ids ≤ 50)
add_invoice_items_sound s caller id item_ids w answer u keyed quiet =
    Ends-ok _ _ _ answer u (add_invoice_items-Ends s caller id w keyed quiet item_ids)
