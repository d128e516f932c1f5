-- ===== src/Mutations/Removing.antt =====
-- `remove_invoice_items` and `delete_invoice` of api/src/graphql/mutations.rs.
use microticket.Prelude.{
  ℕ, ◌+◌, Text, true, false, not, none, some, List, ◌≡◌, refl, subst, inl, inr, arith, All, filter,
  ok,
}
use microticket.Db.{Invoice}
use microticket.Dynamo.{Tables, Handler, mem}
use microticket.Dynamo.Effects.{transact_write-false}
use microticket.Billing.{is_draft}
use microticket.Billing
use microticket.Billing.Keyed.{IsKeyed}
use microticket.Mutations.{Server, AuthInfo, World, Failure, pass}
use microticket.Mutations.Checks.{validate_remove_invoice_item_ids}
use microticket.Mutations.Invoices.{remove_invoice_items, delete_invoice, itself}
use microticket.Mutations.Ids.{validate_item_ids_iff}
use microticket.Mutations.Logic.{
  Ends, Ends-ok, bind-Ends, checked-Ends, fail_if-Ends, IsMember, require_invoice_member-Ends,
}
use microticket.Mutations.Batches.{Quiet}
use microticket.Mutations.Commits.{Idle, pass-Idle, IsStoredOn, remove_made, delete_made}
use microticket.Mutations.Traces.{Fails, begun}
use microticket.Mutations.Steady.{IsEdited, begin, left, commit-Ends, own_id}

remove_refused :
    (h : Handler) (v : Text) (ids : List Text) (version now : ℕ) (t : Tables)
    → (Billing.remove_invoice_items h v ids version now t).0 ≡ ok false
    → (Billing.remove_invoice_items h v ids version now t).1 ≡ t
unfolding Billing.remove_invoice_items
remove_refused h v ids version now t e = transact_write-false h _ t e

delete_refused :
    (h : Handler) (v : Text) (ids : List Text) (version : ℕ) (t : Tables)
    → (Billing.delete_invoice h v ids version t).0 ≡ ok false
    → (Billing.delete_invoice h v ids version t).1 ≡ t
unfolding Billing.delete_invoice
delete_refused h v ids version t e = transact_write-false h _ t e

-- The invoice that was read is gone, and its items are on none.
pub record IsDeleted (caller : AuthInfo) (id : Text) (t : Tables) (answer : Text) (u : World)
    : Type 0 where
  pub invoice : Invoice
  pub answers : answer ≡ id
  pub read : t.invoice id ≡ some invoice
  pub member : IsMember caller invoice.instance_id
  pub gone : u.tables.invoice id ≡ none
  pub items : All (IsStoredOn u.tables none) invoice.item_ids

module _ (s : Server) (caller : AuthInfo) (id : Text) (w : World) (keyed : IsKeyed w.tables)
    (quiet : Quiet id w.later) where
  abbrev w1 : World
  w1 = pass s.handler w

  abbrev E : Failure → World → Type 0
  E = Fails s.handler w 0

  abbrev I : World → Type 0
  I = Idle s.handler id w w1.tables

  removed :
      (invoice : Invoice) (ids item_ids : List Text) (u x : World)
      → I u
      → w1.tables.invoice id ≡ some invoice
      → IsMember caller invoice.instance_id
      → validate_remove_invoice_item_ids item_ids invoice.item_ids ≡ ok ids
      → (Billing.remove_invoice_items s.handler invoice.id ids invoice.version s.written_at
          u.tables).0
        ≡ ok true
      → x.tables
        ≡ (Billing.remove_invoice_items s.handler invoice.id ids invoice.version s.written_at
            u.tables).1
      → IsEdited caller id none item_ids
          (record invoice {
            item_ids = filter (λ i. not (mem i ids)) invoice.item_ids;
            version = invoice.version + 1;
            updated_at = s.answered_at;
          })
          x
  removed invoice ids item_ids u x i at member valid done made =
      let (same, _, _, _) = (validate_item_ids_iff item_ids invoice.item_ids ids).1.0 valid in
      let own = own_id s caller id w keyed quiet invoice at in
      let (row, stored, left_ids, version, drafted, project, inst, items) =
        remove_made s.handler id ids s.written_at w1.tables u.tables invoice i.since at
          (rw own at done) in
      record {
        row = row;
        stored = rw (made, own) stored;
        answers = (left_ids, version, drafted, project, inst);
        member = member;
        items = rw (made, own) (subst (All _) same items);
      }

  pub remove_invoice_items-Ends :
      (item_ids : List Text)
      → Ends (IsEdited caller id none item_ids) E (remove_invoice_items s caller id item_ids w)
  unfolding remove_invoice_items
  remove_invoice_items-Ends item_ids =
      bind-Ends E _ _ _ w _
        (require_invoice_member-Ends E s caller id w (λ m. inr (0, omega arith, begun))
          (λ e. inl refl)
          (inr (left s caller id w keyed quiet w1 (begin s caller id w keyed quiet))))
        (λ invoice u1 (e1, at, member).
          bind-Ends E _ _ _ u1 _
            (fail_if-Ends E _ _ u1 (λ _.
              inr (left s caller id w keyed quiet u1 (rw e1 (begin s caller id w keyed quiet)))))
            (λ _ u2 (e2, _).
              bind-Ends E _ _ _ u2 _
                (checked-Ends E itself _ u2 (λ e _. inr (
                  left s caller id w keyed quiet u2
                    (rw (e2, e1) (begin s caller id w keyed quiet)))))
                (λ ids u3 (e3, valid).
                  let i4 : I (pass s.handler u3) =
                    pass-Idle s.handler id w w1.tables u3
                      (rw (e3, e2, e1) (begin s caller id w keyed quiet)) in
                  commit-Ends s caller id w keyed quiet _ _ _ _ u3
                    (remove_refused s.handler invoice.id ids _ _) i4
                    (λ x.
                      removed invoice ids item_ids (pass s.handler u3) x i4 (rw e1 at at) member
                        valid))))

  deleted :
      (invoice : Invoice) (u x : World)
      → I u
      → w1.tables.invoice id ≡ some invoice
      → IsMember caller invoice.instance_id
      → (Billing.delete_invoice s.handler invoice.id invoice.item_ids invoice.version u.tables).0
        ≡ ok true
      → x.tables
        ≡ (Billing.delete_invoice s.handler invoice.id invoice.item_ids invoice.version u.tables).1
      → IsDeleted caller id w1.tables invoice.id x
  deleted invoice u x i at member done made =
      let own = own_id s caller id w keyed quiet invoice at in
      let (gone, items) =
        delete_made s.handler id invoice.item_ids invoice.version u.tables (rw own at done) in
      record {
        invoice = invoice;
        answers = own;
        read = at;
        member = member;
        gone = rw (made, own) gone;
        items = rw (made, own) items;
      }

  pub delete_invoice-Ends : Ends (IsDeleted caller id w1.tables) E (delete_invoice s caller id w)
  unfolding delete_invoice
  delete_invoice-Ends =
      bind-Ends E _ _ _ w _
        (require_invoice_member-Ends E s caller id w (λ m. inr (0, omega arith, begun))
          (λ e. inl refl)
          (inr (left s caller id w keyed quiet w1 (begin s caller id w keyed quiet))))
        (λ invoice u1 (e1, at, member).
          bind-Ends E _ _ _ u1 _
            (fail_if-Ends E _ _ u1 (λ _.
              inr (left s caller id w keyed quiet u1 (rw e1 (begin s caller id w keyed quiet)))))
            (λ _ u2 (e2, _).
              let i3 : I (pass s.handler u2) =
                pass-Idle s.handler id w w1.tables u2
                  (rw (e2, e1) (begin s caller id w keyed quiet)) in
              commit-Ends s caller id w keyed quiet _ _ _ _ u2
                (delete_refused s.handler invoice.id _ _) i3
                (λ x. deleted invoice (pass s.handler u2) x i3 (rw e1 at at) member)))

-- Rows stand under their own ids, and none of the requests of others creates an invoice under this
-- id. If `removeInvoiceItems` answers with an invoice, the row stored is a draft and agrees with the
-- answer in its items, version, project and instance, of which the caller is a member, and each item
-- named is stored as on no invoice.
pub remove_invoice_items_sound :
    (s : Server) (caller : AuthInfo) (id : Text) (item_ids : List Text) (w : World)
    (answer : Invoice) (u : World)
    → IsKeyed w.tables
    → Quiet id w.later
    → remove_invoice_items s caller id item_ids w ≡ (ok answer, u)
    → IsEdited caller id none item_ids answer u
remove_invoice_items_sound s caller id item_ids w answer u keyed quiet =
    Ends-ok _ _ _ answer u (remove_invoice_items-Ends s caller id w keyed quiet item_ids)

-- Rows stand under their own ids, and none of the requests of others creates an invoice under this
-- id. If `deleteInvoice` answers with an id, the id is this one, the caller is a member of the
-- instance of the invoice that was read, the invoice is gone, and each of its items is stored as on
-- no invoice.
pub delete_invoice_sound :
    (s : Server) (caller : AuthInfo) (id : Text) (w : World) (answer : Text) (u : World)
    → IsKeyed w.tables
    → Quiet id w.later
    → delete_invoice s caller id w ≡ (ok answer, u)
    → IsDeleted caller id (pass s.handler w).tables answer u
delete_invoice_sound s caller id w answer u keyed quiet =
    Ends-ok _ _ _ answer u (delete_invoice-Ends s caller id w keyed quiet)
