-- ===== src/Billing/Freeze.antt =====
-- Finalization (api/src/dynamodb.rs, `finalize_invoice`) after reads of the invoice and of its
-- items, with other requests in between.
use microticket.Prelude.{
  ℕ, ◌+◌, Text, true, Option, none, some, List, ◌≡◌, refl, arith, text_eq_iff, &&-true, All,
  All-map, ◌∙◌, ok, sym,
}
use microticket.Db.{Invoice, finalized, BillableItem}
use microticket.Dynamo.{Tables, Handler}
use microticket.Dynamo.Effects.{transact_write-true}
use microticket.Billing.{Frozen, freeze, finalize_invoice, draft_at, on_row, is_draft}
use microticket.Billing.Commands.{Command, run_all}
use microticket.Billing.Version.{RowSince, SameVersion, SameVersion-split, Since, Since-trans}
use microticket.Billing.Interleaving.{NeverCreates, run_all-Since}

-- The rows of a finalization that was reported as made.
pub finalize-row :
    (h : Handler) (v : Text) (n : ℕ) (f : Frozen) (now : ℕ) (t : Tables)
    → (finalize_invoice h v n f now t).0 ≡ ok true
    → (draft_at n (t.invoice v) ≡ true)
      × ((finalize_invoice h v n f now t).1.invoice v ≡ on_row (freeze f now) (t.invoice v))
      × ((finalize_invoice h v n f now t).1.billable_item ≡ t.billable_item)
unfolding finalize_invoice
finalize-row h v n f now t e =
    let (holds, made) = transact_write-true h _ t e in
    ((&&-true _ _ holds).0, rw made (rw ((text_eq_iff v v).1 refl)), rw made)

-- What a draft at version `n` is.
draft_at_row :
    (n : ℕ) (o : Option Invoice)
    → draft_at n o ≡ true
    → (w : Invoice) × (o ≡ some w) × (w.version ≡ n)
draft_at_row n none h = cc
draft_at_row n (some w) h = (w, refl, ground arith)

-- The invoice row of a finalization: the content read, at the next version, with what was frozen.
pub record IsFrozen (w : Invoice) (f : Frozen) (w' : Invoice) : Type 0 where
  pub status : w'.status ≡ finalized
  pub item_ids : w'.item_ids ≡ w.item_ids
  pub version : w'.version ≡ w.version + 1
  pub number : w'.number ≡ some f.number
  pub issue_date : w'.issue_date ≡ some f.issue_date
  pub snapshot : w'.snapshot ≡ some f.snapshot
  pub total_cents : w'.total_cents ≡ some f.total_cents

-- The item is there and points at the invoice: the check of the caller.
abbrev pub IsOn : Text → Tables → Text → Type 0
IsOn v t i = (r : BillableItem) × (t.billable_item i ≡ some r) × (r.invoice_id ≡ some v)

-- A finalization at the version of an invoice that was read, with its items read at moments in
-- between: an item that was on the invoice at such a moment still is what it was.
pub finalize_freezes_seen :
    (h : Handler) (v : Text) (t at_commit : Tables) (w : Invoice) (f : Frozen) (now : ℕ)
    → t.invoice v ≡ some w
    → Since v t at_commit
    → (finalize_invoice h v w.version f now at_commit).0 ≡ ok true
    → (w' : Invoice) × ((finalize_invoice h v w.version f now at_commit).1.invoice v ≡ some w')
      × IsFrozen w f w'
      × ((s : Tables)
          → Since v t s
          → Since v s at_commit
          → (i : Text) (r : BillableItem) → s.billable_item i ≡ some r
          → r.invoice_id ≡ some v
          → (finalize_invoice h v w.version f now at_commit).1.billable_item i ≡ some r)
finalize_freezes_seen h v t at_commit w f now read whole done =
    let (is_draft, row, items) = finalize-row h v w.version f now at_commit done in
    let (w2, e, n) = draft_at_row w.version (at_commit.invoice v) is_draft in
    let rows : RowSince (some w) (some w2) = rw (e, read) at whole.row in
    let same : SameVersion (t.invoice v) (at_commit.invoice v) = rw (e, read) n in
    (
      freeze f now w2,
      row ∙ rw e,
      record {
        status = refl;
        item_ids = (rows.1 n).0;
        version = omega arith;
        number = refl;
        issue_date = refl;
        snapshot = refl;
        total_cents = refl;
      },
      λ s since later i r at on.
          rw items (later.items (SameVersion-split _ _ _ since.row later.row same).1 i r at on),
    )

module _ (h : Handler) (v : Text) (before between : List Command) (t : Tables) (w : Invoice)
    (f : Frozen) (now : ℕ) (read : t.invoice v ≡ some w) (nb : NeverCreates v before)
    (nw : NeverCreates v between) where
  abbrev pub at_items : Tables
  at_items = run_all h before t

  abbrev pub at_commit : Tables
  at_commit = run_all h between at_items

  -- A caller reads the invoice, later reads its items and finds each of them on it, and later
  -- finalizes at the version that it read; other requests run in between, none of which creates an
  -- invoice under this id. If the finalization is reported as made, the row is the frozen one with
  -- the items that were read, and each item still is what the caller read: no stale content is
  -- frozen.
  pub finalize_freezes_read :
      All (IsOn v at_items) w.item_ids
      → (finalize_invoice h v w.version f now at_commit).0 ≡ ok true
      → (w' : Invoice) × ((finalize_invoice h v w.version f now at_commit).1.invoice v ≡ some w')
        × IsFrozen w f w'
        × All
            (λ i.
              (finalize_invoice h v w.version f now at_commit).1.billable_item i
              ≡ at_items.billable_item i)
            w.item_ids
  finalize_freezes_read on done =
      let s1 = run_all-Since h v before t nb in
      let s2 = run_all-Since h v between at_items nw in
      let (w', row, frozen, kept) =
        finalize_freezes_seen h v t at_commit w f now read (Since-trans v _ _ _ s1 s2) done in
      (
        w',
        row,
        frozen,
        All-map (λ i (r, at, pointed). kept at_items s1 s2 i r at pointed ∙ sym at) w.item_ids on,
      )
