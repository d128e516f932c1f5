-- ===== src/Billing/Interleaving.antt =====
-- The relation `Since` of Billing/Version across each command of Billing/Commands and across lists
-- of them (api/src/dynamodb.rs).
use microticket.Prelude.{
  ℕ, ◌≤◌, Text, Bool, true, false, Option, none, some, List, [], ◌∷◌, ◌≡◌, refl, arith, text_eq,
  text_eq_iff, inl, inr, Bool-cases, &&-true, All,
}
use microticket.Db.{Invoice, BillableItem, ItemFields}
use microticket.Dynamo.{Tables, Handler, all_hold, apply_all, on_invoice, on_item, update}
use microticket.Dynamo.Effects.{Effect}
use microticket.Billing.{
  draft_at, any_finalized, any_draft, on_row, add_items, remove_items, freeze, set_paid,
  set_pdf_key, bump, unbilled, billed_on, set_fields, is_absent, new_invoice,
}
use microticket.Billing.Commands.{Command, run, run_all, writes_of, run-Effect}
use microticket.Billing.Version.{
  creates, RowSince, SameVersion, SameContent, Since, Since-refl, Since-trans, RowSince-refl,
  RowSince-update, RowSince-bump, attach-Since, detach-Since, SameVersion-update,
}

-- An item on `v` that passes the test for `k`.
on_same :
    (k v : Text) (o : Option BillableItem) (r : BillableItem)
    → billed_on k o ≡ true
    → o ≡ some r
    → r.invoice_id ≡ some v
    → text_eq v k ≡ true
on_same k v o r h e b = ground arith

unbilled_off :
    (o : Option BillableItem) (r : BillableItem) (v : Text)
    → unbilled o ≡ true
    → o ≡ some r
    → r.invoice_id ≡ some v
    → ⊥
unbilled_off o r v h e b = ground arith

absent_off : (o : Option BillableItem) (r : BillableItem) → is_absent o ≡ true → o ≡ some r → ⊥
absent_off o r h e = ground arith

-- Writes of the invoice row that keep the version keep the content.
RowSince-paid :
    (d : Option Text) (now : ℕ) (o : Option Invoice) → RowSince o (on_row (set_paid d now) o)
RowSince-paid d now none = tt
RowSince-paid d now (some w) = (omega arith, λ _. (refl, refl, refl, refl))

RowSince-pdf : (key : Text) (o : Option Invoice) → RowSince o (on_row (set_pdf_key key) o)
RowSince-pdf key none = tt
RowSince-pdf key (some w) = (omega arith, λ _. (refl, refl, refl, refl))

RowSince-deleted : (n : ℕ) (o : Option Invoice) → draft_at n o ≡ true → RowSince o none
RowSince-deleted n none h = cc
RowSince-deleted n (some w) h = tt

removed_moves :
    (ids : List Text) (now : ℕ) (o : Option Invoice)
    → SameVersion o (on_row (remove_items ids now) o)
    → ⊥
removed_moves ids now none s = s
removed_moves ids now (some w) s = omega arith

deleted_moves : (o : Option Invoice) → SameVersion o none → ⊥
deleted_moves none s = s
deleted_moves (some w) s = s

bump_moves : (now : ℕ) (o : Option Invoice) → SameVersion o (on_row (bump now) o) → ⊥
bump_moves now none s = s
bump_moves now (some w) s = omega arith

module _ (v : Text) (t : Tables) where
  -- A write of the invoice row alone.
  invoice-Since :
      (k : Text) (c : Option Invoice → Bool) (o : Option Invoice)
      → RowSince (t.invoice v) (update t.invoice k o v)
      → Since v t (record t { invoice = update t.invoice k o })
  invoice-Since k c o row = record { row = row; items = λ _ i r e b. e }

  -- A write of an item that is not on the invoice.
  item-Since :
      (id : Text) (o : Option BillableItem)
      → ((r : BillableItem) → t.billable_item id ≡ some r → r.invoice_id ≡ some v → ⊥)
      → Since v t (record t { billable_item = update t.billable_item id o })
  item-Since id o away = record {
    row = RowSince-refl (t.invoice v);
    items = λ _ i r e b. elim (Bool-cases (text_eq id i)) [
      | inl same ↦ absurd (away r (rw ((text_eq_iff id i).0 same) e) b)
      | inr other ↦ rw other e
    ];
  }

  -- The edit of an item on a draft bumps the draft.
  edit-Since :
      (id k : Text) (f : ItemFields) (now : ℕ)
      → billed_on k (t.billable_item id) ≡ true
      → Since v t (
          apply_all t (
            on_item id (billed_on k) (on_row (set_fields f now))
            ∷ on_invoice k any_draft (on_row (bump now))
            ∷ []))
  edit-Since id k f now h = record {
    row = RowSince-update k v t _ (RowSince-bump (bump now) (t.invoice k) (λ w. refl));
    items = λ s i r e b. elim (Bool-cases (text_eq id i)) [
      | inl same ↦ absurd (
          bump_moves now (t.invoice k)
            (SameVersion-update k v t _ (on_same k v _ r h (rw ((text_eq_iff id i).0 same) e) b) s))
      | inr other ↦ rw other e
    ];
  }

  Since-same :
      (t' : Tables) → t'.invoice ≡ t.invoice → t'.billable_item ≡ t.billable_item → Since v t t'
  Since-same t' e f = record {
    row = rw e (RowSince-refl (t.invoice v));
    items = λ _ i r h b. rw f h;
  }

  create-row :
      (id : Text) (o : Option Invoice)
      → text_eq id v ≡ false
      → RowSince (t.invoice v) (update t.invoice id o v)
  create-row id o h = rw h (RowSince-refl (t.invoice v))

  -- What the writes of one command can do, once its conditions hold.
  writes-Since :
      (c : Command)
      → creates v c ≡ false
      → all_hold t (writes_of c) ≡ true
      → Since v t (apply_all t (writes_of c))
  writes-Since (Command.create_item id now inst proj f user) n h =
      item-Since id _ (λ r e _. absent_off _ r (&&-true _ _ h).0 e)
  writes-Since (Command.update_item id none f now) n h =
      item-Since id _ (λ r e b. unbilled_off _ r v (&&-true _ _ h).0 e b)
  writes-Since (Command.update_item id (some k) f now) n h = edit-Since id k f now (&&-true _ _ h).0
  writes-Since (Command.delete_item id) n h =
      item-Since id _ (λ r e b. unbilled_off _ r v (&&-true _ _ h).0 e b)
  writes-Since (Command.create id now inst proj ids user) n h =
      attach-Since v t id proj ids is_absent (λ _. some (new_invoice id now inst proj ids user)) h
        (create-row id _ n)
  writes-Since (Command.add k p ids version now) n h =
      attach-Since v t k p ids (draft_at version) (on_row (add_items ids now)) h
        (RowSince-update k v t _ (RowSince-bump (add_items ids now) (t.invoice k) (λ w. refl)))
  writes-Since (Command.remove k ids version now) n h =
      detach-Since v t k ids (draft_at version) (on_row (remove_items ids now)) h
        (RowSince-update k v t _ (RowSince-bump (remove_items ids now) (t.invoice k) (λ w. refl)))
        (removed_moves ids now (t.invoice k))
  writes-Since (Command.delete k ids version) n h =
      detach-Since v t k ids (draft_at version) (λ _. none) h
        (RowSince-update k v t _ (RowSince-deleted version (t.invoice k) (&&-true _ _ h).0))
        (deleted_moves (t.invoice k))
  writes-Since (Command.finalize k version f now) n h =
      invoice-Since k (draft_at version) _
        (RowSince-update k v t _ (RowSince-bump (freeze f now) (t.invoice k) (λ w. refl)))
  writes-Since (Command.pay k d now) n h =
      invoice-Since k any_finalized _ (RowSince-update k v t _ (RowSince-paid d now (t.invoice k)))
  writes-Since (Command.keep_pdf k key) n h =
      invoice-Since k any_finalized _ (RowSince-update k v t _ (RowSince-pdf key (t.invoice k)))
  writes-Since (Command.increment inst) n h =
      Since-same (apply_all t (writes_of (Command.increment inst))) refl refl
  writes-Since (Command.set_next inst m) n h =
      Since-same (apply_all t (writes_of (Command.set_next inst m))) refl refl

-- One request of another client.
run-Since :
    (h : Handler) (v : Text) (c : Command) (t : Tables)
    → creates v c ≡ false
    → Since v t (run h c t)
run-Since h v c t n = made (run-Effect h c t)
  where
    made : Effect t (writes_of c) (run h c t) → Since v t (run h c t)
    made (inl e) = rw e (Since-refl v t)
    made (inr (holds, e)) = rw e (writes-Since v t c n holds)

abbrev pub NeverCreates : Text → List Command → Type 0
NeverCreates v = All (λ c. creates v c ≡ false)

-- Whatever requests run in between, an invoice's version does not fall, an invoice that is gone stays
-- gone, and while the version is the same the invoice's items are the same, each with the same content.
pub run_all-Since :
    (h : Handler) (v : Text) (cs : List Command) (t : Tables)
    → NeverCreates v cs
    → Since v t (run_all h cs t)
unfolding run_all
run_all-Since h v [] t n = Since-refl v t
run_all-Since h v (c ∷ cs) t (n, ns) =
    Since-trans v t (run h c t) _ (run-Since h v c t n) (run_all-Since h v cs (run h c t) ns)

-- Whatever requests run in between, if none creates an invoice under this id: an invoice found
-- again with no higher version has the same version, items, status, project and instance, and each
-- item that was on it is as it was.
pub version_guards_content :
    (h : Handler) (v : Text) (cs : List Command) (t : Tables) (w w' : Invoice) (i : Text)
    (r : BillableItem)
    → NeverCreates v cs
    → t.invoice v ≡ some w
    → (run_all h cs t).invoice v ≡ some w'
    → w'.version ≤ w.version
    → t.billable_item i ≡ some r
    → r.invoice_id ≡ some v
    → (w'.version ≡ w.version) × SameContent w w' × ((run_all h cs t).billable_item i ≡ some r)
version_guards_content h v cs t w w' i r n e e' le at on =
    let since = run_all-Since h v cs t n in
    let (up, content) : RowSince (some w) (some w') = rw (e, e') at since.row in
    let same : w'.version ≡ w.version = omega arith in
    let both : SameVersion (t.invoice v) ((run_all h cs t).invoice v) = rw (e, e') same in
    (same, content same, since.items both i r at on)
