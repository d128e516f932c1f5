-- ===== src/Billing/Final.antt =====
-- Finalized invoices (api/src/dynamodb.rs): what the writes of other requests can do to their rows
-- and items.
use microticket.Prelude.{
  ℕ, Text, true, false, Option, none, some, List, [], ◌∷◌, ◌≡◌, refl, arith, text_eq, text_eq_iff,
  inl, inr, Bool-cases, &&-true, ap, ◌∙◌,
}
use microticket.Db.{Invoice, finalized, BillableItem}
use microticket.Dynamo.{Tables, Handler, all_hold, apply_all, update}
use microticket.Dynamo.Effects.{Effect, invoice-on_items}
use microticket.Billing.{draft_at, any_draft, any_finalized, on_row, set_paid, set_pdf_key, bump}
use microticket.Billing.Commands.{Command, run, run_all, writes_of, run-Effect}
use microticket.Billing.Version.{creates, SameVersion}
use microticket.Billing.Interleaving.{NeverCreates, run_all-Since}

-- Of a finalized row only the payment, the cached PDF key and the time of the last update change.
abbrev pub OnlyPaid : Option Invoice → Option Invoice → Type 0
OnlyPaid (some w) (some w') =
    w'
    ≡ record w { updated_at = w'.updated_at; paid_date = w'.paid_date; pdf_s3_key = w'.pdf_s3_key }
OnlyPaid _ _ = ⊥

-- `OnlyPaid` from a finalized row.
abbrev KeepsFinal : Option Invoice → Option Invoice → Type 0
KeepsFinal o o' = any_finalized o ≡ true → OnlyPaid o o'

KeepsFinal-refl : (o : Option Invoice) → KeepsFinal o o
KeepsFinal-refl none h = cc
KeepsFinal-refl (some w) h = refl

still_final :
    (w w' : Invoice)
    → OnlyPaid (some w) (some w')
    → any_finalized (some w) ≡ true
    → any_finalized (some w') ≡ true
still_final w w' e f =
    let status : w'.status ≡ w.status = ap (λ (x : Invoice). x.status) e in rw status f

KeepsFinal-trans : (a b c : Option Invoice) → KeepsFinal a b → KeepsFinal b c → KeepsFinal a c
KeepsFinal-trans none b c h k f = cc
KeepsFinal-trans (some w) none c h k f = absurd (h f)
KeepsFinal-trans (some w) (some w') none h k f = absurd (k (still_final w w' (h f) f))
KeepsFinal-trans (some w) (some w') (some w'') h k f =
    k (still_final w w' (h f) f)
    ∙ ap
        (λ (x : Invoice). record x {
          updated_at = w''.updated_at;
          paid_date = w''.paid_date;
          pdf_s3_key = w''.pdf_s3_key;
        })
        (h f)

KeepsFinal-draft : (n : ℕ) (o o' : Option Invoice) → draft_at n o ≡ true → KeepsFinal o o'
KeepsFinal-draft n none o' d f = cc
KeepsFinal-draft n (some w) o' d f = ground arith

KeepsFinal-update :
    (k v : Text) (t : Tables) (o : Option Invoice)
    → KeepsFinal (t.invoice k) o
    → KeepsFinal (t.invoice v) (update t.invoice k o v)
KeepsFinal-update k v t o h = elim (Bool-cases (text_eq k v)) [
  | inl e ↦ let p : k ≡ v = (text_eq_iff k v).0 e in rw e (rw (← p) h)
  | inr e ↦ rw e (KeepsFinal-refl (t.invoice v))
]

KeepsFinal-paid :
    (d : Option Text) (now : ℕ) (o : Option Invoice) → KeepsFinal o (on_row (set_paid d now) o)
KeepsFinal-paid d now none f = cc
KeepsFinal-paid d now (some w) f = refl

KeepsFinal-pdf : (key : Text) (o : Option Invoice) → KeepsFinal o (on_row (set_pdf_key key) o)
KeepsFinal-pdf key none f = cc
KeepsFinal-pdf key (some w) f = refl

KeepsFinal-bump :
    (now : ℕ) (o : Option Invoice) → any_draft o ≡ true → KeepsFinal o (on_row (bump now) o)
KeepsFinal-bump now none d f = cc
KeepsFinal-bump now (some w) d f = ground arith

module _ (v : Text) (t : Tables) where
  -- One command on the row of `v`.
  writes-KeepsFinal :
      (c : Command)
      → creates v c ≡ false
      → all_hold t (writes_of c) ≡ true
      → KeepsFinal (t.invoice v) ((apply_all t (writes_of c)).invoice v)
  writes-KeepsFinal (Command.update_item id (some k) f now) n h =
      KeepsFinal-update k v t _
        (KeepsFinal-bump now (t.invoice k) (&&-true _ _ (&&-true _ _ h).1).0)
  writes-KeepsFinal (Command.create id now inst proj ids user) n h =
      rw (invoice-on_items, n) (KeepsFinal-refl (t.invoice v))
  writes-KeepsFinal (Command.add k p ids version now) n h =
      rw invoice-on_items
        (KeepsFinal-update k v t _ (KeepsFinal-draft version _ _ (&&-true _ _ h).0))
  writes-KeepsFinal (Command.remove k ids version now) n h =
      rw invoice-on_items
        (KeepsFinal-update k v t _ (KeepsFinal-draft version _ _ (&&-true _ _ h).0))
  writes-KeepsFinal (Command.delete k ids version) n h =
      rw invoice-on_items
        (KeepsFinal-update k v t _ (KeepsFinal-draft version _ _ (&&-true _ _ h).0))
  writes-KeepsFinal (Command.finalize k version f now) n h =
      KeepsFinal-update k v t _ (KeepsFinal-draft version _ _ (&&-true _ _ h).0)
  writes-KeepsFinal (Command.pay k d now) n h =
      KeepsFinal-update k v t _ (KeepsFinal-paid d now (t.invoice k))
  writes-KeepsFinal (Command.keep_pdf k key) n h =
      KeepsFinal-update k v t _ (KeepsFinal-pdf key (t.invoice k))
  writes-KeepsFinal (Command.create_item id now inst proj f user) n h =
      KeepsFinal-refl (t.invoice v)
  writes-KeepsFinal (Command.update_item id none f now) n h = KeepsFinal-refl (t.invoice v)
  writes-KeepsFinal (Command.delete_item id) n h = KeepsFinal-refl (t.invoice v)
  writes-KeepsFinal (Command.increment inst) n h = KeepsFinal-refl (t.invoice v)
  writes-KeepsFinal (Command.set_next inst m) n h = KeepsFinal-refl (t.invoice v)

run-KeepsFinal :
    (h : Handler) (v : Text) (c : Command) (t : Tables)
    → creates v c ≡ false
    → KeepsFinal (t.invoice v) ((run h c t).invoice v)
run-KeepsFinal h v c t n = made (run-Effect h c t)
  where
    made : Effect t (writes_of c) (run h c t) → KeepsFinal (t.invoice v) ((run h c t).invoice v)
    made (inl e) = rw e (KeepsFinal-refl (t.invoice v))
    made (inr (holds, e)) = rw e (writes-KeepsFinal v t c n holds)

run_all-KeepsFinal :
    (h : Handler) (v : Text) (cs : List Command) (t : Tables)
    → NeverCreates v cs
    → KeepsFinal (t.invoice v) ((run_all h cs t).invoice v)
unfolding run_all
run_all-KeepsFinal h v [] t n = KeepsFinal-refl (t.invoice v)
run_all-KeepsFinal h v (c ∷ cs) t (n, ns) =
    KeepsFinal-trans (t.invoice v) ((run h c t).invoice v) _ (run-KeepsFinal h v c t n)
      (run_all-KeepsFinal h v cs (run h c t) ns)

-- Whatever requests follow, if none creates an invoice under this id, a finalized invoice keeps
-- its row but for the payment, the cached PDF key and the time of its last update, and each item
-- on it keeps its content.
pub finalized_forever :
    (h : Handler) (v : Text) (cs : List Command) (t : Tables) (w : Invoice) (i : Text)
    (r : BillableItem)
    → NeverCreates v cs
    → t.invoice v ≡ some w
    → w.status ≡ finalized
    → t.billable_item i ≡ some r
    → r.invoice_id ≡ some v
    → (w' : Invoice) × ((run_all h cs t).invoice v ≡ some w')
      × (w' ≡ record w {
        updated_at = w'.updated_at;
        paid_date = w'.paid_date;
        pdf_s3_key = w'.pdf_s3_key;
      })
      × ((run_all h cs t).billable_item i ≡ some r)
finalized_forever h v cs t w i r n e st at on =
    let final : any_finalized (some w) ≡ true = rw st in
    kept ((run_all h cs t).invoice v) refl (rw e at (run_all-KeepsFinal h v cs t n) final)
  where
    kept :
        (o : Option Invoice)
        → (run_all h cs t).invoice v ≡ o
        → OnlyPaid (some w) o
        → (w' : Invoice) × ((run_all h cs t).invoice v ≡ some w')
          × (w' ≡ record w {
            updated_at = w'.updated_at;
            paid_date = w'.paid_date;
            pdf_s3_key = w'.pdf_s3_key;
          })
          × ((run_all h cs t).billable_item i ≡ some r)
    kept none e' p = absurd p
    kept (some w') e' p =
        let same : SameVersion (t.invoice v) ((run_all h cs t).invoice v) =
          rw (e, e') (ap (λ (x : Invoice). x.version) p) in
        (w', e', p, (run_all-Since h v cs t n).items same i r at on)
