-- ===== src/Mutations/Steady.antt =====
-- The parts that the mutations of drafts share (api/src/graphql/mutations.rs).
use microticket.Prelude.{
  ℕ, ◌≤◌, Text, Bool, true, false, not, Option, some, List, ◌≡◌, refl, ap, sym, subst, ◌∙◌, inl,
  inr, arith, All, ok,
}
use microticket.Db.{Invoice}
use microticket.Dynamo.{Tables, Op}
use microticket.Billing.Version.{Since-refl}
use microticket.Billing.Keyed.{IsKeyed, run_all-IsKeyed, InvoiceHasId}
use microticket.Mutations.{
  Server, AuthInfo, World, Failure, pass, first_batch, call, fail_if, pure, ◌>>=◌,
}
use microticket.Mutations.Logic.{Ends, pure-Ends, bind-Ends, call-Ends, fail_if-Ends, IsMember}
use microticket.Mutations.Batches.{Quiet, first-Quiet, world_eq, not-false, not-true}
use microticket.Mutations.Commits.{Idle, SameDraft, IsStoredOn}
use microticket.Mutations.Traces.{Reached, Fails, begun, waited}

-- The answer of an edit and what is stored: `v` is what the items named point at.
pub record IsEdited (caller : AuthInfo) (id : Text) (v : Option Text) (ids : List Text)
    (answer : Invoice) (u : World) : Type 0 where
  pub row : Invoice
  pub stored : u.tables.invoice id ≡ some row
  pub answers : SameDraft answer row
  pub member : IsMember caller answer.instance_id
  pub items : All (IsStoredOn u.tables v) ids

module _ (s : Server) (caller : AuthInfo) (id : Text) (w : World) (keyed : IsKeyed w.tables)
    (quiet : Quiet id w.later) where
  abbrev w1 : World
  w1 = pass s.handler w

  abbrev E : Failure → World → Type 0
  E = Fails s.handler w 0

  abbrev I : World → Type 0
  I = Idle s.handler id w w1.tables

  pub begin : I w1
  begin = record {
    since = Since-refl id w1.tables;
    quiet = (first-Quiet id w.later quiet).1;
    reached = waited begun;
  }

  pub left : (u : World) → I u → (j : ℕ) × (j ≤ 0) × Reached s.handler w j u
  left u i = (0, omega arith, i.reached)

  -- A conditional write, an error if it is refused, and the answer.
  pub commit-Ends :
      {A : Type 0} (Q : A → World → Type 0) (op : Op Bool) (e : Failure) (answer : A) (u : World)
      → ((t : Tables) → (op t).0 ≡ ok false → (op t).1 ≡ t)
      → I (pass s.handler u)
      → ((x : World)
          → (op (pass s.handler u).tables).0 ≡ ok true
          → x.tables ≡ (op (pass s.handler u).tables).1
          → Q answer x)
      → Ends Q E ((call s.handler op >>= λ c. (fail_if (not c) e >>= λ _. pure answer)) u)
  commit-Ends Q op e answer u refused i k =
      bind-Ends E _ _ _ u _ (call-Ends E s.handler u op (λ f _. inl refl))
        (λ c x (done, made, later).
          bind-Ends E _ _ _ x _
            (fail_if-Ends E _ _ x (λ no.
              let none_made = made ∙ refused _ (done ∙ ap ok (not-true c no)) in
              inr (left x (subst I (sym (world_eq x (pass s.handler u) none_made later)) i))))
            (λ _ y (same, is).
              pure-Ends E _ _ y (rw same (k x (done ∙ ap ok (not-false c is)) made))))

  pub own_id : (invoice : Invoice) → w1.tables.invoice id ≡ some invoice → invoice.id ≡ id
  own_id invoice at =
      let all = run_all-IsKeyed s.handler (first_batch w.later) w.tables keyed in
      subst (InvoiceHasId id) at (all.invoices id)
