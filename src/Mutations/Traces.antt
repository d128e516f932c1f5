-- ===== src/Mutations/Traces.antt =====
-- What a mutation of api/src/graphql/mutations.rs that fails can have left behind.
use microticket.Prelude.{ℕ, ◌+◌, ◌≤◌, Text, ◌≡◌, ◌⊎◌}
use microticket.Dynamo.{Handler}
use microticket.Billing.Numbers.{increment_invoice_counter}
use microticket.Mutations.{World, pass, Failure, classify, internal}

-- From `w` only other clients' requests were run, and `k` invoice numbers were given out.
pub data Reached (h : Handler) (w : World) : ℕ → World → Type 0 where
  begun : Reached h w 0 w
  waited : {k : ℕ} {u : World} → Reached h w k u → Reached h w k (pass h u)
  counted :
      {k : ℕ} {u : World} (instance_id : Text)
      → Reached h w k u
      → Reached h w (k + 1) (record {
        tables = (increment_invoice_counter h instance_id (pass h u).tables).1;
        later = (pass h u).later;
      })

-- From `w` only other clients' requests were run.
pub data Waits (h : Handler) (w : World) : World → Type 0 where
  at_once : Waits h w w
  then_others : {u : World} → Waits h w u → Waits h w (pass h u)

pub Waits-Reached :
    {h : Handler} {w u v : World} {k : ℕ} → Reached h w k u → Waits h u v → Reached h w k v
Waits-Reached r at_once = r
Waits-Reached r (then_others b) = waited (Waits-Reached r b)

-- An error with another code than `INTERNAL` leaves what the others did, and `k` numbers at most.
abbrev pub Fails : Handler → World → ℕ → Failure → World → Type 0
Fails h w k e u = (classify e ≡ internal) ⊎ ((j : ℕ) × (j ≤ k) × Reached h w j u)
