-- ===== src/Mutations/Runs.antt =====
-- The steps of a program of api/src/graphql/mutations.rs that goes on.
use microticket.Prelude.{◌≡◌, ap, Result, ok, err}
use microticket.Mutations.{M, World, Failure, ◌>>=◌}

module _ {A B : Type 0} where
  abbrev continue : (A → M B) → Result Failure A × World → Result Failure B × World
  continue f (ok a, w) = f a w
  continue f (err e, w) = (err e, w)

  pub bind_run :
      (m : M A) (f : A → M B) (w : World) (a : A) (u : World)
      → m w ≡ (ok a, u)
      → (m >>= f) w ≡ f a u
  unfolding ◌>>=◌
  bind_run m f w a u e = by_result (m w) e
    where
      by_result :
          (r : Result Failure A × World)
          → r ≡ (ok a, u)
          → (let (b, w') = r in elim b [ ok c ↦ f c w' | err d ↦ (err d, w') ]) ≡ f a u
      by_result (ok c, v) e = ap (continue f) e
      by_result (err d, v) e = cc
