-- ===== src/Mutations/Batches.antt =====
-- The requests of other clients between the calls of a mutation (api/src/graphql/mutations.rs).
use microticket.Prelude.{
  Text, Bool, true, false, not, List, [], ◌∷◌, ◌++◌, ◌≡◌, refl, ap, sym, ◌∙◌, All,
}
use microticket.Dynamo.{Tables, Handler}
use microticket.Billing.Commands.{Command, run, run_all}
use microticket.Billing.Numbers.{increment_invoice_counter}
use microticket.Billing.Version.{Since, Since-refl, Since-trans}
use microticket.Billing.Interleaving.{NeverCreates, run_all-Since}
use microticket.Mutations.Traces.{Waits, at_once, then_others}
use microticket.Mutations.{World, first_batch, rest_of}

pub run_all-append :
    (h : Handler) (cs ds : List Command) (t : Tables)
    → run_all h (cs ++ ds) t ≡ run_all h ds (run_all h cs t)
unfolding run_all
run_all-append h [] ds t = refl
run_all-append h (c ∷ cs) ds t = run_all-append h cs ds (run h c t)

-- None of the requests still to come creates an invoice under the id.
abbrev pub Quiet : Text → List (List Command) → Type 0
Quiet v = All (NeverCreates v)

pub first-Quiet :
    (v : Text) (later : List (List Command))
    → Quiet v later
    → NeverCreates v (first_batch later) × Quiet v (rest_of later)
first-Quiet v [] q = (tt, tt)
first-Quiet v (cs ∷ rest) q = q

-- What others do alone keeps or bumps the version of an invoice that they do not create.
pub Waits-Since :
    (h : Handler) (v : Text) (w u : World)
    → Quiet v w.later
    → Waits h w u
    → Since v w.tables u.tables × Quiet v u.later
Waits-Since h v w _ q at_once = (Since-refl v w.tables, q)
Waits-Since h v w _ q (then_others {u} a) =
    let (since, q') = Waits-Since h v w u q a in
    let (n, q'') = first-Quiet v u.later q' in
    (
      Since-trans v w.tables u.tables _ since (run_all-Since h v (first_batch u.later) u.tables n),
      q'',
    )

pub world_eq : (u v : World) → u.tables ≡ v.tables → u.later ≡ v.later → u ≡ v
world_eq u v e f = cc

pub not-false : (b : Bool) → not b ≡ false → b ≡ true
not-false true e = refl
not-false false e = cc

pub not-true : (b : Bool) → not b ≡ true → b ≡ false
not-true true e = cc
not-true false e = refl

run-increment :
    (h : Handler) (i : Text) (t : Tables)
    → run h (Command.increment i) t ≡ (increment_invoice_counter h i t).1
unfolding run
run-increment h i t = refl

-- Two batches with an increment between them, as one list of requests.
pub between_lem :
    (h : Handler) (cs ds : List Command) (i : Text) (t : Tables)
    → run_all h ds (increment_invoice_counter h i (run_all h cs t)).1
      ≡ run_all h (cs ++ Command.increment i ∷ ds) t
unfolding run_all
between_lem h cs ds i t =
    ap (run_all h ds) (sym (run-increment h i (run_all h cs t)))
    ∙ sym (run_all-append h cs (Command.increment i ∷ ds) t)
