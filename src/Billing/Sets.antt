-- ===== src/Billing/Sets.antt =====
-- String sets of ids as lists: what membership says of `ADD` and `DELETE`.
use microticket.Prelude.{
  Text, Bool, not, ◌&&◌, ◌||◌, List, [], ◌∷◌, ◌++◌, ◌≡◌, refl, arith, text_eq_iff, filter,
}
use microticket.Dynamo.{mem}
use microticket.Billing.{set_add, set_delete}

mem-append : (j : Text) (a b : List Text) → mem j (a ++ b) ≡ (mem j a || mem j b)
mem-append j [] b = refl
mem-append j (i ∷ a) b = ground (arith, mem-append j a b)

mem-filter : (j : Text) (p : Text → Bool) (a : List Text) → mem j (filter p a) ≡ (mem j a && p j)
mem-filter j p [] = refl
mem-filter j p (i ∷ a) = ground (arith, mem-filter j p a, text_eq_iff i j)

pub mem-set_add : (j : Text) (a b : List Text) → mem j (set_add a b) ≡ (mem j a || mem j b)
mem-set_add j a b =
    ground
      (arith, mem-append j a (filter (λ i. not (mem i a)) b), mem-filter j (λ i. not (mem i a)) b)

pub mem-set_delete :
    (j : Text) (a b : List Text) → mem j (set_delete a b) ≡ (mem j a && not (mem j b))
mem-set_delete j a b = mem-filter j (λ i. not (mem i b)) a
