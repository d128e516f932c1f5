-- ===== src/Paging/Windows.antt =====
-- Windows of rows as pages (api/src/graphql/pagination.rs), given the rows that the database layer
-- fetches: one more than the page, from the far end in last mode.
use microticket.Prelude.{
  ℕ, zero, suc, ◌≤◌, Bool, true, false, ◌||◌, Option, none, some, List, [], ◌∷◌, ◌≡◌, ◌↔◌, refl,
  arith, ltb, length, take, length-take, take-length, drop, min, ◌++◌, length-reverse, reverse, map,
  if◌then◌else◌, ok, ok_injective, ap, inl, inr, Bool-cases, ◌∙◌, sym,
}
use mathlib.Core.List.{reverse-reverse, reverse-append}
use microticket.Prelude.Int.{ℤ, pos, negsuc}
use microticket.Paging.{PageError, pagination_args, in_page, build_connection}

module _ {T : Type 0} where
  take-take : (n : ℕ) (xs : List T) → take n (take (suc n) xs) ≡ take n xs
  take-take zero xs = refl
  take-take (suc n) [] = refl
  take-take (suc n) (x ∷ xs) = ap (λ l. x ∷ l) (take-take n xs)

  take-drop : (n : ℕ) (xs : List T) → xs ≡ take n xs ++ drop n xs
  take-drop zero xs = refl
  take-drop (suc n) [] = refl
  take-drop (suc n) (x ∷ xs) = ap (λ l. x ∷ l) (take-drop n xs)

  extra : (n : ℕ) (xs : List T) → ltb n (length (take (suc n) xs)) ≡ ltb n (length xs)
  extra n xs = ground (arith, length-take (suc n) xs)

  -- One row more is fetched, and cut off again.
  page_of :
      (n : ℕ) (xs : List T)
      → (if ltb n (length (take (suc n) xs)) then take n (take (suc n) xs) else take (suc n) xs)
        ≡ take n xs
  page_of n xs = elim (Bool-cases (ltb n (length xs))) [
    | inl e ↦ rw (extra n xs, e) (take-take n xs)
    | inr e ↦
        rw (extra n xs, e)
          (take-length (suc n) xs (ground arith) ∙ sym (take-length n xs (ground arith)))
  ]

  -- The first rows of the reverse are the last rows.
  last_rows :
      (n : ℕ) (xs : List T)
      → (before : List T) × (xs ≡ before ++ reverse (take n (reverse xs)))
        × (length (reverse (take n (reverse xs))) ≡ min n (length xs))
  last_rows n xs = (
    reverse (drop n (reverse xs)),
    sym (reverse-reverse xs)
        ∙ ap reverse (take-drop n (reverse xs))
        ∙ reverse-append (take n (reverse xs)) (drop n (reverse xs)),
    length-reverse (take n (reverse xs))
        ∙ length-take n (reverse xs)
        ∙ ap (min n) (length-reverse xs),
  )

module _ {T E : Type 0} where
  -- Of the rows behind the cursor a page forward has the first `page_size`, in their order, and says
  -- that there is a next page exactly if there are more. A page backward, whose rows are fetched from
  -- the end, has the last `page_size` (all, if there are fewer), in their order, and says that there
  -- is a previous page exactly if there are more or a cursor bounds it.
  pub build_connection_window :
      (rows : List T) (page_size : ℕ) (has_after has_before : Bool) (to_edge : T → E)
      → (build_connection (take (suc page_size) rows) page_size false has_after has_before to_edge
          ≡ record {
            has_previous_page = has_after;
            has_next_page = ltb page_size (length rows);
            edges = map to_edge (take page_size rows);
          })
        × ((before page : List T) × (rows ≡ before ++ page)
            × (length page ≡ min page_size (length rows))
            × (build_connection
                  (take (suc page_size) (reverse rows))
                  page_size
                  true
                  has_after
                  has_before
                  to_edge
                ≡ record {
                  has_previous_page = ltb page_size (length rows) || has_after;
                  has_next_page = has_before;
                  edges = map to_edge page;
                }))
  unfolding build_connection
  build_connection_window rows page_size has_after has_before to_edge =
      let (before, whole, size) = last_rows page_size rows in
      (
        rw page_of (rw extra refl),
        (
          before,
          reverse (take page_size (reverse rows)),
          whole,
          size,
          rw page_of (rw extra (rw length-reverse refl)),
        ),
      )

-- What may be asked for: not both; a size from 0 to the maximum, from the end if it is `last`; or
-- nothing, which is the default size from the start.
abbrev pub Asked : Option ℤ → Option ℤ → ℕ → ℕ → ℕ → Bool → Type 0
Asked (some v) (some w) default_size max_size n is_last = ⊥
Asked (some v) none default_size max_size n is_last =
    (v ≡ pos n) × (n ≤ max_size) × (is_last ≡ false)
Asked none (some v) default_size max_size n is_last =
    (v ≡ pos n) × (n ≤ max_size) × (is_last ≡ true)
Asked none none default_size max_size n is_last = (default_size ≡ n) × (is_last ≡ false)

in_page_iff :
    (v : ℤ) (max_size n : ℕ) (b is_last : Bool) (e e' : PageError)
    → (in_page v max_size b e e' ≡ ok (n, is_last)) ↔ ((v ≡ pos n) × (n ≤ max_size) × (is_last ≡ b))
in_page_iff (negsuc v) max_size n b is_last e e' = (λ h. cc, λ (a, _, _). cc)
in_page_iff (pos v) max_size n b is_last e e' = elim (Bool-cases (ltb max_size v)) [
  | inl over ↦ rw over (λ h. cc, λ (a, l, _). absurd (too_large (pos_same a) l over))
  | inr fits ↦ rw fits (
    λ h.
        let p = ok_injective h in
        (
          ap (λ (x : ℕ × Bool). pos x.0) p,
          bound (ap (λ (x : ℕ × Bool). x.0) p) fits,
          sym (ap (λ (x : ℕ × Bool). x.1) p),
        ),
    λ (a, l, c). rw (pos_same a, c) refl,
  )
]
  where
    pos_same : pos v ≡ pos n → v ≡ n
    pos_same h = cc

    too_large : v ≡ n → n ≤ max_size → ltb max_size v ≡ true → ⊥
    too_large h l o = ground arith

    bound : v ≡ n → ltb max_size v ≡ false → n ≤ max_size
    bound h o = ground arith

-- The arguments are accepted, with a size and a direction, exactly if they ask for them.
pub pagination_args_iff :
    (first last : Option ℤ) (default_size max_size n : ℕ) (is_last : Bool)
    → (pagination_args first last default_size max_size ≡ ok (n, is_last))
      ↔ Asked first last default_size max_size n is_last
unfolding pagination_args
pagination_args_iff (some v) (some w) default_size max_size n is_last = (λ h. cc, λ a. absurd a)
pagination_args_iff (some v) none default_size max_size n is_last =
    in_page_iff v max_size n false is_last _ _
pagination_args_iff none (some v) default_size max_size n is_last =
    in_page_iff v max_size n true is_last _ _
pagination_args_iff none none default_size max_size n is_last = (
  λ h. let p = ok_injective h in (ap (λ (x : ℕ × Bool). x.0) p, sym (ap (λ (x : ℕ × Bool). x.1) p)),
  λ (a, c). rw (a, c) refl,
)
