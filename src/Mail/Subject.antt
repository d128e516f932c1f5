-- ===== src/Mail/Subject.antt =====
-- Subject tags (api/src/outbound.rs `tag_subject`, `parse_subject_tag`).
use microticket.Prelude.{
  ℕ, ◌≤◌, Text, none, some, [], ◌∷◌, ◌++◌, ◌≡◌, ◌≢◌, refl, arith, All, All-append, All-map, Lacks,
  inl, inr, split_once, split_once-append, Option-cases, ap, ◌∙◌, sym, append_assoc,
}
use microticket.Decimal.{to_decimal, parse_unsigned, parse_nonempty, u64_max}
use microticket.Decimal.RoundTrip.{IsDigit, to_decimal-digits, parse-to_decimal}
use microticket.Mail.{
  rsplit_once, ticket_subject_tag, parse_subject_tag, tag_subject, slug_and_number, tag_before,
  keep_or_tag, or_next,
}

rsplit_once-none : (c : ℕ) (s : Text) → Lacks c s → rsplit_once c s ≡ none
unfolding rsplit_once
rsplit_once-none c [] h = refl
rsplit_once-none c (x ∷ s) (hx, hs) = rw (rsplit_once-none c s hs) (ground arith)

rsplit_once-append : (c : ℕ) (a b : Text) → Lacks c b → rsplit_once c (a ++ c ∷ b) ≡ some (a, b)
unfolding rsplit_once
rsplit_once-append c [] b h = rw (rsplit_once-none c b h) (ground arith)
rsplit_once-append c (x ∷ a) b h = rw (rsplit_once-append c a b h) refl

-- A digit is no sign.
parse_unsigned-digits :
    (max : ℕ) (s : Text) → All IsDigit s → parse_unsigned max s ≡ parse_nonempty max s
unfolding parse_unsigned parse_nonempty
parse_unsigned-digits max [] h = refl
parse_unsigned-digits max (c ∷ s) (hc, hs) = ground arith

parse_unsigned-to_decimal : (n : ℕ) → n ≤ u64_max → parse_unsigned u64_max (to_decimal n) ≡ some n
parse_unsigned-to_decimal n h =
    parse_unsigned-digits u64_max (to_decimal n) (to_decimal-digits n)
    ∙ parse-to_decimal u64_max n h

-- The tag's number has no `-` and no `]`.
Lacks-mark : (c n : ℕ) → ((x : ℕ) → IsDigit x → x ≢ c) → Lacks c (to_decimal n)
Lacks-mark c n h = All-map h (to_decimal n) (to_decimal-digits n)

opened :
    (s : Text) (x : Text × ℕ)
    → tag_before (split_once b']' s) ≡ some x
    → parse_subject_tag (b'[' ∷ b'#' ∷ s) ≡ some x
unfolding parse_subject_tag
opened s x h = rw h refl

parse_subject_tag-ticket_subject_tag :
    (slug rest : Text) (n : ℕ)
    → slug ≢ []
    → Lacks b']' slug
    → n ≤ u64_max
    → parse_subject_tag (ticket_subject_tag slug n ++ rest) ≡ some (slug, n)
unfolding slug_and_number tag_before ticket_subject_tag
parse_subject_tag-ticket_subject_tag slug rest n ne h b =
    let tag = slug ++ b'-' ∷ to_decimal n in
    let lacks : Lacks b']' tag =
      All-append _ slug _ h ((λ e. cc), Lacks-mark b']' n (λ x d e. ground arith)) in
    let closed : split_once b']' (tag ++ b']' ∷ rest) ≡ some (tag, rest) =
      split_once-append b']' tag rest lacks in
    let dash : rsplit_once b'-' tag ≡ some (slug, to_decimal n) =
      rsplit_once-append b'-' slug _ (Lacks-mark b'-' n (λ x d e. ground arith)) in
    let number = parse_unsigned-to_decimal n b in
    let shape : (slug ++ b'-' ∷ (to_decimal n ++ b']' ∷ [])) ++ rest ≡ tag ++ b']' ∷ rest =
      append_assoc slug (b'-' ∷ (to_decimal n ++ b']' ∷ [])) rest
      ∙ ap (λ z. slug ++ b'-' ∷ z) (append_assoc (to_decimal n) (b']' ∷ []) rest)
      ∙ sym (append_assoc slug (b'-' ∷ to_decimal n) (b']' ∷ rest)) in
    ap (λ z. parse_subject_tag (b'[' ∷ b'#' ∷ z)) shape
    ∙ opened (tag ++ b']' ∷ rest) (slug, n)
        (ap tag_before closed ∙ ap slug_and_number dash ∙ read slug (to_decimal n) ne number)
  where
    read :
        (a d : Text)
        → a ≢ []
        → parse_unsigned u64_max d ≡ some n
        → slug_and_number (some (a, d)) ≡ some (a, n)
    read [] d e h' = absurd (e refl)
    read (c ∷ a) d e h' = rw h' refl

tagged_now :
    (slug subject : Text) (n : ℕ)
    → parse_subject_tag subject ≡ none
    → tag_subject slug n subject ≡ ticket_subject_tag slug n ++ b' ' ∷ subject
unfolding tag_subject
tagged_now slug subject n e = ap (keep_or_tag slug n subject) e

tagged_already :
    (slug subject : Text) (n : ℕ) (t : Text × ℕ)
    → parse_subject_tag subject ≡ some t
    → tag_subject slug n subject ≡ subject
unfolding tag_subject
tagged_already slug subject n t e = ap (keep_or_tag slug n subject) e

-- A tagged subject is read back as the tag that the subject carried, or else as the ticket's slug and
-- number, and tagging twice is tagging once. The slug is not empty and has no `]`, and the number is a
-- `u64`.
pub tag_subject_reads_back :
    (slug subject : Text) (n : ℕ)
    → slug ≢ []
    → Lacks b']' slug
    → n ≤ u64_max
    → (parse_subject_tag (tag_subject slug n subject)
        ≡ or_next (parse_subject_tag subject) (some (slug, n)))
      × (tag_subject slug n (tag_subject slug n subject) ≡ tag_subject slug n subject)
tag_subject_reads_back slug subject n ne h b = elim (Option-cases (parse_subject_tag subject)) [
  | inl e ↦
      let now = tagged_now slug subject n e in
      let again : parse_subject_tag (tag_subject slug n subject) ≡ some (slug, n) =
        ap parse_subject_tag now
        ∙ parse_subject_tag-ticket_subject_tag slug (b' ' ∷ subject) n ne h b in
      (again ∙ sym (ap (λ o. or_next o (some (slug, n))) e), tagged_already slug _ n _ again)
  | inr (t, e) ↦
      let same = tagged_already slug subject n t e in
      (
        ap parse_subject_tag same ∙ e ∙ sym (ap (λ o. or_next o (some (slug, n))) e),
        ap (tag_subject slug n) same,
      )
]
