-- ===== src/Examples/Mailbox.antt =====
-- The theorems on inbound mail (api/src/inbound), applied.
use microticket.Prelude.{
  ℕ, zero, suc, Text, Bool, true, false, Option, none, some, List, [], ◌∷◌, ◌≡◌, ◌↔◌, ◌⊎◌, refl,
  arith, All, codes, Lacks, subst, ok, Result, text_eq, text_eq_iff, if◌then◌else◌, ok_injective,
  sym, ap, ◌∙◌,
}
use microticket.Decimal.{to_decimal}
use microticket.Db.{Error, at_most_one}
use microticket.Tickets.{TicketStatus, composite}
use microticket.Inbound.{
  Ticket, ResolutionPlan, TicketReads, constant_time_eq, resolve_ticket,
  get_ticket_id_by_instance_number,
}
use microticket.Inbound.Tokens.{IsByte, constant_time_eq_iff}
use microticket.Inbound.Tenancy.{ByTag, ByMessage, ByNumber, resolve_ticket_sound}

constant_time_eq_iff_example :
    (constant_time_eq (codes "ab") (codes "ac") ≡ true) ↔ (codes "ab" ≡ codes "ac")
constant_time_eq_iff_example =
    constant_time_eq_iff (codes "ab") (codes "ac") (omega arith, (omega arith, tt))
      (omega arith, (omega arith, tt))

-- An encoding of any text in bytes: each code point as so many ones, and a zero.
abbrev ones : ℕ → List ℕ → List ℕ
ones zero rest = 0 ∷ rest
ones (suc n) rest = 1 ∷ ones n rest

abbrev unary : Text → List ℕ
unary [] = []
unary (c ∷ s) = ones c (unary s)

ones-IsByte : (n : ℕ) (rest : List ℕ) → All IsByte rest → All IsByte (ones n rest)
ones-IsByte zero rest h = (omega arith, h)
ones-IsByte (suc n) rest h = (omega arith, ones-IsByte n rest h)

unary-IsByte : (s : Text) → All IsByte (unary s)
unary-IsByte [] = tt
unary-IsByte (c ∷ s) = ones-IsByte c (unary s) (unary-IsByte s)

ones_injective : (m n : ℕ) (r s : List ℕ) → ones m r ≡ ones n s → (m ≡ n) × (r ≡ s)
ones_injective zero zero r s e = (refl, cc)
ones_injective zero (suc n) r s e = cc
ones_injective (suc m) zero r s e = cc
ones_injective (suc m) (suc n) r s e = let (a, b) = ones_injective m n r s cc in (omega arith, b)

ones_not_nil : (n : ℕ) (r : List ℕ) → ones n r ≡ [] → ⊥
ones_not_nil zero r e = cc
ones_not_nil (suc n) r e = cc

unary_injective : (s t : Text) → unary s ≡ unary t → s ≡ t
unary_injective [] [] e = refl
unary_injective [] (d ∷ t) e = absurd (ones_not_nil d (unary t) (sym e))
unary_injective (c ∷ s) [] e = absurd (ones_not_nil c (unary s) e)
unary_injective (c ∷ s) (d ∷ t) e =
    let (a, b) = ones_injective c d (unary s) (unary t) e in
    let rest = unary_injective s t b in rw (a, rest) refl

abbrev ticket : Ticket
ticket = record {
  id = codes "T";
  instance_id = codes "i";
  number = 1;
  subject = codes "Hi";
  status = TicketStatus.closed;
  requester_emails = [];
  cc_emails = [];
  assignee_user_id = none;
  reply_token = 2 ∷ 1 ∷ [];
  created_at = 0;
  updated_at = 0;
  last_activity_at = 0;
  has_attachments = false;
}

abbrev one_ticket : Text → Result Error (Option Ticket)
one_ticket id = if text_eq (codes "T") id then ok (some ticket) else ok none

read_one :
    (b : Bool) (id : Text) (t : Ticket)
    → text_eq (codes "T") id ≡ b
    → ◌≡◌ {A = Result Error (Option Ticket)} (if b then ok (some ticket) else ok none) (ok (some t))
    → t.id ≡ id
read_one true id t same e =
    ap (λ (x : Ticket). x.id) (sym (same_ticket (ok_injective e)))
    ∙ (text_eq_iff (codes "T") id).0 same
  where
    same_ticket : some ticket ≡ some t → ticket ≡ t
    same_ticket h = cc
read_one false id t same e = cc

abbrev no_message : Text → Result Error (Option Text)
no_message mid = ok none

-- The index has the one ticket under its number.
abbrev query_number : Text → Result Error (List Text)
query_number key = if text_eq (codes "i#1") key then ok (codes "T" ∷ []) else ok []

under_key :
    (b : Bool) (key : Text) (ids : List Text)
    → text_eq (codes "i#1") key ≡ b
    → ◌≡◌ {A = Result Error (List Text)} (if b then ok (codes "T" ∷ []) else ok []) (ok ids)
    → All (λ id. codes "i#1" ≡ key) ids
under_key true key ids same e = rw (← (ok_injective e)) ((text_eq_iff (codes "i#1") key).0 same, tt)
under_key false key ids same e = rw (← (ok_injective e)) tt

abbrev reads : TicketReads
reads = record {
  get_ticket = one_ticket;
  get_ticket_id_by_rfc_message_id = no_message;
  query_number = query_number;
  instance_number = λ id. codes "i#1";
  read_under_id = λ id t e. read_one (text_eq (codes "T") id) id t refl e;
  under_key = λ key ids e. under_key (text_eq (codes "i#1") key) key ids refl e;
}

abbrev HasKey : Ticket → Type 0
HasKey t = (codes "i#1" ≡ composite t.instance_id (to_decimal t.number)) × Lacks b'#' t.instance_id

decimal_one : to_decimal 1 ≡ codes "1"
unfolding to_decimal
decimal_one = refl

ticket-HasKey : HasKey ticket
ticket-HasKey = (ap (composite (codes "i")) (sym decimal_one), ((λ q. omega arith), tt))

is_indexed :
    (b : Bool) (t : Ticket)
    → ◌≡◌ {A = Result Error (Option Ticket)} (if b then ok (some ticket) else ok none) (ok (some t))
    → HasKey t
is_indexed true t e = subst HasKey (same_ticket (ok_injective e)) ticket-HasKey
  where
    same_ticket : some ticket ≡ some t → ticket ≡ t
    same_ticket h = cc
is_indexed false t e = cc

-- No tag has the token of the ticket, and its number is in the subject.
abbrev plan : ResolutionPlan
plan = record {
  reply_tags = record { ticket_id = codes "T"; reply_token = 3 ∷ [] } ∷ [];
  message_ids = codes "<m>" ∷ [];
  subject_number = some 1;
}

resolve_ticket_sound_example :
    (codes "i" ≡ codes "i")
    × (ByTag unary unary-IsByte unary_injective reads
          (codes "i")
          ticket
          (λ id t e. is_indexed (text_eq (codes "T") id) t e)
          ((λ q. omega arith), tt)
          plan.reply_tags
        ⊎ (ByMessage unary unary-IsByte unary_injective reads
              (codes "i")
              ticket
              (λ id t e. is_indexed (text_eq (codes "T") id) t e)
              ((λ q. omega arith), tt)
              plan.message_ids
            ⊎ ByNumber unary unary-IsByte unary_injective reads
                (codes "i")
                ticket
                (λ id t e. is_indexed (text_eq (codes "T") id) t e)
                ((λ q. omega arith), tt)
                plan.subject_number))
unfolding resolve_ticket get_ticket_id_by_instance_number to_decimal at_most_one
resolve_ticket_sound_example =
    resolve_ticket_sound unary unary-IsByte unary_injective reads (codes "i") ticket
      (λ id t e. is_indexed (text_eq (codes "T") id) t e) ((λ q. omega arith), tt) plan refl
