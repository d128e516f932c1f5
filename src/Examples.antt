-- ===== src/Examples.antt =====
-- Runs of the modelled code on concrete data: a service that commits exactly if every condition holds,
-- and the tables of one small instance.
pub mod Invoices
pub mod Amounts
pub mod Messages
pub mod Mailbox
pub mod Requests
pub mod Edits
pub mod Desk
pub mod Tokens
use microticket.Prelude.{
  ℕ, Text, Bool, true, false, Option, none, some, List, [], ◌∷◌, ◌≡◌, refl, sym, ◌∙◌, ap, arith,
  inl, inr, ◌⊎◌, Bool-cases, text_eq, if◌then◌else◌, codes,
}
use microticket.Prelude.Int.{ℤ, pos}
use microticket.Db.{Invoice, BillableItem, ItemFields, draft, Instance, Project, invoicing}
use microticket.Dynamo.{
  Tables, Write, Answer, committed, refused, failed, Dynamo, Handler, all_hold, apply_all,
}
use microticket.Billing.{Frozen, new_invoice, new_item, set_invoice_id}

abbrev pub submit_now : Tables → List Write → Answer × Tables
submit_now t ws = if all_hold t ws then (committed, apply_all t ws) else (refused, t)

-- What the two answers say, by the test that chose them.
pub committed_now :
    (b : Bool) (s t t' : Tables)
    → ◌≡◌ {A = Answer × Tables} (if b then (committed, s) else (refused, t)) (committed, t')
    → (b ≡ true) × (t' ≡ s)
committed_now true s t t' e = (refl, sym (ap (λ (x : Answer × Tables). x.1) e))
committed_now false s t t' e = cc

pub refused_now :
    (b : Bool) (s t t' : Tables)
    → ◌≡◌ {A = Answer × Tables} (if b then (committed, s) else (refused, t)) (refused, t')
    → t' ≡ t
refused_now true s t t' e = cc
refused_now false s t t' e = sym (ap (λ (x : Answer × Tables). x.1) e)

pub never_failed :
    (b : Bool) (s t t' : Tables) (m : Text)
    → ◌≡◌ {A = Answer × Tables} (if b then (committed, s) else (refused, t)) (failed m, t')
    → ⊥
never_failed true s t t' m e = cc
never_failed false s t t' m e = cc

abbrev pub service : Dynamo
service = record {
  submit = submit_now;
  read_fault = λ t k. none;
  committed_means = λ t ws t' e. committed_now (all_hold t ws) (apply_all t ws) t t' e;
  refused_means = λ t ws t' e. refused_now (all_hold t ws) (apply_all t ws) t t' e;
  failed_means = λ t ws m t' e. absurd (never_failed (all_hold t ws) (apply_all t ws) t t' m e);
}

abbrev pub handler : Handler
handler = record { service = service; read_only = false }

abbrev pub inv : Text
inv = codes "inv1"

abbrev pub plumbing : ItemFields
plumbing = record {
  date = codes "2026-08-01";
  description = codes "Plumbing";
  quantity_hundredths = pos 150;
  unit_price_cents = pos 9_999;
}

abbrev pub tiling : ItemFields
tiling = record {
  date = codes "2026-07-30";
  description = codes "Tiling";
  quantity_hundredths = pos 800;
  unit_price_cents = pos 12_000;
}

abbrev pub free_item : Text → ItemFields → BillableItem
free_item id f = new_item id 10 (codes "i") (codes "p") f (codes "u")

abbrev pub row : Invoice
row = new_invoice inv 20 (codes "i") (codes "p") (codes "a" ∷ codes "b" ∷ []) (codes "u")

-- Items a and b on the invoice, c on none, and the number 7 given out last.
abbrev pub start : Tables
start = record {
  invoice = λ k. if text_eq k inv then some row else none;
  billable_item = λ k.
      if text_eq k (codes "a")
      then some (set_invoice_id (some inv) (free_item (codes "a") plumbing))
      else if text_eq k (codes "b")
      then some (set_invoice_id (some inv) (free_item (codes "b") tiling))
      else if text_eq k (codes "c")
      then some (free_item (codes "c") plumbing)
      else none;
  next_invoice_number = λ k. if text_eq k (codes "i") then some 7 else none;
}

abbrev pub frozen : Frozen
frozen = record {
  number = 8;
  issue_date = codes "2026-08-02";
  snapshot = codes "{}";
  total_cents = pos 111_000;
  finalized_by_user_id = codes "u";
}
