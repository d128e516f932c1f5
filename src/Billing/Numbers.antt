-- ===== src/Billing/Numbers.antt =====
-- The per-instance counter of invoice numbers (api/src/dynamodb.rs, `increment_invoice_counter`,
-- `get_invoice_counter`, `set_next_invoice_number`).
use microticket.Prelude.{
  ℕ, ◌+◌, Text, Bool, true, false, Option, none, some, [], ◌∷◌, leb, ltb, if◌then◌else◌, Result, ok,
  err, codes,
}
use microticket.Decimal.{u64_max}
use microticket.Db.{Error, infrastructure}
use microticket.Dynamo.{Tables, on_counter, Handler, Op, transact_write}

abbrev pub or_zero : Option ℕ → ℕ
or_zero none = 0
or_zero (some n) = n

-- The attribute that the update returns, read as a `u64`.
abbrev pub returned : Option ℕ → Result Error ℕ
returned none = err (infrastructure (codes "counter update missing next_invoice_number"))
returned (some n) =
    if ltb u64_max n
    then err (infrastructure (codes "counter update missing next_invoice_number"))
    else ok n

abbrev pub counter_value : Text → Result Error Bool × Tables → Result Error ℕ × Tables
counter_value instance_id (ok true, t) = (returned (t.next_invoice_number instance_id), t)
counter_value instance_id (ok false, t) =
    (err (infrastructure (codes "conditional check failed")), t)
counter_value instance_id (err e, t) = (err e, t)

unfoldable pub increment_invoice_counter : Handler → Text → Op ℕ
increment_invoice_counter h instance_id t =
    counter_value instance_id
      (transact_write h (on_counter instance_id (λ _. true) (λ c. some (or_zero c + 1)) ∷ []) t)

-- A number that is no `u64` reads as none.
abbrev pub readable : Option ℕ → ℕ
readable none = 0
readable (some n) = if ltb u64_max n then 0 else n

pub get_invoice_counter : Handler → Text → Op ℕ
get_invoice_counter h instance_id t = elim (h.service.read_fault t instance_id) [
  | some e ↦ (err (infrastructure e), t)
  | none ↦ (ok (readable (t.next_invoice_number instance_id)), t)
]

-- Forward only.
unfoldable pub set_next_invoice_number : Handler → Text → ℕ → Op Bool
set_next_invoice_number h instance_id new_value =
    transact_write h
      (on_counter instance_id (λ c. leb (or_zero c) new_value) (λ _. some new_value) ∷ [])
