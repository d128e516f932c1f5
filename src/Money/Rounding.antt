-- ===== src/Money/Rounding.antt =====
-- Rounding of line amounts and GST (api/src/invoicing/money.rs).
use microticket.Prelude.{ℕ, ◌+◌, ◌*◌, ◌/◌, ◌≤◌, ◌<◌, ◌≡◌, arith}
use microticket.Prelude.Int.{ℤ, pos, negsuc, abs, neg, InI64}
use microticket.Money.{line_amount_cents, gst_cents, max_quantity_hundredths, max_unit_price_cents}

-- `a` is `n / d` rounded to the nearest integer, halves up (`d` even).
abbrev pub IsRounded : ℕ → ℕ → ℕ → Type 0
IsRounded n d a = (d * a ≤ n + d / 2) × (n + d / 2 < d * a + d)

product_bound :
    (q p : ℕ)
    → q ≤ max_quantity_hundredths
    → p ≤ max_unit_price_cents
    → q * p ≤ 100_000_000_000_000_000
product_bound q p hq hp = grind arith

-- For a quantity and a price from 0 to their maximum, a line's amount is their product rounded
-- half up to the cent, never clamped, and at most 10^15.
pub line_amount_cents_rounds :
    (q p : ℕ)
    → q ≤ max_quantity_hundredths
    → p ≤ max_unit_price_cents
    → (a : ℕ) × (line_amount_cents (pos q) (pos p) ≡ pos a)
      × IsRounded (q * p) 100 a
      × (a ≤ 1_000_000_000_000_000)
unfolding line_amount_cents
line_amount_cents_rounds q p hq hp =
    let b = product_bound q p hq hp in
    ((q * p + 50) / 100, ground arith, (omega arith, omega arith), omega arith)

-- An amount with the sign of another.
abbrev pub signed_like : ℤ → ℕ → ℤ
signed_like (pos n) a = pos a
signed_like (negsuc n) a = neg a

-- GST of any `i64` subtotal is a tenth of it rounded half away from zero, with the subtotal's sign.
pub gst_cents_rounds :
    (s : ℤ) → InI64 s → (a : ℕ) × IsRounded (abs s) 10 a × (gst_cents s ≡ signed_like s a)
unfolding gst_cents
gst_cents_rounds (pos n) h = ((n + 5) / 10, (omega arith, omega arith), ground arith)
gst_cents_rounds (negsuc n) h = ((n + 1 + 5) / 10, (omega arith, omega arith), ground arith)
