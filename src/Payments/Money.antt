-- ===== src/Payments/Money.antt =====
-- `Decimal` values and `to_money` of backend/app/services/payments.py. Stored money is a number of
-- cents, on which `to_money` does nothing.
use project_lifecycle_manage.Base.{
  ℕ, suc, ◌+◌, ◌-◌, ◌*◌, ◌/◌, ◌%◌, ◌^◌, ◌==◌, ltb, leb, ℤ, pos, negsuc, neg, if◌then◌else◌,
}

-- mantissa * 10 ^ -scale
pub record Decimal : Type 0 where
  pub mantissa : ℤ
  pub scale : ℕ

-- n / d, to the nearest, ties to even: the ROUND_HALF_EVEN of `Decimal.quantize`.
unfoldable pub round_half_even : ℕ → ℕ → ℕ
round_half_even n d =
    let q = n / d in
    let twice = n % d + n % d in
    if ltb twice d then q else if ltb d twice then q + 1 else if q % 2 == 0 then q else q + 1

-- A magnitude in cents.
unfoldable pub to_cents : ℕ → ℕ → ℕ
to_cents m scale =
    if leb scale 2 then m * 10 ^ (2 - scale) else round_half_even m (10 ^ (scale - 2))

unfoldable pub to_money : Decimal → ℤ
to_money d = elim d.mantissa [
  | pos n ↦ pos (to_cents n d.scale)
  | negsuc n ↦ neg (pos (to_cents (suc n) d.scale))
]
