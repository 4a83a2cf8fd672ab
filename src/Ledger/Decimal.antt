-- ===== src/Ledger/Decimal.antt =====
-- `to_decimal` of marketplace/core/utils.py: a Decimal with any number of places is quantized to six
-- places, half away from zero. A quantized amount is the integer number of micro-dollars.
use agentchains.Base.{ℕ, ◌+◌, ◌-◌, ◌/◌, ◌^◌, suc, leb, if◌then◌else◌}
use agentchains.Base.Int.{ℤ, pos, negsuc, ◌-ℤ◌, ◌*ℤ◌}

-- coeff * 10 ^ -places
pub record Decimal : Type 0 where
  pub coeff : ℤ
  pub places : ℕ

abbrev pub half_up : ℕ → ℕ → ℕ
half_up n d = (n + d / 2) / d

abbrev pub round_half_up : ℤ → ℕ → ℤ
round_half_up (pos n) d = pos (half_up n d)
round_half_up (negsuc n) d = pos 0 -ℤ pos (half_up (suc n) d)

unfoldable pub to_decimal : Decimal → ℤ
unfolding ◌*ℤ◌ ◌-ℤ◌
to_decimal x =
    if leb x.places 6
    then x.coeff *ℤ pos (10 ^ (6 - x.places))
    else round_half_up x.coeff (10 ^ (x.places - 6))

-- The product of two quantized amounts has twelve places.
abbrev pub times : ℤ → ℤ → Decimal
times a b = record { coeff = a *ℤ b; places = 12 }

-- A quantized amount as a Decimal.
abbrev pub micros : ℤ → Decimal
micros a = record { coeff = a; places = 6 }
