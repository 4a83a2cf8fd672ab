-- ===== src/Redemption/Amount.antt =====
-- The Decimals of marketplace/services/redemption_service.py, whose sums are exact to any place, and what
-- they come to on amounts of six places.
use agentchains.Base.{ℕ, ◌+◌, ◌-◌, ◌^◌, ◌≡◌, refl, Bool, arith}
use agentchains.Base.Int.{ℤ, pos, negsuc, ◌+ℤ◌, ◌-ℤ◌, ◌*ℤ◌, ltb_ℤ}
use agentchains.Ledger.Decimal.{Decimal, micros}

-- The larger number of places of two Decimals, and a coefficient at so many places.
abbrev pub common : Decimal → Decimal → ℕ
common x y = x.places + (y.places - x.places)

abbrev pub at_places : ℕ → Decimal → ℤ
at_places n x = x.coeff *ℤ pos (10 ^ (n - x.places))

abbrev pub plus : Decimal → Decimal → Decimal
plus x y = record {
  coeff = at_places (common x y) x +ℤ at_places (common x y) y;
  places = common x y;
}

abbrev pub minus : Decimal → Decimal → Decimal
minus x y = record {
  coeff = at_places (common x y) x -ℤ at_places (common x y) y;
  places = common x y;
}

abbrev pub less : Decimal → Decimal → Bool
less x y = ltb_ℤ (at_places (common x y) x) (at_places (common x y) y)

pub times_one : (x : ℤ) → x *ℤ pos 1 ≡ x
unfolding ◌*ℤ◌
times_one (pos n) = ground arith
times_one (negsuc n) = ground arith

pub minus-micros : (a b : ℤ) → minus (micros a) (micros b) ≡ micros (a -ℤ b)
minus-micros a b = rw (times_one a, times_one b) refl
