-- ===== src/Ledger/Fee.antt =====
-- The fee's rounding: `to_decimal` on what is quantized already, and on a product of two amounts.
use agentchains.Base.{ℕ, ◌+◌, ◌-◌, ◌*◌, ◌≤◌, ◌<◌, ◌≡◌, ap, ◌∙◌, arith}
use agentchains.Base.Int.{ℤ, pos, negsuc, ◌+ℤ◌, ◌-ℤ◌, ◌*ℤ◌, int_laws}
use agentchains.Ledger.Decimal.{to_decimal, times, micros, half_up}
use agentchains.Ledger.Model.{Host}
use agentchains.Ledger.Transfer.{fee_of, net_of}

-- A quantized amount is left as it is.
pub to_decimal-micros : (a : ℤ) → to_decimal (micros a) ≡ a
unfolding to_decimal
to_decimal-micros (pos n) = ground arith
to_decimal-micros (negsuc n) = ground arith

-- What the receiver is credited and the fee make up the amount, whatever the rate.
pub net-fee : (host : Host) (amount : ℤ) → net_of host amount +ℤ fee_of host amount ≡ amount
net-fee host amount = rw to_decimal-micros (omega int_laws)

times_pos : (n r : ℕ) → to_decimal (times (pos n) (pos r)) ≡ pos (half_up (n * r) 1000000)
unfolding to_decimal ◌*ℤ◌
times_pos n r = ground arith

half_up-le : (n r : ℕ) → r ≤ 1000000 → half_up (n * r) 1000000 ≤ n
half_up-le n r h = grind arith

half_up_near :
    (m : ℕ)
    → (half_up m 1000000 * 1000000 ≤ m + 500000) × (m < half_up m 1000000 * 1000000 + 500000)
half_up_near m = omega arith

minus_pos : (n f : ℕ) → f ≤ n → pos n -ℤ pos f ≡ pos (n - f)
minus_pos n f h = omega (int_laws, h)

-- At a quantized rate of at most one, the fee of an amount is never more than the amount, it is the exact
-- product of the two rounded to the nearest micro-dollar with halves up, and the receiver is credited
-- with what remains.
pub fee_rounds :
    (host : Host) (n r : ℕ)
    → to_decimal host.platform_fee_pct ≡ pos r
    → r ≤ 1000000
    → (fee : ℕ) × (fee_of host (pos n) ≡ pos fee)
      × (net_of host (pos n) ≡ pos (n - fee))
      × (fee ≤ n)
      × (fee * 1000000 ≤ n * r + 500000)
      × (n * r < fee * 1000000 + 500000)
fee_rounds host n r rate small =
    let f = half_up (n * r) 1000000 in
    let fee : fee_of host (pos n) ≡ pos f =
      ap (λ p. to_decimal (times (pos n) p)) rate ∙ times_pos n r in
    let below = half_up-le n r small in
    let near = half_up_near (n * r) in
    (
      f,
      fee,
      to_decimal-micros (pos n -ℤ fee_of host (pos n))
          ∙ ap (λ x. pos n -ℤ x) fee
          ∙ minus_pos n f below,
      below,
      near.0,
      near.1,
    )
