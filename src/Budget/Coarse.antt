-- ===== src/Budget/Coarse.antt =====
-- Floats of a coarse rounding, on which the models of budgets run: a sum that is not negative and odd is
-- rounded up.
use agentchains.Base.{◌+◌, ◌%◌, ◌≡◌, refl, true, arith}
use agentchains.Base.Int.{ℤ, pos, negsuc, pos_part, neg_part, ◌+ℤ◌, +ℤ_parts, leb_ℤ}
use agentchains.Budget.Track.{Floats}
use agentchains.Budget.Limit.{IsOrdered}

abbrev pub rounded : ℤ → ℤ
rounded (pos n) = pos (n + n % 2)
rounded (negsuc n) = negsuc n

pub rounded-zero : rounded (pos 0 +ℤ pos 0) ≡ pos 0
unfolding ◌+ℤ◌
rounded-zero = refl

abbrev pub coarse : Floats
coarse = record {
  Float = ℤ;
  zero = pos 0;
  plus = λ a x. rounded (a +ℤ x);
  at_least = λ a b. leb_ℤ b a;
  of_micros = λ a. a;
  zero_plus_zero = rounded-zero;
}

abbrev pub IsPayment : ℤ → Type 0
IsPayment x = leb_ℤ (pos 0) x ≡ true

rounded_grows :
    (a x s : ℤ)
    → pos_part s + neg_part a + neg_part x ≡ neg_part s + pos_part a + pos_part x
    → IsPayment x
    → leb_ℤ a (rounded s) ≡ true
rounded_grows a x (pos n) e h = ground (arith, e, h)
rounded_grows a x (negsuc n) e h = ground (arith, e, h)

pub coarse-IsOrdered : IsOrdered coarse IsPayment
coarse-IsOrdered = record {
  chained = λ a b c h k. ground (arith, h, k);
  grows = λ a x h. rounded_grows a x (a +ℤ x) (+ℤ_parts a x) h;
}
