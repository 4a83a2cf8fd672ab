-- ===== src/Budget/Tests.antt =====
-- Runs of the tracker on coarse floats, and the theorem about it at a concrete input.
use agentchains.Base.{◌≡◌, refl, ◌↔◌, true, false, [], ◌∷◌}
use agentchains.Base.Int.{ℤ, pos, negsuc, ◌+ℤ◌}
use agentchains.Budget.Track.{BudgetTracker, warned, record_cost, record_latency}
use agentchains.Budget.Limit.{add_up, spend, spend_iff}
use agentchains.Budget.Coarse.{coarse, coarse-IsOrdered, IsPayment}

abbrev tracker : BudgetTracker ℤ
tracker = record {
  cost_budget = record { warn = pos 10; hard_limit = pos 100 };
  latency_budget = record { warn = pos 1000; hard_limit = pos 5000 };
  total_cost = pos 90;
}

-- The sum is kept when it reaches the limit, and 9 + 90 is rounded to it.
cost_kept : (record_cost coarse (pos 9) tracker).0.total_cost ≡ pos 100
unfolding record_cost ◌+ℤ◌
cost_kept = refl

slow_call : record_latency coarse (pos 1500) tracker ≡ warned
unfolding record_latency
slow_call = refl

-- A negative cost is a credit.
credited : (spend coarse (negsuc 49 ∷ pos 20 ∷ []) tracker).1 ≡ true
unfolding spend record_cost ◌+ℤ◌
credited = refl

-- Without the condition on the costs a run fails on the way to a total below the limit.
too_late_a_credit :
    ((spend coarse (pos 20 ∷ negsuc 49 ∷ []) tracker).1 ≡ false)
    × (coarse.at_least (add_up coarse (pos 90) (pos 20 ∷ negsuc 49 ∷ [])) (pos 100) ≡ false)
unfolding spend record_cost ◌+ℤ◌
too_late_a_credit = (refl, refl)

spend_iff_example : ((spend coarse (pos 4 ∷ pos 7 ∷ []) tracker).1 ≡ true) ↔ (
    coarse.at_least
      (add_up coarse tracker.total_cost (pos 4 ∷ pos 7 ∷ []))
      tracker.cost_budget.hard_limit
    ≡ false)
spend_iff_example =
    spend_iff coarse IsPayment coarse-IsOrdered (pos 4) (pos 7 ∷ []) tracker (refl, (refl, tt))
