-- ===== src/Budget/Track.antt =====
-- `BudgetTracker`, with the thresholds of `CostBudget` and `LatencyBudget`. Costs and times are floats.
use agentchains.Base.{◌≡◌, Bool, if◌then◌else◌}
use agentchains.Base.Int.{ℤ}

-- Python's floats: the sum that `+` rounds, `>=`, and `float` of an amount in micro-dollars.
pub record Floats : Type 1 where
  pub Float : Type 0
  pub zero : Float
  pub plus : Float → Float → Float
  pub at_least : Float → Float → Bool
  pub of_micros : ℤ → Float
  pub zero_plus_zero : plus zero zero ≡ zero

pub record Thresholds (F : Type 0) : Type 0 where
  pub warn : F
  pub hard_limit : F

pub record BudgetTracker (F : Type 0) : Type 0 where
  pub cost_budget : Thresholds F
  pub latency_budget : Thresholds F
  pub total_cost : F

-- `exceeded` is the `BudgetExceededError` that is raised.
pub data Outcome : Type 0 where
  within warned exceeded : Outcome

module _ (fl : Floats) where
  abbrev pub outcome_of : Thresholds fl.Float → fl.Float → Outcome
  outcome_of t x =
      if fl.at_least x t.hard_limit
      then exceeded
      else (if fl.at_least x t.warn then warned else within)

  -- The cost is added before the check, so it stays when the error is raised.
  unfoldable pub record_cost : fl.Float → BudgetTracker fl.Float → BudgetTracker fl.Float × Outcome
  record_cost amount b = (
    record b { total_cost = fl.plus b.total_cost amount },
    outcome_of b.cost_budget (fl.plus b.total_cost amount),
  )

  unfoldable pub record_latency : fl.Float → BudgetTracker fl.Float → Outcome
  record_latency duration b = outcome_of b.latency_budget duration
