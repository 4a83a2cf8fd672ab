-- ===== src/Workflow/Completion.antt =====
-- What a completed execution has done.
use mathlib.Core.Path.{subst}
use agentchains.Base.{ℕ, ◌≤◌, ◌≡◌, sym, false, Option, List, length}
use agentchains.Base.Int.{ℤ}
use agentchains.Budget.Track.{Floats, BudgetTracker}
use agentchains.Workflow.Graph.{Graph}
use agentchains.Workflow.Execution.{Execution, costs}
use agentchains.Workflow.Run.{over_budget}
use agentchains.Workflow.Ran.{ran, AllCompleted, IsSound}

-- A completed execution has run exactly these nodes, for this float, within a hard limit and a budget.
pub record HasRun (fl : Floats) (nodes : List ℕ) (total limit : fl.Float) (budget : Option ℤ)
    (e : Execution) : Type 0 where
  pub order : ran e.rows ≡ nodes
  pub clean : AllCompleted e.rows
  pub charged : e.total_cost_usd ≡ costs e.rows
  pub within_limit : 1 ≤ length e.rows → fl.at_least total limit ≡ false
  pub within_budget : 1 ≤ length e.rows → over_budget budget (costs e.rows) ≡ false

pub IsSound-rows :
    (fl : Floats) (e e' : Execution) (b : BudgetTracker fl.Float)
    → e'.rows ≡ e.rows
    → IsSound fl e b
    → IsSound fl e' b
IsSound-rows fl e e' b same s = record {
  clean = subst AllCompleted (sym same) s.clean;
  below = λ n. s.below (subst (λ rows. 1 ≤ length rows) same n);
}
