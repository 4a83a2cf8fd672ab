-- ===== src/Workflow/Liveness.antt =====
-- When an execution completes.
use agentchains.Base.{ℕ, ◌≡◌, Bool, true, false, not, ◌&&◌, Option, List, [], ◌∷◌, ◌++◌}
use agentchains.Base.Int.{ℤ}
use agentchains.Budget.Track.{Floats, BudgetTracker}
use agentchains.Workflow.Graph.{Graph, Layer}
use agentchains.Workflow.Execution.{
  NodeType, Answer, NodeRow, Execution, is_stopped, costs, cost_of, fails, row_of, human_approval,
}
use agentchains.Workflow.Run.{over_budget}
use agentchains.Workflow.Ran.{spent}

module _ (fl : Floats) where
  -- The nodes answer, in time, and after each of them the tracker's float is below the limit.
  abbrev pub Answers :
      (ℕ → Answer fl.Float) → fl.Float → fl.Float → Layer NodeType → fl.Float → Type 0
  Answers answer slow limit [] t = Unit
  Answers answer slow limit ((nid, ndef) ∷ layer) t =
      (fails ndef.body (answer nid) ≡ false)
      × (fl.at_least (answer nid).duration slow ≡ false)
      × (fl.at_least (fl.plus t (cost_of fl ndef.body (answer nid))) limit ≡ false)
      × Answers answer slow limit layer (fl.plus t (cost_of fl ndef.body (answer nid)))

  -- The rows that a layer adds.
  abbrev pub rows_of : (ℕ → Answer fl.Float) → Layer NodeType → List NodeRow → List NodeRow
  rows_of answer [] rows = rows
  rows_of answer ((nid, ndef) ∷ layer) rows =
      rows_of answer layer (rows ++ row_of nid ndef.body (answer nid) ∷ [])

  -- So do the nodes of every layer, and after each layer the sum of the decimals is within the budget.
  abbrev pub AllAnswer :
      (ℕ → Answer fl.Float)
      → fl.Float
      → fl.Float
      → Option ℤ
      → List (Layer NodeType)
      → fl.Float
      → List NodeRow
      → Type 0
  AllAnswer answer slow limit budget [] t rows = Unit
  AllAnswer answer slow limit budget (layer ∷ layers) t rows =
      Answers answer slow limit layer t
      × (over_budget budget (costs (rows_of answer layer rows)) ≡ false)
      × AllAnswer answer slow limit budget layers (spent fl answer layer t)
          (rows_of answer layer rows)

abbrev pub asks_approval : Layer NodeType → Bool
asks_approval [] = false
asks_approval ((nid, ndef) ∷ layer) =
    let rest = asks_approval layer in elim ndef.body [ human_approval ↦ true | _ ↦ rest ]

-- No layer but the last asks for an approval.
abbrev pub asks_late : List (Layer NodeType) → Bool
asks_late [] = true
asks_late (layer ∷ []) = true
asks_late (layer ∷ next ∷ layers) = not (asks_approval layer) && asks_late (next ∷ layers)

-- The layer has run without an error, and stops the execution only if it asks for an approval.
record RunsFine (fl : Floats) (answer : ℕ → Answer fl.Float) (layer : Layer NodeType)
    (e : Execution) (b : BudgetTracker fl.Float) (r : Execution × BudgetTracker fl.Float × Bool)
    : Type 0 where
  fine : r.2 ≡ false
  total : r.1.total_cost ≡ spent fl answer layer b.total_cost
  rows : r.0.rows ≡ rows_of fl answer layer e.rows
  same_cost : r.1.cost_budget ≡ b.cost_budget
  same_latency : r.1.latency_budget ≡ b.latency_budget
  goes_on : asks_approval layer ≡ false → r.0.status ≡ e.status

-- Nothing stops the execution before its next layer, if there is one.
abbrev pub GoesOn : Execution → List (Layer NodeType) → Type 0
GoesOn e [] = Unit
GoesOn e (layer ∷ layers) = is_stopped e.status ≡ false
