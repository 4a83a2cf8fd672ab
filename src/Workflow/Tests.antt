-- ===== src/Workflow/Tests.antt =====
-- A small workflow, one with a cycle, and the theorems on them.
use agentchains.Base.{
  some, ℕ, ◌≤◌, ◌<◌, ◌≡◌, ◌↔◌, refl, true, false, List, [], ◌∷◌, inl, inr, arith, ok, err, length,
  count,
}
use agentchains.Base.Dict.{lookup}
use agentchains.Workflow.Graph.{Node, Graph, Layer, cycle, keys, is_some, topological_sort_layers}
use agentchains.Workflow.Order.{DependsOn, HasKeys, scheduled, level}
use agentchains.Workflow.Sorted.{sort_orders}
use agentchains.Workflow.Cycles.{JoinsNodes, IsAcyclic, sorts_iff, cycle_is_real}
use agentchains.Workflow.Execution.{
  Status, NodeType, agent_call, human_approval, Answer, Execution, Limits,
}
use agentchains.Workflow.Run.{execute_workflow}
use agentchains.Base.Int.{ℤ, pos, ◌+ℤ◌}
use agentchains.Budget.Coarse.{coarse}

abbrev node : List ℕ → NodeType → Node NodeType
node deps kind = record { depends_on = deps; body = kind }

-- Node 2 depends on node 1, and node 3, which asks for an approval, on both.
abbrev flow : Graph NodeType
flow = record {
  nodes =
      (3, node (2 ∷ []) human_approval)
      ∷ (2, node (1 ∷ 8 ∷ []) agent_call)
      ∷ (1, node [] agent_call)
      ∷ [];
  edges = (1, 3) ∷ [];
}

abbrev flow_layers : List (Layer NodeType)
flow_layers =
    ((1, node [] agent_call) ∷ [])
    ∷ ((2, node (1 ∷ 8 ∷ []) agent_call) ∷ [])
    ∷ ((3, node (2 ∷ []) human_approval) ∷ [])
    ∷ []

flow-HasKeys : HasKeys flow
flow-HasKeys v = ground arith

flow-JoinsNodes : JoinsNodes flow
flow-JoinsNodes u v (inl (a, b)) = ground (arith, a, b)
flow-JoinsNodes u v (inr m) = absurd m

flow_sorted : topological_sort_layers flow ≡ ok flow_layers
unfolding topological_sort_layers
flow_sorted = refl

sort_orders_example :
    ((v : ℕ) → scheduled v flow_layers ≡ count v (keys flow.nodes))
    × ((u v : ℕ)
        → DependsOn flow v u
        → is_some (lookup v flow.nodes) ≡ true
        → level u flow_layers < level v flow_layers)
sort_orders_example = sort_orders flow flow_layers flow-HasKeys flow_sorted

sorts_iff_example :
    ((layers : List (Layer NodeType)) × (topological_sort_layers flow ≡ ok layers)) ↔ IsAcyclic flow
sorts_iff_example = sorts_iff flow flow-HasKeys flow-JoinsNodes

-- Nodes 1 and 2 wait for one another, and node 3 for both.
abbrev stuck : Graph NodeType
stuck = record {
  nodes =
      (1, node (2 ∷ []) agent_call) ∷ (2, node (1 ∷ []) agent_call) ∷ (4, node [] agent_call) ∷ [];
  edges = [];
}

stuck-HasKeys : HasKeys stuck
stuck-HasKeys v = ground arith

stuck_sorted : topological_sort_layers stuck ≡ err (cycle (1 ∷ 2 ∷ []))
unfolding topological_sort_layers
stuck_sorted = refl

abbrev unresolved : List ℕ
unresolved = 1 ∷ 2 ∷ []

cycle_is_real_example :
    (1 ≤ length unresolved)
    × ((v : ℕ) → 1 ≤ count v unresolved → (u : ℕ) × DependsOn stuck v u × (1 ≤ count u unresolved))
cycle_is_real_example =
    cycle_is_real stuck unresolved stuck-HasKeys (λ u v m. absurd m) stuck_sorted

abbrev answers : ℕ → Answer ℤ
answers nid = record { raises = false; cost = pos nid; decimal = pos nid; duration = pos 5 }

-- The nodes cost 1, 2 and, as an approval, nothing; the float that they add up to is 4.
abbrev limits : Limits ℤ
limits = record {
  max_budget_usd = some (pos 5);
  default_cost = record { warn = pos 50; hard_limit = pos 100 };
  default_latency = record { warn = pos 10; hard_limit = pos 20 };
}

ended : Execution
ended = execute_workflow coarse limits 7 answers flow []

-- A cost that the budget no longer has: the float reaches the limit, and the execution fails.
spent_budget :
    (execute_workflow coarse
      (record limits { max_budget_usd = some (pos 4) })
      7
      answers
      flow
      []).status
    ≡ Status.failed
unfolding execute_workflow ◌+ℤ◌
spent_budget = refl
