-- ===== src/Workflow/Run.antt =====
-- The run of a workflow: `_run_node`, `_run_dag` and `execute_workflow` of
-- marketplace/services/orchestration_service.py.
use agentchains.Base.{
  ℕ, Bool, true, false, ◌||◌, Option, none, some, List, [], ◌∷◌, ok, err, if◌then◌else◌,
}
use agentchains.Base.Int.{ℤ, pos, ltb_ℤ}
use agentchains.Budget.Track.{Floats, BudgetTracker, Outcome, exceeded, record_cost, record_latency}
use agentchains.Workflow.Graph.{Graph, Layer, topological_sort_layers}
use agentchains.Workflow.Execution.{
  Status, NodeType, Answer, Execution, Limits, is_stopped, Request, handle_all, get_execution_cost,
  cost_of, fails, execute_node,
}

abbrev pub is_exceeded : Outcome → Bool
is_exceeded exceeded = true
is_exceeded _ = false

-- `_run_node`: the execution, the tracker, and whether it raised. The latency is checked first, and if
-- that raises the cost is not recorded.
unfoldable pub run_node :
    (fl : Floats)
    → ℕ
    → NodeType
    → Answer fl.Float
    → Execution
    → BudgetTracker fl.Float
    → Execution × BudgetTracker fl.Float × Bool
unfolding execute_node record_cost record_latency
run_node fl nid kind a e b =
    let e' = execute_node nid kind a e in
    if fails kind a
    then (e', b, true)
    else if is_exceeded (record_latency fl a.duration b)
    then (e', b, true)
    else (
      e',
      (record_cost fl (cost_of fl kind a) b).0,
      is_exceeded (record_cost fl (cost_of fl kind a) b).1,
    )

-- `asyncio.gather(..., return_exceptions=True)`: every node of the layer runs, also after an error. Here they
-- run in order, as if each ran alone: what an interleaving does to their one session is not modelled.
unfoldable pub run_nodes :
    (fl : Floats)
    → (ℕ → Answer fl.Float)
    → Layer NodeType
    → Execution
    → BudgetTracker fl.Float
    → Execution × BudgetTracker fl.Float × Bool
unfolding run_node
run_nodes fl answer [] e b = (e, b, false)
run_nodes fl answer ((nid, ndef) ∷ layer) e b =
    let (e1, b1, raised) = run_node fl nid ndef.body (answer nid) e b in
    let (e2, b2, later) = run_nodes fl answer layer e1 b1 in (e2, b2, raised || later)

abbrev pub fail : ℕ → Execution → Execution
fail now e = record e { status = Status.failed; completed_at = some now }

abbrev pub finish : ℕ → Execution → Execution
finish now e = record e { status = Status.completed; completed_at = some now }

abbrev pub charge : Execution → Execution
charge e = record e { total_cost_usd = get_execution_cost e }

abbrev pub first {ℓ} : {A : Type ℓ} → List (List A) → List A
first [] = []
first (x ∷ xs) = x

abbrev pub others {ℓ} : {A : Type ℓ} → List (List A) → List (List A)
others [] = []
others (x ∷ xs) = xs

-- `max_budget and total_cost > max_budget`
abbrev pub over_budget : Option ℤ → ℤ → Bool
over_budget none total = false
over_budget (some limit) total = ltb_ℤ limit total

-- The loop over the layers; `requests` holds what arrives before each of them.
unfoldable pub run_dag :
    (fl : Floats)
    → Limits fl.Float
    → ℕ
    → (ℕ → Answer fl.Float)
    → List (Layer NodeType)
    → List (List Request)
    → Execution
    → BudgetTracker fl.Float
    → Execution
unfolding run_nodes handle_all get_execution_cost
run_dag fl limits now answer [] requests e b = finish now e
run_dag fl limits now answer (layer ∷ layers) requests e b =
    let arrived = handle_all (first requests) e in
    let (e', b', raised) = run_nodes fl answer layer arrived b in
    let rest = run_dag fl limits now answer layers (others requests) (charge e') b' in
    if is_stopped arrived.status
    then arrived
    else if raised
    then fail now e'
    else if over_budget limits.max_budget_usd (get_execution_cost e')
    then fail now (charge e')
    else rest

abbrev pub tracker_of : (fl : Floats) → Limits fl.Float → BudgetTracker fl.Float
tracker_of fl limits = record {
  cost_budget = record {
    warn = limits.default_cost.warn;
    hard_limit = elim limits.max_budget_usd [
      | none ↦ limits.default_cost.hard_limit
      | some m ↦ fl.of_micros m
    ];
  };
  latency_budget = limits.default_latency;
  total_cost = fl.zero;
}

abbrev pub new_execution : Execution
new_execution = record {
  status = Status.pending;
  total_cost_usd = pos 0;
  started_at = none;
  completed_at = none;
  rows = [];
}

-- `execute_workflow` on a workflow that exists: the new row, `_run_dag`, and the handler of what it raises.
unfoldable pub execute_workflow :
    (fl : Floats)
    → Limits fl.Float
    → ℕ
    → (ℕ → Answer fl.Float)
    → Graph NodeType
    → List (List Request)
    → Execution
unfolding run_dag topological_sort_layers
execute_workflow fl limits now answer g requests =
    let e = record new_execution { status = Status.running; started_at = some now } in
    elim (topological_sort_layers g) [
      | err raised ↦ fail now e
      | ok layers ↦ run_dag fl limits now answer layers requests e (tracker_of fl limits)
    ]
