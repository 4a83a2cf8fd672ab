-- ===== src/Workflow/Definitions.antt =====
-- The definitions of workflows, and the execution of one by its id: `create_workflow`, `get_workflow`,
-- `list_workflows` and the lookup of `execute_workflow`, of marketplace/services/orchestration_service.py.
-- Names, owners and descriptions are numbers, and an empty filter is none.
use mathlib.Core.Path.{subst}
use agentchains.Base.{
  ℕ, ◌≡◌, refl, ap, Bool, true, false, Option, none, some, List, [], ◌∷◌, Result, ok, err, ◌==◌,
  select, take, Ensures, arith,
}
use agentchains.Base.Table.{scalar_one_or_none}
use agentchains.Base.Int.{ℤ}
use agentchains.Budget.Track.{Floats, Thresholds}
use agentchains.Workflow.Graph.{Graph}
use agentchains.Workflow.Execution.{Status, NodeType, Answer, Execution, Limits, Request}
use agentchains.Workflow.Run.{fail, new_execution, execute_workflow}

pub data Stage : Type 0 where
  draft : Stage
  other : ℕ → Stage

abbrev pub same_stage : Stage → Stage → Bool
same_stage draft draft = true
same_stage (other a) (other b) = a == b
same_stage _ _ = false

-- `graph` is what `json.loads` reads of `graph_json`, none where it raises; a budget of zero is
-- none, as a missing one.
pub record WorkflowDefinition : Type 0 where
  pub id : ℕ
  pub name : ℕ
  pub description : ℕ
  pub graph : Option (Graph NodeType)
  pub owner_id : ℕ
  pub version : ℕ
  pub stage : Stage
  pub max_budget_usd : Option ℤ

pub data LookupError : Type 0 where
  workflow_not_found multiple_results integrity : LookupError

-- The id is new, or the commit raises at the primary key.
abbrev pub store_new :
    WorkflowDefinition
    → List WorkflowDefinition
    → List WorkflowDefinition
    → Result LookupError (WorkflowDefinition × List WorkflowDefinition)
store_new w rows [] = ok (w, w ∷ rows)
store_new w rows (_ ∷ _) = err integrity

unfoldable pub create_workflow :
    ℕ
    → ℕ
    → Option (Graph NodeType)
    → ℕ
    → ℕ
    → Option ℤ
    → List WorkflowDefinition
    → Result LookupError (WorkflowDefinition × List WorkflowDefinition)
create_workflow new_id name graph owner_id description max_budget_usd rows =
    store_new
      (record {
        id = new_id;
        name = name;
        description = description;
        graph = graph;
        owner_id = owner_id;
        version = 1;
        stage = draft;
        max_budget_usd = max_budget_usd;
      })
      rows (select (λ (w : WorkflowDefinition). w.id == new_id) rows)

unfoldable pub get_workflow :
    ℕ → List WorkflowDefinition → Result LookupError (Option WorkflowDefinition)
get_workflow workflow_id rows =
    scalar_one_or_none multiple_results
      (select (λ (w : WorkflowDefinition). w.id == workflow_id) rows)

abbrev pub has_owner : Option ℕ → WorkflowDefinition → Bool
has_owner none w = true
has_owner (some owner_id) w = w.owner_id == owner_id

abbrev pub is_at : Option Stage → WorkflowDefinition → Bool
is_at none w = true
is_at (some stage) w = same_stage w.stage stage

unfoldable pub list_workflows :
    Option ℕ → Option Stage → ℕ → List WorkflowDefinition → List WorkflowDefinition
list_workflows owner_id stage limit rows =
    take limit (select (is_at stage) (select (has_owner owner_id) rows))

-- The limits of a workflow, with the settings' own.
abbrev pub limits_of : {F : Type 0} → Thresholds F → Thresholds F → WorkflowDefinition → Limits F
limits_of cost latency w = record {
  max_budget_usd = w.max_budget_usd;
  default_cost = cost;
  default_latency = latency;
}

-- A graph that is no JSON fails the execution that has started.
abbrev pub execute_definition :
    (fl : Floats)
    → Thresholds fl.Float
    → Thresholds fl.Float
    → ℕ
    → (ℕ → Answer fl.Float)
    → List (List Request)
    → WorkflowDefinition
    → Execution
execute_definition fl cost latency now answer requests w = elim w.graph [
  | none ↦ fail now (record new_execution { status = Status.running; started_at = some now })
  | some g ↦ execute_workflow fl (limits_of cost latency w) now answer g requests
]

abbrev pub execute_found :
    (fl : Floats)
    → Thresholds fl.Float
    → Thresholds fl.Float
    → ℕ
    → (ℕ → Answer fl.Float)
    → List (List Request)
    → Result LookupError (Option WorkflowDefinition)
    → Result LookupError Execution
execute_found fl cost latency now answer requests (err e) = err e
execute_found fl cost latency now answer requests (ok none) = err workflow_not_found
execute_found fl cost latency now answer requests (ok (some w)) =
    ok (execute_definition fl cost latency now answer requests w)

-- `execute_workflow` by the id of a workflow; what it returns is the execution's row.
unfoldable pub execute_workflow_by_id :
    (fl : Floats)
    → Thresholds fl.Float
    → Thresholds fl.Float
    → ℕ
    → (ℕ → Answer fl.Float)
    → List (List Request)
    → ℕ
    → List WorkflowDefinition
    → Result LookupError Execution
unfolding get_workflow execute_workflow
execute_workflow_by_id fl cost latency now answer requests workflow_id rows =
    execute_found fl cost latency now answer requests (get_workflow workflow_id rows)

-- A workflow that is stored is found under its id.
store_new-get :
    (w : WorkflowDefinition) (rows taken : List WorkflowDefinition)
    → select (λ (v : WorkflowDefinition). v.id == w.id) rows ≡ taken
    → Ensures
        (λ w' rows'. (w' ≡ w) × (get_workflow w.id rows' ≡ ok (some w)))
        (store_new w rows taken)
unfolding get_workflow
store_new-get w rows [] e = (refl, rw (self w.id, e) refl)
  where
    self : (a : ℕ) → (a == a) ≡ true
    self a = ground arith
store_new-get w rows (v ∷ vs) e = tt

-- A workflow that is created is found under its id, and executing it runs its graph within its budget.
create_workflow-execute :
    (fl : Floats) (cost latency : Thresholds fl.Float) (now : ℕ) (answer : ℕ → Answer fl.Float)
    (requests : List (List Request)) (new_id name owner_id description : ℕ) (budget : ℤ)
    (g : Graph NodeType) (rows rows' : List WorkflowDefinition) (w : WorkflowDefinition)
    → create_workflow new_id name (some g) owner_id description (some budget) rows ≡ ok (w, rows')
    → execute_workflow_by_id fl cost latency now answer requests new_id rows'
      ≡ ok (
          execute_workflow fl
            (record {
              max_budget_usd = some budget;
              default_cost = cost;
              default_latency = latency;
            })
            now
            answer
            g
            requests)
unfolding create_workflow execute_workflow_by_id
create_workflow-execute fl cost latency now answer requests new_id name owner_id description budget
      g rows rows' w h =
    let (same, found) =
      subst (Ensures (λ w' d. (w' ≡ _) × (get_workflow new_id d ≡ ok (some _)))) h
        (store_new-get _ rows _ refl) in
    ap (execute_found fl cost latency now answer requests) found
