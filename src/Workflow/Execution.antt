-- ===== src/Workflow/Execution.antt =====
-- The execution of a workflow: `_execute_node`, `_execute_human_approval`, and the requests that
-- pause, resume and cancel, of marketplace/services/orchestration_service.py. One execution's row is
-- modelled, with the rows of its nodes; a `Decimal` is in micro-dollars, of
-- the six places of its column, and a float is a parameter.
use agentchains.Base.{ℕ, Bool, true, false, Option, some, List, [], ◌∷◌, ◌++◌, if◌then◌else◌}
use agentchains.Base.Int.{ℤ, pos, ◌+ℤ◌}
use agentchains.Budget.Track.{Floats, Thresholds}

pub data Status : Type 0 where
  pending running paused completed failed cancelled : Status

pub data NodeType : Type 0 where
  agent_call condition human_approval loop subworkflow parallel_group unknown : NodeType

-- How a node ends outside of this file: it raises, or answers with the cost that it reports, as
-- the float and as the `Decimal` that are read of it; and the milliseconds that it takes.
pub record Answer (F : Type 0) : Type 0 where
  pub raises : Bool
  pub cost : F
  pub decimal : ℤ
  pub duration : F

pub record NodeRow : Type 0 where
  pub node_id : ℕ
  pub node_type : NodeType
  pub status : Status
  pub cost_usd : ℤ

pub record Execution : Type 0 where
  pub status : Status
  pub total_cost_usd : ℤ
  pub started_at : Option ℕ
  pub completed_at : Option ℕ
  pub rows : List NodeRow

-- The settings and the workflow's own budget, none where it is zero or missing.
pub record Limits (F : Type 0) : Type 0 where
  pub max_budget_usd : Option ℤ
  pub default_cost : Thresholds F
  pub default_latency : Thresholds F

abbrev pub is_running : Status → Bool
is_running Status.running = true
is_running _ = false

abbrev pub is_paused : Status → Bool
is_paused Status.paused = true
is_paused _ = false

abbrev pub is_live : Status → Bool
is_live Status.pending = true
is_live Status.running = true
is_live Status.paused = true
is_live _ = false

abbrev pub is_stopped : Status → Bool
is_stopped Status.paused = true
is_stopped Status.cancelled = true
is_stopped _ = false

unfoldable pub pause_execution : Execution → Execution × Bool
pause_execution e =
    if is_running e.status then (record e { status = Status.paused }, true) else (e, false)

unfoldable pub resume_execution : Execution → Execution × Bool
resume_execution e =
    if is_paused e.status then (record e { status = Status.running }, true) else (e, false)

unfoldable pub cancel_execution : ℕ → Execution → Execution × Bool
cancel_execution now e =
    if is_live e.status
    then (record e { status = Status.cancelled; completed_at = some now }, true)
    else (e, false)

-- A request from elsewhere, between two layers.
pub data Request : Type 0 where
  pause resume : Request
  cancel : ℕ → Request

unfoldable pub handle : Request → Execution → Execution
unfolding pause_execution resume_execution cancel_execution
handle pause e = (pause_execution e).0
handle resume e = (resume_execution e).0
handle (cancel now) e = (cancel_execution now e).0

unfoldable pub handle_all : List Request → Execution → Execution
unfolding handle
handle_all [] e = e
handle_all (r ∷ rs) e = handle_all rs (handle r e)

abbrev pub costs : List NodeRow → ℤ
costs [] = pos 0
costs (r ∷ rows) = r.cost_usd +ℤ costs rows

-- `get_execution_cost`
unfoldable pub get_execution_cost : Execution → ℤ
get_execution_cost e = costs e.rows

abbrev pub set_status : Status → Execution → Execution
set_status s e = record e { status = s }

-- What the branch of a node's type does: only an agent's answer has a cost, and only the types that run
-- code from outside can raise.
abbrev pub cost_of : (fl : Floats) → NodeType → Answer fl.Float → fl.Float
cost_of fl agent_call a = a.cost
cost_of fl _ a = fl.zero

abbrev pub amount_of : {F : Type 0} → NodeType → Answer F → ℤ
amount_of agent_call a = a.decimal
amount_of _ a = pos 0

abbrev pub fails : {F : Type 0} → NodeType → Answer F → Bool
fails human_approval a = false
fails parallel_group a = false
fails unknown a = false
fails _ a = a.raises

unfoldable pub execute_human_approval : Execution → Execution
execute_human_approval e = set_status Status.paused e

abbrev pub after_branch : NodeType → Execution → Execution
after_branch human_approval e = execute_human_approval e
after_branch _ e = e

abbrev pub row_of : {F : Type 0} → ℕ → NodeType → Answer F → NodeRow
row_of nid kind a =
    if fails kind a
    then record { node_id = nid; node_type = kind; status = Status.failed; cost_usd = pos 0 }
    else record {
      node_id = nid;
      node_type = kind;
      status = Status.completed;
      cost_usd = amount_of kind a;
    }

-- The row is written once, with the status that it ends in.
unfoldable pub execute_node : {F : Type 0} → ℕ → NodeType → Answer F → Execution → Execution
unfolding execute_human_approval
execute_node nid kind a e = record (after_branch kind e) { rows = e.rows ++ row_of nid kind a ∷ [] }
