-- ===== src/Workflow/Branches.antt =====
-- What a node does by its type: `_execute_loop`, `_execute_subworkflow` and the dispatch of
-- `_execute_node`, of marketplace/services/orchestration_service.py. The limit of a loop is no negative number.
use agentchains.Base.{ℕ, zero, suc, true, false, Text, Option, none, some, [], ◌∷◌, Result, ok, err}
use agentchains.Base.Int.{ℤ, pos}
use agentchains.Budget.Track.{Floats}
use agentchains.Proof.Schema.{Json, Fields, Items, item_count}
use agentchains.Workflow.Key
use agentchains.Workflow.Execution.{NodeType, Answer}
use agentchains.Workflow.Calls.{
  Raised, raised, Python, value_at, get_or, error_reply, Response, AgentCall, plain_reply,
  execute_agent_call,
}
use agentchains.Workflow.Conditions.{Condition, execute_condition}

pub record Loop : Type 0 where
  pub iterator_field : Text
  pub max_iterations : ℕ
  pub body_endpoint : Option ℕ

-- One pass of the loop, with the response to its index.
abbrev pub pass_of : Python → Loop → (ℕ → Response) → ℕ → Json → Json
pass_of py c responses i x = elim c.body_endpoint [
  | some url ↦ plain_reply (responses i)
  | none ↦
      Json.object
        (Fields.field Key.item x (Fields.field Key.index (Json.number (py.literal i)) Fields.end))
]

-- `for i, item in enumerate(items[:max_iterations])`
abbrev pub loop_over : Python → Loop → (ℕ → Response) → ℕ → ℕ → Items → Items
loop_over py c responses i left Items.nil = Items.nil
loop_over py c responses i zero (Items.item x xs) = Items.nil
loop_over py c responses i (suc left) (Items.item x xs) =
    Items.item (pass_of py c responses i x) (loop_over py c responses (suc i) left xs)

unfoldable pub execute_loop : Python → Loop → Fields → (ℕ → Response) → Json
execute_loop py c input responses = elim (get_or (Json.array Items.nil) c.iterator_field input) [
  | Json.array xs ↦
      let results = loop_over py c responses 0 c.max_iterations xs in
      Json.object (
        Fields.field Key.iterations (Json.number (py.literal (item_count results)))
          (Fields.field Key.results (Json.array results) Fields.end))
  | _ ↦ error_reply
]

-- The execution of another workflow as its caller sees it: its id, its status and its output.
pub record SubExecution : Type 0 where
  pub id : Text
  pub status : Text
  pub output : Json

-- What executing each workflow gives, none where it raises.
unfoldable pub execute_subworkflow : (ℕ → Option SubExecution) → Option ℕ → Result Raised Json
execute_subworkflow run none = ok error_reply
execute_subworkflow run (some workflow_id) = elim (run workflow_id) [
  | none ↦ err raised
  | some s ↦ ok (
      Json.object (
        Fields.field Key.sub_execution_id (Json.string s.id) (
          Fields.field Key.status (Json.string s.status)
            (Fields.field Key.output s.output Fields.end))))
]

-- The type of a node with its configuration; an approval has its message and its node's id.
pub data Config : Type 0 where
  agent_call : AgentCall → Config
  condition : Condition → Config
  human_approval : Json → Json → Config
  parallel_group unknown : Config
  loop : Loop → Config
  subworkflow : Option ℕ → Config

abbrev pub type_of : Config → NodeType
type_of (Config.agent_call c) = NodeType.agent_call
type_of (Config.condition c) = NodeType.condition
type_of (Config.human_approval message node_id) = NodeType.human_approval
type_of Config.parallel_group = NodeType.parallel_group
type_of Config.unknown = NodeType.unknown
type_of (Config.loop c) = NodeType.loop
type_of (Config.subworkflow w) = NodeType.subworkflow

-- What a node meets: its input, the responses to its requests, the subworkflows, and the time it takes.
pub record Surroundings (F : Type 0) : Type 0 where
  pub input : Fields
  pub responses : ℕ → Response
  pub subworkflows : ℕ → Option SubExecution
  pub duration : F

abbrev awaiting_approval : Text
awaiting_approval =
    97 ∷ 119 ∷ 97 ∷ 105 ∷ 116 ∷ 105 ∷ 110 ∷ 103 ∷ 95 ∷ 97 ∷ 112 ∷ 112 ∷ 114 ∷ 111 ∷ 118 ∷ 97 ∷ 108
    ∷ []

abbrev completed : Text
completed = 99 ∷ 111 ∷ 109 ∷ 112 ∷ 108 ∷ 101 ∷ 116 ∷ 101 ∷ 100 ∷ []

-- What `_execute_human_approval` returns; the pause is in `execute_human_approval`.
abbrev pub approval_reply : Json → Json → Json
approval_reply message node_id = Json.object (
    Fields.field Key.status (Json.string awaiting_approval)
      (Fields.field Key.message message (Fields.field Key.node_id node_id Fields.end)))

abbrev pub group_reply : Json → Json
group_reply input =
    Json.object
      (Fields.field Key.status (Json.string completed) (Fields.field Key.data_ input Fields.end))

unfoldable pub execute_branch : {F : Type 0} → Python → Config → Surroundings F → Result Raised Json
unfolding execute_agent_call execute_condition execute_loop execute_subworkflow
execute_branch py (Config.agent_call c) w = execute_agent_call py c (w.responses 0)
execute_branch py (Config.condition c) w = execute_condition py c (Json.object w.input)
execute_branch py (Config.human_approval message node_id) w = ok (approval_reply message node_id)
execute_branch py Config.parallel_group w = ok (group_reply (Json.object w.input))
execute_branch py Config.unknown w = ok error_reply
execute_branch py (Config.loop c) w = ok (execute_loop py c w.input w.responses)
execute_branch py (Config.subworkflow i) w = execute_subworkflow w.subworkflows i

-- What a number, or a text of one, is as a `Decimal` in micro-dollars and as a float; none where it raises.
abbrev pub Amounts : Floats → Type 0
Amounts fl = Json → Option (ℤ × fl.Float)

-- `Decimal(str(result.get("_cost", 0)))` and `float(result.get("_cost", 0))`: none where either raises, as for a
-- reply that is no object.
abbrev pub cost_in : (fl : Floats) → Amounts fl → Json → Option (ℤ × fl.Float)
cost_in fl amount (Json.object fs) = elim (value_at Key.cost fs) [
  | none ↦ some (pos 0, fl.zero)
  | some v ↦ amount v
]
cost_in fl amount _ = none

abbrev pub answer_with : (fl : Floats) → fl.Float → Option (ℤ × fl.Float) → Answer fl.Float
answer_with fl duration none = record {
  raises = true;
  cost = fl.zero;
  decimal = pos 0;
  duration = duration;
}
answer_with fl duration (some (decimal, cost)) = record {
  raises = false;
  cost = cost;
  decimal = decimal;
  duration = duration;
}

abbrev pub answered_with :
    (fl : Floats) → Amounts fl → fl.Float → Result Raised Json → Answer fl.Float
answered_with fl amount duration (err e) = answer_with fl duration none
answered_with fl amount duration (ok j) = answer_with fl duration (cost_in fl amount j)

-- How the branch of a node ends, as `_execute_node` records it.
unfoldable pub answer_of :
    (fl : Floats) → Amounts fl → Python → Config → Surroundings fl.Float → Answer fl.Float
unfolding execute_branch
answer_of fl amount py c w = answered_with fl amount w.duration (execute_branch py c w)
