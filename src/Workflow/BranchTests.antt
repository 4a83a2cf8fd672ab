-- ===== src/Workflow/BranchTests.antt =====
-- Nodes of each kind of branch, and the theorem on calls that are lost.
use agentchains.Base.{
  map, ℕ, zero, suc, Bool, Text, Option, none, some, ◌≡◌, refl, true, false, List, [], ◌∷◌, ok, err,
  length,
}
use agentchains.Workflow.Graph.{Node, Graph, Layer}
use agentchains.Workflow.Execution.{NodeType, agent_call, loop, Limits}
use agentchains.Workflow.Calls.{Python, Response, raised, execute_agent_call}
use agentchains.Workflow.Conditions.{Operator, execute_condition}
use agentchains.Workflow.Branches.{Config, Surroundings, answer_of}
use agentchains.Workflow.Key
use agentchains.Base.Int.{ℤ, pos}
use agentchains.Budget.Coarse.{coarse}
use agentchains.Workflow.Definitions.{
  WorkflowDefinition, workflow_not_found, create_workflow, list_workflows, execute_workflow_by_id,
}
use agentchains.Proof.Schema.{Json, Fields, Items}

abbrev node : List ℕ → NodeType → Node NodeType
node deps kind = record { depends_on = deps; body = kind }

abbrev limits : Limits ℤ
limits = record {
  max_budget_usd = some (pos 4);
  default_cost = record { warn = pos 50; hard_limit = pos 100 };
  default_latency = record { warn = pos 10; hard_limit = pos 20 };
}

-- A literal has as many digits as its number; the amount of one is its length, and nothing else is one.
abbrev amount : Json → Option (ℤ × ℤ)
amount (Json.number t) = some (pos (length t), pos (length t))
amount j = none

abbrev is_number : Json → Bool
is_number (Json.number t) = true
is_number j = false

abbrev digits : ℕ → Text
digits zero = []
digits (suc n) = 49 ∷ digits n

abbrev python : Python
python = record {
  loads = λ t. some (Json.string t);
  literal = digits;
  equal = λ a b. is_number a;
  less = λ a b. none;
  at_most = λ a b. some true;
  member = λ a b. some false;
}

abbrev paid : Json
paid = Json.object (Fields.field Key.cost (Json.number (digits 9)) Fields.end)

abbrev two_items : Fields
two_items =
    Fields.field Key.item (Json.array (Items.item Json.null (Items.item Json.null Items.nil)))
      Fields.end

-- Node 1 cannot reach its agent, and node 2 loops over two calls, each of which asks for more than the budget.
abbrev config : ℕ → Config
config (suc zero) = Config.agent_call (record { endpoint = some 3; is_a2a = true })
config nid =
    Config.loop (record { iterator_field = Key.item; max_iterations = 100; body_endpoint = some 4 })

abbrev responses : ℕ → Response
responses (suc zero) = Response.request_error
responses nid = Response.answered paid

abbrev met : ℕ → Surroundings ℤ
met nid = record {
  input = two_items;
  responses = λ i. responses nid;
  subworkflows = λ i. none;
  duration = pos 5;
}

abbrev lost_flow : Graph NodeType
lost_flow = record { nodes = (2, node (1 ∷ []) loop) ∷ (1, node [] agent_call) ∷ []; edges = [] }

abbrev lost_layers : List (Layer NodeType)
lost_layers = ((1, node [] agent_call) ∷ []) ∷ ((2, node (1 ∷ []) loop) ∷ []) ∷ []

-- A call that is answered costs what the answer asks for, in a loop nothing; without JSON it raises under A2A.
paid_call :
    let call = Config.agent_call (record { endpoint = some 3; is_a2a = false }) in
    (answer_of coarse amount python call (met 2)).decimal ≡ pos 9
unfolding answer_of
paid_call = refl

paid_loop : (answer_of coarse amount python (config 2) (met 2)).decimal ≡ pos 0
unfolding answer_of
paid_loop = refl

odd_call :
    execute_agent_call python (record { endpoint = some 3; is_a2a = true }) Response.not_json
    ≡ err raised
unfolding execute_agent_call
odd_call = refl

-- "item.text" of an input whose item is a list is null, which no number is greater than.
nested_condition :
    execute_condition python
      (record {
        field = 105 ∷ 116 ∷ 101 ∷ 109 ∷ 46 ∷ 116 ∷ [];
        operator = Operator.gt;
        value = Json.number [];
        then_branch = Json.boolean true;
        else_branch = Json.boolean false;
      })
      (Json.object two_items)
    ≡ ok (
        Json.object (
          Fields.field Key.condition_met (Json.boolean false) (
            Fields.field Key.field (Json.string (105 ∷ 116 ∷ 101 ∷ 109 ∷ 46 ∷ 116 ∷ [])) (
              Fields.field Key.actual_value Json.null
                (Fields.field Key.selected_branch (Json.boolean false) Fields.end)))))
unfolding execute_condition
nested_condition = refl

-- Two workflows of one owner, of whom the list is cut at one.
made : List WorkflowDefinition
made = elim (create_workflow 1 0 none 5 0 none []) [
  | err e ↦ []
  | ok (w, rows) ↦ elim (create_workflow 2 0 (some lost_flow) 5 0 none rows) [
    | err e ↦ []
    | ok (v, rows') ↦ rows'
  ]
]

one_listed : map (λ (w : WorkflowDefinition). w.id) (list_workflows (some 5) none 1 made) ≡ 2 ∷ []
unfolding made create_workflow list_workflows
one_listed = refl

unknown_workflow :
    execute_workflow_by_id coarse limits.default_cost limits.default_latency 7
      (λ nid. answer_of coarse amount python (config nid) (met nid))
      []
      3
      made
    ≡ err workflow_not_found
unfolding made create_workflow execute_workflow_by_id
unknown_workflow = refl
