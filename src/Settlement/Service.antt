-- ===== src/Settlement/Service.antt =====
-- `settle_chain_execution` of marketplace/services/chain_settlement_service.py. Each transfer commits, so an
-- error that leaves the loop keeps the payments that were made before it.
use agentchains.Base.{
  ℕ, Bool, true, false, Option, none, some, List, [], ◌∷◌, ◌++◌, ok, err, if◌then◌else◌, ◌==◌, ◌&&◌,
  Result,
}
use agentchains.Base.Int.{ℤ, pos, ◌+ℤ◌, leb_ℤ}
use agentchains.Base.Dict.{lookup}
use agentchains.Base.Table.{find}
use agentchains.Ledger.Decimal.{micros}
use agentchains.Ledger.Model.{TokenLedger, Db, Host, TxType, RefType, Key}
use agentchains.Ledger.Model
use agentchains.Ledger.Transfer.{Request, transfer}
use agentchains.Workflow.Execution.{NodeType, Status}
use agentchains.Settlement.Rows.{
  Error, ChainExecution, ChainTemplate, WorkflowNodeExecution, Env, Report, Outcome,
  get_platform_price, get_execution_nodes,
}

abbrev pub is_agent_call : NodeType → Bool
is_agent_call NodeType.agent_call = true
is_agent_call _ = false

abbrev pub is_completed : Status → Bool
is_completed Status.completed = true
is_completed _ = false

abbrev pub graph_agent : Env → ℕ → ℕ → Option ℕ
graph_agent env template_id node_id =
    elim (find (λ (t : ChainTemplate). t.id == template_id) env.templates) [
      | none ↦ none
      | some t ↦ elim (lookup node_id t.graph) [ none ↦ none | some node ↦ node.agent_id ]
    ]

-- The agent of the node's input, or else of the template's graph.
abbrev pub node_agent : Env → ChainExecution → WorkflowNodeExecution → Option ℕ
node_agent env exec n = elim n.input_agent [
  | some a ↦ some a
  | none ↦ graph_agent env exec.chain_template_id n.node_id
]

-- What the loop pays for a node, and to whom; none where it goes on to the next.
abbrev pub priced : ℕ → ℤ → Option (ℕ × ℤ)
priced agent_id price = if leb_ℤ price (pos 0) then none else some (agent_id, price)

unfoldable pub payment : Env → ChainExecution → WorkflowNodeExecution → Option (ℕ × ℤ)
payment env exec n =
    if is_agent_call n.node_type && is_completed n.status
    then elim (node_agent env exec n) [
      | none ↦ none
      | some agent_id ↦ priced agent_id (get_platform_price env agent_id)
    ]
    else none

abbrev pub idempotency_key : Env → ChainExecution → WorkflowNodeExecution → Key
idempotency_key env exec n = Key.custom (env.node_key exec.id n.node_id)

abbrev pub chain_settlement : TxType
chain_settlement = TxType.other 0

abbrev pub chain_execution : RefType
chain_execution = RefType.other 0

abbrev pub settlement_request : Env → ChainExecution → WorkflowNodeExecution → ℕ → ℤ → Request
settlement_request env exec n agent_id price = record {
  from_agent_id = some exec.initiated_by;
  to_agent_id = some agent_id;
  amount = micros price;
  tx_type = chain_settlement;
  reference_id = some exec.id;
  reference_type = some chain_execution;
  idempotency_key = some (idempotency_key env exec n);
}

-- `except ValueError`: the errors of the ledger that are one.
abbrev pub is_value_error : Model.Error → Bool
is_value_error Model.Error.multiple_results = false
is_value_error Model.Error.integrity = false
is_value_error Model.Error.key_error = false
is_value_error _ = true

abbrev pub add_transfer :
    Env → ChainExecution → WorkflowNodeExecution → ℕ → ℤ → TokenLedger → Report → Report
add_transfer env exec n agent_id price entry rep = record rep {
  total_settled = rep.total_settled +ℤ price;
  transfers =
      rep.transfers
      ++ record {
        node_id = n.node_id;
        agent_id = agent_id;
        amount_usd = price;
        ledger_id = entry.id;
        idempotency_key = idempotency_key env exec n;
      }
        ∷ [];
}

abbrev pub add_error : WorkflowNodeExecution → ℕ → Model.Error → Report → Report
add_error n agent_id e rep = record rep {
  errors = rep.errors ++ record { node_id = n.node_id; agent_id = agent_id; error = e } ∷ [];
}

-- The loop's body for one node, with the rest of the loop as `next`.
module _ (env : Env) (exec : ChainExecution) (n : WorkflowNodeExecution)
    (next : Report → Db → Outcome) where
  abbrev pub caught : Bool → ℕ → Model.Error → Report → Db → Outcome
  caught true agent_id e rep db = next (add_error n agent_id e rep) db
  caught false agent_id e rep db = Outcome.raised (Error.ledger e) db

  abbrev pub transferred : ℕ → ℤ → Report → Db → Result Model.Error (TokenLedger × Db) → Outcome
  transferred agent_id price rep db (ok (entry, db')) =
      next (add_transfer env exec n agent_id price entry rep) db'
  transferred agent_id price rep db (err e) = caught (is_value_error e) agent_id e rep db

  abbrev pub settle_node : Option (ℕ × ℤ) → Report → Db → Outcome
  settle_node none rep db = next rep db
  settle_node (some (agent_id, price)) rep db =
      transferred agent_id price rep db
        (transfer (env.host n) (settlement_request env exec n agent_id price) db)

unfoldable pub settle_nodes :
    Env → ChainExecution → List WorkflowNodeExecution → Report → Db → Outcome
unfolding payment transfer
settle_nodes env exec [] rep db = Outcome.settled rep db
settle_nodes env exec (n ∷ ns) rep db =
    settle_node env exec n (settle_nodes env exec ns) (payment env exec n) rep db

abbrev pub empty_report : Report
empty_report = record { total_settled = pos 0; transfers = []; errors = [] }

abbrev pub settle_workflow : Env → ChainExecution → Option ℕ → Db → Outcome
settle_workflow env exec none db = Outcome.raised Error.no_workflow db
settle_workflow env exec (some w) db =
    settle_nodes env exec (get_execution_nodes env w) empty_report db

abbrev pub settle_if : Bool → Env → ChainExecution → Db → Outcome
settle_if true env exec db = settle_workflow env exec exec.workflow_execution_id db
settle_if false env exec db = Outcome.raised Error.not_completed db

abbrev pub settle_row : Env → Option ChainExecution → Db → Outcome
settle_row env none db = Outcome.raised Error.execution_not_found db
settle_row env (some exec) db = settle_if (is_completed exec.status) env exec db

abbrev pub execution_row : Env → ℕ → Option ChainExecution
execution_row env id = find (λ (e : ChainExecution). e.id == id) env.executions

unfoldable pub settle_chain_execution : Env → ℕ → Db → Outcome
unfolding settle_nodes
settle_chain_execution env id db = settle_row env (execution_row env id) db
