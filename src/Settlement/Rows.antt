-- ===== src/Settlement/Rows.antt =====
-- The rows that a settlement reads, the prices of marketplace/services/chain_settlement_service.py
-- (`_get_platform_price`) and `get_execution_nodes` of orchestration_service.py.
use agentchains.Base.{
  ℕ, Bool, Option, none, some, List, [], ◌∷◌, if◌then◌else◌, leb, ◌==◌, ◌&&◌, select,
}
use agentchains.Base.Int.{ℤ, pos}
use agentchains.Base.Dict.{Dict}
use agentchains.Ledger.Model.{TokenLedger, Db, Host, TxType, RefType, Key}
use agentchains.Ledger.Model
use agentchains.Workflow.Execution.{NodeType, Status}

pub data Error : Type 0 where
  execution_not_found not_completed no_workflow : Error
  ledger : Model.Error → Error

-- The columns of models/chain_template.py, models/workflow.py, listing.py, action_listing.py and
-- catalog.py that a settlement reads. An empty text counts as none.
pub record ChainExecution : Type 0 where
  pub id : ℕ
  pub chain_template_id : ℕ
  pub workflow_execution_id : Option ℕ
  pub initiated_by : ℕ
  pub status : Status
  pub total_cost_usd : ℤ

-- A node of the graph: its type, an agent call where it has none, and the `agent_id` of its configuration.
pub record GraphNode : Type 0 where
  pub node_type : NodeType
  pub agent_id : Option ℕ

-- `graph_json`, read.
pub record ChainTemplate : Type 0 where
  pub id : ℕ
  pub graph : Dict GraphNode

-- `input_agent` is the `agent_id` of `input_json`, none where the text is no JSON.
pub record WorkflowNodeExecution : Type 0 where
  pub node_id : ℕ
  pub execution_id : ℕ
  pub node_type : NodeType
  pub status : Status
  pub input_agent : Option ℕ
  pub started_at : ℕ

-- A listing, an action listing or a catalog entry: the seller and the price in micro-dollars.
pub record Offer : Type 0 where
  pub seller_id : ℕ
  pub is_active : Bool
  pub price : Option ℤ
  pub created_at : ℕ

-- The tables that a settlement reads, the text of a node's idempotency key as a number, and the host of
-- each node's transfer.
pub record Env : Type 0 where
  pub executions : List ChainExecution
  pub templates : List ChainTemplate
  pub nodes : List WorkflowNodeExecution
  pub listings : List Offer
  pub action_listings : List Offer
  pub catalog : List Offer
  pub node_key : ℕ → ℕ → ℕ
  pub host : WorkflowNodeExecution → Host

pub record Transfer : Type 0 where
  pub node_id : ℕ
  pub agent_id : ℕ
  pub amount_usd : ℤ
  pub ledger_id : ℕ
  pub idempotency_key : Key

pub record Failure : Type 0 where
  pub node_id : ℕ
  pub agent_id : ℕ
  pub error : Model.Error

pub record Report : Type 0 where
  pub total_settled : ℤ
  pub transfers : List Transfer
  pub errors : List Failure

pub data Outcome : Type 0 where
  settled : Report → Db → Outcome
  raised : Error → Db → Outcome

-- `order_by(created_at.desc()).limit(1)`
abbrev pub newest : List Offer → Option Offer
newest [] = none
newest (o ∷ os) = elim (newest os) [
  | none ↦ some o
  | some p ↦ if leb p.created_at o.created_at then some o else some p
]

abbrev pub offered : ℕ → List Offer → Option ℤ
offered agent_id offers =
    elim (newest (select (λ (o : Offer). (o.seller_id == agent_id) && o.is_active) offers)) [
      | none ↦ none
      | some o ↦ o.price
    ]

abbrev pub price_or : Option ℤ → ℤ → ℤ
price_or (some p) q = p
price_or none q = q

unfoldable pub get_platform_price : Env → ℕ → ℤ
get_platform_price env agent_id = price_or (offered agent_id env.listings) (
    price_or (offered agent_id env.action_listings)
      (price_or (offered agent_id env.catalog) (pos 0)))

-- `order_by(started_at)`
abbrev pub insert_started :
    WorkflowNodeExecution → List WorkflowNodeExecution → List WorkflowNodeExecution
insert_started n [] = n ∷ []
insert_started n (m ∷ ms) =
    let rest = insert_started n ms in if leb n.started_at m.started_at then n ∷ m ∷ ms else m ∷ rest

abbrev pub by_started : List WorkflowNodeExecution → List WorkflowNodeExecution
by_started [] = []
by_started (n ∷ ns) = insert_started n (by_started ns)

abbrev pub get_execution_nodes : Env → ℕ → List WorkflowNodeExecution
get_execution_nodes env execution_id =
    by_started (select (λ (n : WorkflowNodeExecution). n.execution_id == execution_id) env.nodes)
