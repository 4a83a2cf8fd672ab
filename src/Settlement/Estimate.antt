-- ===== src/Settlement/Estimate.antt =====
-- `estimate_chain_cost` of marketplace/services/chain_settlement_service.py. The average is the sum and the
-- number of the costs, as the database divides them.
use agentchains.Base.{
  zero, ℕ, Bool, Option, none, some, List, [], ◌∷◌, length, Result, ok, err, ◌==◌, ◌&&◌, select,
  if◌then◌else◌,
}
use agentchains.Base.Int.{ℤ, pos}
use agentchains.Base.Dict.{Dict}
use agentchains.Base.Table.{find, sum_by}
use agentchains.Settlement.Rows.{ChainExecution, ChainTemplate, GraphNode, Env, get_platform_price}
use agentchains.Settlement.Service.{is_agent_call, is_completed}

pub data EstimateError : Type 0 where
  template_not_found : EstimateError

pub record AgentCost : Type 0 where
  pub node_id : ℕ
  pub agent_id : ℕ
  pub estimated_cost_usd : ℤ

pub record Average : Type 0 where
  pub sum : ℤ
  pub number : ℕ

pub record Estimate : Type 0 where
  pub chain_template_id : ℕ
  pub estimated_total_usd : ℤ
  pub agent_costs : List AgentCost
  pub historical_avg_usd : Option Average

abbrev pub cost_of_node : Env → ℕ → GraphNode → Option AgentCost
cost_of_node env node_id node =
    if is_agent_call node.node_type
    then elim node.agent_id [
      | none ↦ none
      | some agent_id ↦ some (record {
        node_id = node_id;
        agent_id = agent_id;
        estimated_cost_usd = get_platform_price env agent_id;
      })
    ]
    else none

abbrev pub with_cost : Option AgentCost → List AgentCost → List AgentCost
with_cost none costs = costs
with_cost (some c) costs = c ∷ costs

-- The loop over the nodes of the graph.
unfoldable pub agent_costs : Env → Dict GraphNode → List AgentCost
agent_costs env [] = []
agent_costs env ((node_id, node) ∷ nodes) =
    with_cost (cost_of_node env node_id node) (agent_costs env nodes)

abbrev pub cost_of_agent : AgentCost → ℤ
cost_of_agent c = c.estimated_cost_usd

abbrev pub cost_of_execution : ChainExecution → ℤ
cost_of_execution e = e.total_cost_usd

-- `if historical_avg`: an average of zero counts as none.
abbrev pub average : List ChainExecution → Option Average
average executions = elim (sum_by cost_of_execution executions) [
  | pos zero ↦ none
  | sum ↦ some (record { sum = sum; number = length executions })
]

abbrev pub is_past_run : ℕ → ChainExecution → Bool
is_past_run template_id e = (e.chain_template_id == template_id) && is_completed e.status

unfoldable pub estimate_chain_cost : Env → ℕ → Result EstimateError Estimate
unfolding agent_costs get_platform_price
estimate_chain_cost env template_id =
    elim (find (λ (t : ChainTemplate). t.id == template_id) env.templates) [
      | none ↦ err template_not_found
      | some t ↦ ok (record {
        chain_template_id = template_id;
        estimated_total_usd = sum_by cost_of_agent (agent_costs env t.graph);
        agent_costs = agent_costs env t.graph;
        historical_avg_usd = average (select (is_past_run template_id) env.executions);
      })
    ]
