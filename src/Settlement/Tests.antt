-- ===== src/Settlement/Tests.antt =====
-- A chain of two agents that is settled, and the theorems about it.
use agentchains.Base.Table.{sum_by}
use agentchains.Base.{ok, length, ℕ, ◌+◌, ◌≡◌, refl, true, Option, none, some, [], ◌∷◌, map}
use agentchains.Base.Int.{pos, ◌+ℤ◌, ◌-ℤ◌, ◌*ℤ◌}
use agentchains.Ledger.Decimal.{to_decimal}
use agentchains.Ledger.Model.{TokenAccount, Db, Host}
use agentchains.Ledger.Transfer.{transfer}
use agentchains.Workflow.Execution.{NodeType, Status}
use agentchains.Settlement.Rows.{
  Env, ChainExecution, WorkflowNodeExecution, Offer, Report, Outcome, get_platform_price,
  get_execution_nodes,
}
use agentchains.Settlement.Service.{settle_chain_execution}
use agentchains.Settlement.Payments.{db_of}
use agentchains.Settlement.Again.{settle_again}
use agentchains.Settlement.Estimate.{estimate_chain_cost}
use agentchains.Settlement.Summary.{get_settlement_report}
use agentchains.Settlement.AddsUp.{Grows, settle_adds_up}
use agentchains.Settlement.Reports.{Accounts, payable, settle_reports}

abbrev account : ℕ → Option ℕ → ℕ → TokenAccount
account id agent balance = record {
  id = id;
  agent_id = agent;
  creator_id = none;
  balance = pos balance;
  total_deposited = pos 0;
  total_earned = pos 0;
  total_spent = pos 0;
  total_fees_paid = pos 0;
  updated_at = 0;
}

-- The treasury, the initiator with ten dollars and two agents.
abbrev market : Db
market = record {
  accounts =
      account 1 none 0
      ∷ account 2 (some 10) 10000000
      ∷ account 3 (some 20) 0
      ∷ account 4 (some 30) 0
      ∷ [];
  ledger = [];
  agents = [];
}

abbrev host : ℕ → WorkflowNodeExecution → Host
host run n = record {
  platform_fee_pct = record { coeff = pos 2; places = 2 };
  creator_royalty_pct = record { coeff = pos 10; places = 1 };
  sha256 = λ fields. 77;
  new_id = run + n.node_id;
  royalty_id = 101;
  now = run;
  created_at = run;
  royalty_created_at = run;
}

abbrev ran : ℕ → Option ℕ → ℕ → WorkflowNodeExecution
ran id agent started = record {
  node_id = id;
  execution_id = 7;
  node_type = NodeType.agent_call;
  status = Status.completed;
  input_agent = agent;
  started_at = started;
}

abbrev offer : ℕ → ℕ → ℕ → Offer
offer seller price created = record {
  seller_id = seller;
  is_active = true;
  price = some (pos price);
  created_at = created;
}

abbrev chain : ChainExecution
chain = record {
  id = 5;
  chain_template_id = 6;
  workflow_execution_id = some 7;
  initiated_by = 10;
  status = Status.completed;
  total_cost_usd = pos 1250000;
}

-- The first node's agent is in its input, the second's in the graph.
abbrev env : Env
env = record {
  executions = chain ∷ [];
  templates =
      record {
        id = 6;
        graph = (2, record { node_type = NodeType.agent_call; agent_id = some 30 }) ∷ [];
      }
      ∷ [];
  nodes = ran 2 none 40 ∷ ran 1 (some 20) 30 ∷ [];
  listings = offer 20 500000 1 ∷ offer 20 1000000 2 ∷ [];
  action_listings = offer 30 250000 1 ∷ [];
  catalog = [];
  node_key = λ id n. id + n;
  host = host 100;
}

outcome : Outcome
outcome = settle_chain_execution env 5 market

abbrev report_of : Outcome → Report
report_of (Outcome.settled rep db) = rep
report_of (Outcome.raised e db) = record { total_settled = pos 0; transfers = []; errors = [] }

-- The newest listing of the first agent counts, and each pays two per cent.
balances_after :
    map (λ (a : TokenAccount). a.balance) (db_of outcome).accounts
    ≡ pos 25000 ∷ pos 8750000 ∷ pos 980000 ∷ pos 245000 ∷ []
unfolding outcome settle_chain_execution get_platform_price transfer to_decimal ◌+ℤ◌ ◌-ℤ◌ ◌*ℤ◌
balances_after = refl

settle_again_example :
    settle_chain_execution (record env { host = host 200 }) 5 (db_of outcome)
    ≡ Outcome.settled (report_of outcome) (db_of outcome)
unfolding outcome settle_chain_execution get_platform_price transfer to_decimal ◌+ℤ◌ ◌-ℤ◌ ◌*ℤ◌
settle_again_example =
    settle_again env (host 200) 5 (report_of outcome) market (db_of outcome) refl refl

settle_reports_example :
    Accounts (payable env chain (get_execution_nodes env 7)) (report_of outcome)
unfolding outcome settle_chain_execution get_platform_price transfer to_decimal ◌+ℤ◌ ◌-ℤ◌ ◌*ℤ◌
settle_reports_example =
    settle_reports env 5 7 chain (report_of outcome) market (db_of outcome) refl refl refl

settle_adds_up_example :
    Grows
      (get_settlement_report env 5 market)
      (get_settlement_report env 5 (db_of outcome))
      (report_of outcome).total_settled
      (length (report_of outcome).transfers)
unfolding outcome settle_chain_execution get_platform_price transfer to_decimal ◌+ℤ◌ ◌-ℤ◌ ◌*ℤ◌
settle_adds_up_example =
    settle_adds_up env 5 7 chain (report_of outcome) market (db_of outcome) refl refl
      (refl, (refl, tt), (refl, tt, tt)) refl

-- The graph has the second node only; the execution's own cost is the average.
estimated :
    estimate_chain_cost env 6
    ≡ ok (record {
      chain_template_id = 6;
      estimated_total_usd = pos 250000;
      agent_costs = record { node_id = 2; agent_id = 30; estimated_cost_usd = pos 250000 } ∷ [];
      historical_avg_usd = some (record { sum = pos 1250000; number = 1 });
    })
unfolding estimate_chain_cost get_platform_price sum_by ◌+ℤ◌
estimated = refl
