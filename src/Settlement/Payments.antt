-- ===== src/Settlement/Payments.antt =====
-- What every transfer keeps, the settlement keeps, also where it raises.
use agentchains.Base.{
  ℕ, Bool, true, false, Option, none, some, List, [], ◌∷◌, Result, ok, err, Ensures,
}
use agentchains.Base.Int.{ℤ}
use agentchains.Ledger.Model.{TokenLedger, Db, Host}
use agentchains.Ledger.Model
use agentchains.Ledger.Transfer.{Request, transfer}
use agentchains.Settlement.Rows.{Env, ChainExecution, WorkflowNodeExecution, Report, Outcome}
use agentchains.Settlement.Service.{
  caught, transferred, settle_node, settle_nodes, settle_chain_execution, payment,
  settlement_request, is_value_error, is_completed, empty_report, settle_workflow, settle_if,
  settle_row, execution_row,
}

-- The database that a settlement leaves.
abbrev pub db_of : Outcome → Db
db_of (Outcome.settled rep db) = db
db_of (Outcome.raised e db) = db

module _ (R : Db → Type 0)
    (keep : (host : Host) (req : Request) (db : Db)
      → R db
      → Ensures (λ _ d. R d) (transfer host req db)) where
  transferred_keeps :
      (env : Env) (exec : ChainExecution) (n : WorkflowNodeExecution) (next : Report → Db → Outcome)
      → ((rep : Report) (db : Db) → R db → R (db_of (next rep db)))
      → (agent_id : ℕ) (price : ℤ) (rep : Report) (db : Db)
        (r : Result Model.Error (TokenLedger × Db))
      → R db
      → Ensures (λ _ d. R d) r
      → R (db_of (transferred env exec n next agent_id price rep db r))
  transferred_keeps env exec n next later agent_id price rep db (ok (entry, db')) h h' =
      later _ db' h'
  transferred_keeps env exec n next later agent_id price rep db (err e) h h' =
      failed (is_value_error e)
    where
      failed : (b : Bool) → R (db_of (caught env exec n next b agent_id e rep db))
      failed true = later _ db h
      failed false = h

  settle_node_keeps :
      (env : Env) (exec : ChainExecution) (n : WorkflowNodeExecution) (next : Report → Db → Outcome)
      → ((rep : Report) (db : Db) → R db → R (db_of (next rep db)))
      → (p : Option (ℕ × ℤ)) (rep : Report) (db : Db) → R db
      → R (db_of (settle_node env exec n next p rep db))
  settle_node_keeps env exec n next later none rep db h = later rep db h
  settle_node_keeps env exec n next later (some (agent_id, price)) rep db h =
      transferred_keeps env exec n next later agent_id price rep db _ h
        (keep (env.host n) (settlement_request env exec n agent_id price) db h)

  pub settle_nodes_keeps :
      (env : Env) (exec : ChainExecution) (ns : List WorkflowNodeExecution) (rep : Report) (db : Db)
      → R db
      → R (db_of (settle_nodes env exec ns rep db))
  unfolding settle_nodes
  settle_nodes_keeps env exec [] rep db h = h
  settle_nodes_keeps env exec (n ∷ ns) rep db h =
      settle_node_keeps env exec n (settle_nodes env exec ns) (settle_nodes_keeps env exec ns)
        (payment env exec n) rep db h

  settle_workflow_keeps :
      (env : Env) (exec : ChainExecution) (w : Option ℕ) (db : Db)
      → R db
      → R (db_of (settle_workflow env exec w db))
  settle_workflow_keeps env exec none db h = h
  settle_workflow_keeps env exec (some w) db h = settle_nodes_keeps env exec _ empty_report db h

  settle_if_keeps :
      (b : Bool) (env : Env) (exec : ChainExecution) (db : Db)
      → R db
      → R (db_of (settle_if b env exec db))
  settle_if_keeps true env exec db h =
      settle_workflow_keeps env exec exec.workflow_execution_id db h
  settle_if_keeps false env exec db h = h

  settle_row_keeps :
      (env : Env) (row : Option ChainExecution) (db : Db) → R db → R (db_of (settle_row env row db))
  settle_row_keeps env none db h = h
  settle_row_keeps env (some exec) db h = settle_if_keeps (is_completed exec.status) env exec db h

  pub settle_keeps :
      (env : Env) (id : ℕ) (db : Db) → R db → R (db_of (settle_chain_execution env id db))
  unfolding settle_chain_execution
  settle_keeps env id db h = settle_row_keeps env (execution_row env id) db h
