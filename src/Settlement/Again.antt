-- ===== src/Settlement/Again.antt =====
-- A settlement that is asked for again: every transfer is found by its key.
use mathlib.Core.Path.{subst}
use agentchains.Base.{
  ℕ, ◌≡◌, refl, ap, ◌∙◌, Bool, true, false, Option, none, some, List, [], ◌∷◌, ◌++◌, Result, ok,
  err, Ensures, arith,
}
use agentchains.Base.Int.{ℤ}
use agentchains.Ledger.Model.{TokenLedger, Db, Host, Key}
use agentchains.Ledger.Model
use agentchains.Ledger.Transfer.{transfer}
use agentchains.Ledger.Replay.{Finds, Replayable, transfer-Replayable, transfer_of_Replayable}
use agentchains.Ledger.Persist.{transfer-Finds}
use agentchains.Settlement.Rows.{
  Env, ChainExecution, WorkflowNodeExecution, Report, Failure, Outcome, get_platform_price,
  get_execution_nodes,
}
use agentchains.Settlement.Service.{
  caught, transferred, settle_node, settle_nodes, settle_chain_execution, payment,
  settlement_request, is_value_error, is_completed, empty_report, add_error, add_transfer,
  settle_workflow, settle_if, settle_row, execution_row, idempotency_key,
}
use agentchains.Settlement.Payments.{db_of, settle_nodes_keeps}

-- What holds of the report and the database, if the settlement ends with one.
abbrev pub Settles : (Report → Db → Type 0) → Outcome → Type 0
Settles P (Outcome.settled rep db) = P rep db
Settles P (Outcome.raised e db) = Unit

pub Settles-mono :
    (P Q : Report → Db → Type 0) (R : Db → Type 0)
    → ((rep : Report) (db : Db) → P rep db → R db → Q rep db)
    → (o : Outcome) → Settles P o
    → R (db_of o)
    → Settles Q o
Settles-mono P Q R k (Outcome.settled rep db) p r = k rep db p r
Settles-mono P Q R k (Outcome.raised e db) p r = tt

not_empty : (xs : List Failure) (y : Failure) → xs ++ y ∷ [] ≡ [] → ⊥
not_empty [] y h = ground (arith, h)
not_empty (x ∷ xs) y h = ground (arith, h)

-- An error of the report stays.
abbrev Clean : Report → Report → Db → Type 0
Clean rep rep' db' = rep'.errors ≡ [] → rep.errors ≡ []

module _ (env : Env) (exec : ChainExecution) where
  node_Clean :
      (n : WorkflowNodeExecution) (next : Report → Db → Outcome)
      → ((rep : Report) (db : Db) → Settles (Clean rep) (next rep db))
      → (p : Option (ℕ × ℤ)) (rep : Report) (db : Db)
      → Settles (Clean rep) (settle_node env exec n next p rep db)
  node_Clean n next later none rep db = later rep db
  node_Clean n next later (some (agent_id, price)) rep db =
      paid (transfer (env.host n) (settlement_request env exec n agent_id price) db)
    where
      failed :
          (b : Bool) (e : Model.Error)
          → Settles (Clean rep) (caught env exec n next b agent_id e rep db)
      failed true e =
          Settles-mono (Clean (add_error n agent_id e rep)) (Clean rep) (λ _. Unit)
            (λ rep' d c _ h. absurd (not_empty _ _ (c h))) _ (later _ db) tt
      failed false e = tt

      paid :
          (r : Result Model.Error (TokenLedger × Db))
          → Settles (Clean rep) (transferred env exec n next agent_id price rep db r)
      paid (ok (entry, d)) = later _ d
      paid (err e) = failed (is_value_error e) e

  nodes_Clean :
      (ns : List WorkflowNodeExecution) (rep : Report) (db : Db)
      → Settles (Clean rep) (settle_nodes env exec ns rep db)
  unfolding settle_nodes
  nodes_Clean [] rep db = λ h. h
  nodes_Clean (n ∷ ns) rep db =
      node_Clean n (settle_nodes env exec ns) (nodes_Clean ns) (payment env exec n) rep db

-- Run again from the database that it left, the rest of the loop ends with the same report and database.
abbrev Repeats : (Report → Db → Outcome) → Report → Report → Db → Type 0
Repeats again rep rep' db' = rep'.errors ≡ [] → again rep db' ≡ Outcome.settled rep' db'

abbrev rehosted : Env → (WorkflowNodeExecution → Host) → Env
rehosted env host = record env { host = host }

module _ (env : Env) (host : WorkflowNodeExecution → Host) (exec : ChainExecution) where
  module _ (n : WorkflowNodeExecution) (next again : Report → Db → Outcome)
      (clean : (rep : Report) (db : Db) → Settles (Clean rep) (next rep db))
      (kept : (k : Key) (e : TokenLedger) (rep : Report) (db : Db)
        → Finds k e db
        → Finds k e (db_of (next rep db)))
      (later : (rep : Report) (db : Db) → Settles (Repeats again rep) (next rep db)) where
    caught-Repeats :
        (b : Bool) (agent_id : ℕ) (price : ℤ) (e : Model.Error) (rep : Report) (db : Db)
        → Settles
            (Repeats (settle_node (rehosted env host) exec n again (some (agent_id, price))) rep)
            (caught env exec n next b agent_id e rep db)
    caught-Repeats true agent_id price e rep db =
        Settles-mono (Clean (add_error n agent_id e rep)) _ (λ _. Unit)
          (λ rep' d c _ h. absurd (not_empty _ _ (c h))) _ (clean _ db) tt
    caught-Repeats false agent_id price e rep db = tt

    transferred-Repeats :
        (agent_id : ℕ) (price : ℤ) (rep : Report) (db : Db)
        (r : Result Model.Error (TokenLedger × Db))
        → Ensures
            (Replayable (settlement_request env exec n agent_id price) (idempotency_key env exec n))
            r
        → Settles
            (Repeats (settle_node (rehosted env host) exec n again (some (agent_id, price))) rep)
            (transferred env exec n next agent_id price rep db r)
    transferred-Repeats agent_id price rep db (ok (entry, d)) (positive, found) =
        Settles-mono (Repeats again (add_transfer env exec n agent_id price entry rep)) _
          (Finds (idempotency_key env exec n) entry)
          (λ rep' d' repeated there h.
            ap (transferred (rehosted env host) exec n again agent_id price rep d') (
              transfer_of_Replayable (host n) (settlement_request env exec n agent_id price)
                (idempotency_key env exec n) d' entry refl (positive, there))
            ∙ repeated h)
          _ (later _ d) (kept (idempotency_key env exec n) entry _ d found)
    transferred-Repeats agent_id price rep db (err e) h =
        caught-Repeats (is_value_error e) agent_id price e rep db

    node_Repeats :
        (p : Option (ℕ × ℤ)) (rep : Report) (db : Db)
        → Settles
            (Repeats (settle_node (rehosted env host) exec n again p) rep)
            (settle_node env exec n next p rep db)
    node_Repeats none rep db = later rep db
    node_Repeats (some (agent_id, price)) rep db = transferred-Repeats agent_id price rep db _ (
        transfer-Replayable (env.host n) (settlement_request env exec n agent_id price)
          (idempotency_key env exec n) db refl)

  nodes_Repeats :
      (ns : List WorkflowNodeExecution) (rep : Report) (db : Db)
      → Settles
          (Repeats (settle_nodes (rehosted env host) exec ns) rep)
          (settle_nodes env exec ns rep db)
  unfolding settle_nodes payment get_platform_price
  nodes_Repeats [] rep db = λ h. refl
  nodes_Repeats (n ∷ ns) rep db =
      node_Repeats n (settle_nodes env exec ns) (settle_nodes (rehosted env host) exec ns)
        (nodes_Clean env exec ns)
        (λ k e rep' db' found.
          settle_nodes_keeps (Finds k e) (λ host' req d h. transfer-Finds host' req k e d h) env
            exec ns rep' db' found)
        (nodes_Repeats ns) (payment env exec n) rep db

  workflow_Repeats :
      (w : Option ℕ) (db : Db)
      → Settles
          (λ rep' db'.
            rep'.errors ≡ []
            → settle_workflow (rehosted env host) exec w db' ≡ Outcome.settled rep' db')
          (settle_workflow env exec w db)
  workflow_Repeats none db = tt
  workflow_Repeats (some w) db = nodes_Repeats (get_execution_nodes env w) empty_report db

row_Repeats :
    (env : Env) (host : WorkflowNodeExecution → Host) (row : Option ChainExecution) (db : Db)
    → Settles
        (λ rep' db'.
          rep'.errors ≡ [] → settle_row (rehosted env host) row db' ≡ Outcome.settled rep' db')
        (settle_row env row db)
row_Repeats env host none db = tt
row_Repeats env host (some exec) db = checked (is_completed exec.status)
  where
    checked :
        (b : Bool)
        → Settles
            (λ rep' db'.
              rep'.errors ≡ []
              → settle_if b (rehosted env host) exec db' ≡ Outcome.settled rep' db')
            (settle_if b env exec db)
    checked true = workflow_Repeats env host exec exec.workflow_execution_id db
    checked false = tt

-- A settlement that ended with a report without errors, asked for again on the same rows and prices, pays
-- nobody twice: it ends with the same report and leaves the database as it is, whatever the settings, the
-- clock and the fresh ids have become.
pub settle_again :
    (env : Env) (host : WorkflowNodeExecution → Host) (id : ℕ) (rep : Report) (db db' : Db)
    → settle_chain_execution env id db ≡ Outcome.settled rep db'
    → rep.errors ≡ []
    → settle_chain_execution (record env { host = host }) id db' ≡ Outcome.settled rep db'
unfolding settle_chain_execution
settle_again env host id rep db db' h fine =
    subst
      (Settles (λ r d.
        r.errors ≡ []
        → settle_row (rehosted env host) (execution_row env id) d ≡ Outcome.settled r d))
      h (row_Repeats env host (execution_row env id) db) fine
