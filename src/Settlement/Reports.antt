-- ===== src/Settlement/Reports.antt =====
-- What the report of a settlement tells: every payable node, paid or failed, and the sum of the payments.
use mathlib.Core.Path.{subst}
use agentchains.Base.{
  ℕ, ◌+◌, ◌≡◌, refl, ap, ◌∙◌, Bool, true, false, Option, none, some, List, [], ◌∷◌, ◌++◌, map,
  Result, ok, err, arith, count, count-append, append_end, append_nil, sym,
}
use agentchains.Base.Int.{ℤ, ◌+ℤ◌, int_laws}
use agentchains.Base.Table.{sum_by}
use agentchains.Ledger.Model.{TokenLedger, Db}
use agentchains.Ledger.Model
use agentchains.Settlement.Rows.{
  Env, ChainExecution, WorkflowNodeExecution, Report, Transfer, Failure, Outcome,
  get_execution_nodes, get_platform_price,
}
use agentchains.Settlement.Service.{
  caught, transferred, settle_node, settle_nodes, settle_chain_execution, payment, is_value_error,
  is_completed, empty_report, idempotency_key, settle_workflow, settle_if, settle_row,
  execution_row, add_error, add_transfer,
}
use agentchains.Settlement.Again.{Settles, Settles-mono}

-- The node, if the loop does not pass over it.
abbrev pub due : ℕ → Option (ℕ × ℤ) → List ℕ → List ℕ
due node_id none rest = rest
due node_id (some p) rest = node_id ∷ rest

abbrev pub payable : Env → ChainExecution → List WorkflowNodeExecution → List ℕ
payable env exec [] = []
payable env exec (n ∷ ns) = due n.node_id (payment env exec n) (payable env exec ns)

abbrev pub paid_nodes : Report → List ℕ
paid_nodes rep = map (λ (t : Transfer). t.node_id) rep.transfers

abbrev pub failed_nodes : Report → List ℕ
failed_nodes rep = map (λ (f : Failure). f.node_id) rep.errors

abbrev pub amount_of : Transfer → ℤ
amount_of t = t.amount_usd

-- A node stands among the paid and the failed ones as often as among those.
abbrev pub Accounts : List ℕ → Report → Type 0
Accounts nodes rep =
    (rep.total_settled ≡ sum_by amount_of rep.transfers)
    × ((v : ℕ) → count v (paid_nodes rep) + count v (failed_nodes rep) ≡ count v nodes)

sum_by-end :
    (ts : List Transfer) (t : Transfer)
    → sum_by amount_of (ts ++ t ∷ []) ≡ sum_by amount_of ts +ℤ t.amount_usd
unfolding sum_by
sum_by-end [] t = omega int_laws
sum_by-end (x ∷ ts) t = rw (sum_by-end ts t) (omega int_laws)

count_paid_end :
    (v : ℕ) (ts : List Transfer) (t : Transfer)
    → count v (map (λ (x : Transfer). x.node_id) (ts ++ t ∷ []))
      ≡ count v (map (λ (x : Transfer). x.node_id) ts) + count v (t.node_id ∷ [])
count_paid_end v [] t = omega arith
count_paid_end v (x ∷ ts) t = ground (arith, count_paid_end v ts t)

count_failed_end :
    (v : ℕ) (ts : List Failure) (t : Failure)
    → count v (map (λ (x : Failure). x.node_id) (ts ++ t ∷ []))
      ≡ count v (map (λ (x : Failure). x.node_id) ts) + count v (t.node_id ∷ [])
count_failed_end v [] t = omega arith
count_failed_end v (x ∷ ts) t = ground (arith, count_failed_end v ts t)

-- The nodes of the report so far, and those that the loop has still to come to.
abbrev Continues : List ℕ → Report → Report → Db → Type 0
Continues nodes rep rep' db' = (seen : List ℕ) → Accounts seen rep → Accounts (seen ++ nodes) rep'

module _ (env : Env) (exec : ChainExecution) (n : WorkflowNodeExecution) (nodes : List ℕ)
    (next : Report → Db → Outcome)
    (later : (rep : Report) (db : Db) → Settles (Continues nodes rep) (next rep db)) where
  caught-Continues :
      (b : Bool) (agent_id : ℕ) (e : Model.Error) (rep : Report) (db : Db)
      → Settles (Continues (n.node_id ∷ nodes) rep) (caught env exec n next b agent_id e rep db)
  caught-Continues true agent_id e rep db =
      Settles-mono (Continues nodes (add_error n agent_id e rep))
        (Continues (n.node_id ∷ nodes) rep) (λ _. Unit)
        (λ rep' d c _ seen (sums, counts).
          subst (λ l. Accounts l rep') (append_end seen n.node_id nodes)
            (c (seen ++ n.node_id ∷ []) (
              sums,
              λ v. omega (
                arith,
                counts v,
                count_failed_end v rep.errors
                    (record { node_id = n.node_id; agent_id = agent_id; error = e }),
                count-append v seen (n.node_id ∷ []),
              ),
            )))
        _ (later _ db) tt
  caught-Continues false agent_id e rep db = tt

  transferred-Continues :
      (agent_id : ℕ) (price : ℤ) (rep : Report) (db : Db)
      (r : Result Model.Error (TokenLedger × Db))
      → Settles
          (Continues (n.node_id ∷ nodes) rep)
          (transferred env exec n next agent_id price rep db r)
  transferred-Continues agent_id price rep db (ok (entry, d)) =
      Settles-mono (Continues nodes (add_transfer env exec n agent_id price entry rep))
        (Continues (n.node_id ∷ nodes) rep) (λ _. Unit)
        (λ rep' d' c _ seen (sums, counts).
          let t : Transfer = record {
            node_id = n.node_id;
            agent_id = agent_id;
            amount_usd = price;
            ledger_id = entry.id;
            idempotency_key = idempotency_key env exec n;
          } in
          subst (λ l. Accounts l rep') (append_end seen n.node_id nodes)
            (c (seen ++ n.node_id ∷ []) (
              ap (λ z. z +ℤ price) sums ∙ sym (sum_by-end rep.transfers t),
              λ v. omega (
                arith,
                counts v,
                count_paid_end v rep.transfers t,
                count-append v seen (n.node_id ∷ []),
              ),
            )))
        _ (later _ d) tt
  transferred-Continues agent_id price rep db (err e) =
      caught-Continues (is_value_error e) agent_id e rep db

  node_Continues :
      (p : Option (ℕ × ℤ)) (rep : Report) (db : Db)
      → Settles (Continues (due n.node_id p nodes) rep) (settle_node env exec n next p rep db)
  node_Continues none rep db = later rep db
  node_Continues (some (agent_id, price)) rep db = transferred-Continues agent_id price rep db _

nodes_Continues :
    (env : Env) (exec : ChainExecution) (ns : List WorkflowNodeExecution) (rep : Report) (db : Db)
    → Settles (Continues (payable env exec ns) rep) (settle_nodes env exec ns rep db)
unfolding settle_nodes payment get_platform_price
nodes_Continues env exec [] rep db = λ seen h. subst (λ l. Accounts l rep) (append_nil seen) h
nodes_Continues env exec (n ∷ ns) rep db =
    node_Continues env exec n (payable env exec ns) (settle_nodes env exec ns)
      (nodes_Continues env exec ns) (payment env exec n) rep db

nothing_yet : Accounts [] empty_report
unfolding sum_by
nothing_yet = (refl, λ v. refl)

-- What the report says, for the execution and its workflow.
abbrev Reported : Env → ChainExecution → ℕ → Report → Db → Type 0
Reported env exec w rep db = Accounts (payable env exec (get_execution_nodes env w)) rep

workflow_Reported :
    (env : Env) (exec : ChainExecution) (w : ℕ) (o : Option ℕ) (db : Db)
    → o ≡ some w
    → Settles (Reported env exec w) (settle_workflow env exec o db)
workflow_Reported env exec w o db e =
    subst (λ p. Settles (Reported env exec w) (settle_workflow env exec p db)) (sym e)
      (Settles-mono (Continues _ empty_report) (Reported env exec w) (λ _. Unit)
        (λ rep d c _. c [] nothing_yet) _
        (nodes_Continues env exec (get_execution_nodes env w) empty_report db) tt)

if_Reported :
    (env : Env) (exec : ChainExecution) (w : ℕ) (b : Bool) (db : Db)
    → exec.workflow_execution_id ≡ some w
    → Settles (Reported env exec w) (settle_if b env exec db)
if_Reported env exec w true db e = workflow_Reported env exec w exec.workflow_execution_id db e
if_Reported env exec w false db e = tt

-- A settlement that ends with a report names in it every node of the execution that has a payable agent call
-- as often as it ran, once among the transfers or once among the errors and no other node, and reports as
-- total the sum of the transfers' amounts: one node's failure neither hides nor repeats another's payment.
pub settle_reports :
    (env : Env) (id w : ℕ) (exec : ChainExecution) (rep : Report) (db db' : Db)
    → execution_row env id ≡ some exec
    → exec.workflow_execution_id ≡ some w
    → settle_chain_execution env id db ≡ Outcome.settled rep db'
    → Accounts (payable env exec (get_execution_nodes env w)) rep
unfolding settle_chain_execution
settle_reports env id w exec rep db db' row flow h =
    subst (Settles (Reported env exec w)) (ap (λ r. settle_row env r db) (sym row) ∙ h)
      (if_Reported env exec w (is_completed exec.status) db flow)
