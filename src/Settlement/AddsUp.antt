-- ===== src/Settlement/AddsUp.antt =====
-- The report of a first settlement and the report on the ledger say the same.
use mathlib.Core.Path.{subst}
use agentchains.Base.{
  ℕ, ◌+◌, ◌≡◌, ◌==◌, ==→eq, refl, sym, ap, ◌∙◌, Bool, true, false, Option, some, List, [], ◌∷◌, map,
  Result, ok, arith, length,
}
use agentchains.Base.Int.{ℤ, ◌+ℤ◌, int_laws}
use agentchains.Base.Table.{find_holds, sum_by}
use agentchains.Ledger.Model.{TokenLedger, Db}
use agentchains.Settlement.Rows.{Error, Env, ChainExecution, Report, Outcome, get_execution_nodes}
use agentchains.Settlement.Service.{
  settle_chain_execution, is_completed, empty_report, settle_workflow, settle_if, settle_row,
  execution_row,
}
use agentchains.Settlement.Again.{Settles}
use agentchains.Settlement.Summary.{
  settlement_entries, entry_amount, payment_of, SettlementReport, report_on, get_settlement_report,
}
use agentchains.Settlement.Gains.{Unpaid, Adds, nodes_Adds}

workflow_Adds :
    (env : Env) (exec : ChainExecution) (w : ℕ) (o : Option ℕ) (db : Db)
    → o ≡ some w
    → Unpaid env exec (get_execution_nodes env w) db
    → Settles (Adds exec.id db empty_report) (settle_workflow env exec o db)
workflow_Adds env exec w o db flow new =
    rw flow (nodes_Adds env exec (get_execution_nodes env w) empty_report db new)

if_Adds :
    (env : Env) (exec : ChainExecution) (w : ℕ) (b : Bool) (db : Db)
    → exec.workflow_execution_id ≡ some w
    → Unpaid env exec (get_execution_nodes env w) db
    → Settles (Adds exec.id db empty_report) (settle_if b env exec db)
if_Adds env exec w true db flow new =
    workflow_Adds env exec w exec.workflow_execution_id db flow new
if_Adds env exec w false db flow new = tt

-- The report on an execution before its settlement and the one after it, which has so much more.
abbrev pub Grows : Result Error SettlementReport → Result Error SettlementReport → ℤ → ℕ → Type 0
Grows before after amount payments =
    (b a : SettlementReport) × (before ≡ ok b)
    × (after ≡ ok a)
    × (a.total_paid_usd ≡ b.total_paid_usd +ℤ amount)
    × (length a.payments ≡ length b.payments + payments)

-- The first settlement of an execution that ends with a report, with or without failed nodes, adds to the
-- report on the ledger exactly what its own report tells: the sum of the payments and their number. First
-- means that the nodes' idempotency keys are distinct and that no entry of the ledger has one of them.
pub settle_adds_up :
    (env : Env) (id w : ℕ) (exec : ChainExecution) (rep : Report) (db db' : Db)
    → execution_row env id ≡ some exec
    → exec.workflow_execution_id ≡ some w
    → Unpaid env exec (get_execution_nodes env w) db
    → settle_chain_execution env id db ≡ Outcome.settled rep db'
    → Grows
        (get_settlement_report env id db)
        (get_settlement_report env id db')
        rep.total_settled
        (length rep.transfers)
unfolding settle_chain_execution get_settlement_report
settle_adds_up env id w exec rep db db' row flow new h =
    let own : exec.id ≡ id =
      ==→eq exec.id id (find_holds (λ (e : ChainExecution). e.id == id) env.executions exec row) in
    let a =
      subst (Settles (Adds exec.id db empty_report)) (ap (λ r. settle_row env r db) (sym row) ∙ h)
        (if_Adds env exec w (is_completed exec.status) db flow new) in
    let whole = subst (λ i. Adds i db empty_report rep db') own a in
    (
      report_on exec id db,
      report_on exec id db',
      rw (row, get_settlement_report) refl,
      rw (row, get_settlement_report) refl,
      summed whole,
      omega (
        arith,
        whole.count,
        length-payments (settlement_entries id db),
        length-payments (settlement_entries id db'),
      ),
    )
  where
    summed :
        Adds id db empty_report rep db'
        → sum_by entry_amount (settlement_entries id db')
          ≡ sum_by entry_amount (settlement_entries id db) +ℤ rep.total_settled
    summed a = rw (a.paid, a.told) (omega int_laws)

    length-payments : (es : List TokenLedger) → length (map payment_of es) ≡ length es
    length-payments [] = refl
    length-payments (e ∷ es) = omega (arith, length-payments es)
