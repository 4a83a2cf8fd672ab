-- ===== src/Settlement/Summary.antt =====
-- `get_settlement_report` of marketplace/services/chain_settlement_service.py. The texts of memos are left
-- out, and amounts are micro-dollars.
use agentchains.Base.{
  ℕ, Bool, false, Option, none, some, List, map, Result, ok, err, ◌==◌, ◌==?◌, ◌&&◌, select,
}
use agentchains.Base.Int.{ℤ}
use agentchains.Base.Table.{sum_by}
use agentchains.Ledger.Model.{TokenLedger, Db, TxType, Key}
use agentchains.Workflow.Execution.{Status}
use agentchains.Settlement.Rows.{Error, execution_not_found, ChainExecution, Env}
use agentchains.Settlement.Service.{execution_row}

-- `tx_type == "chain_settlement"`, of which the number is 0.
abbrev pub is_settlement_type : TxType → Bool
is_settlement_type (TxType.other n) = n == 0
is_settlement_type _ = false

abbrev pub is_settlement_of : ℕ → TokenLedger → Bool
is_settlement_of id e = (e.reference_id ==? some id) && is_settlement_type e.tx_type

abbrev pub settlement_entries : ℕ → Db → List TokenLedger
settlement_entries id db = select (is_settlement_of id) db.ledger

pub record Payment : Type 0 where
  pub ledger_id : ℕ
  pub amount_usd : ℤ
  pub fee_usd : ℤ
  pub idempotency_key : Option Key
  pub created_at : ℕ

abbrev pub payment_of : TokenLedger → Payment
payment_of e = record {
  ledger_id = e.id;
  amount_usd = e.amount;
  fee_usd = e.fee_amount;
  idempotency_key = e.idempotency_key;
  created_at = e.created_at;
}

pub record SettlementReport : Type 0 where
  pub chain_execution_id : ℕ
  pub execution_status : Status
  pub total_paid_usd : ℤ
  pub total_fees_usd : ℤ
  pub payments : List Payment

abbrev pub entry_amount : TokenLedger → ℤ
entry_amount e = e.amount

abbrev pub entry_fee : TokenLedger → ℤ
entry_fee e = e.fee_amount

abbrev pub report_on : ChainExecution → ℕ → Db → SettlementReport
report_on exec id db =
    let entries = settlement_entries id db in
    record {
      chain_execution_id = id;
      execution_status = exec.status;
      total_paid_usd = sum_by entry_amount entries;
      total_fees_usd = sum_by entry_fee entries;
      payments = map payment_of entries;
    }

unfoldable pub get_settlement_report : Env → ℕ → Db → Result Error SettlementReport
get_settlement_report env id db = elim (execution_row env id) [
  | none ↦ err execution_not_found
  | some exec ↦ ok (report_on exec id db)
]
