-- ===== src/Redemption/Service.antt =====
-- The processors of marketplace/services/redemption_service.py, and the parts of its other operations.
-- A broadcast, a log line and the dictionary form of the answer are left out: a call answers with the row.
use agentchains.Base.{
  ℕ, ◌/◌, suc, Option, none, some, ◌∷◌, ◌==◌, Action, modify, pure, or_raise, ◌>>=◌, ◌>>◌,
}
use agentchains.Ledger.Decimal.{Decimal, micros}
use agentchains.Redemption.Amount.{plus, minus}
use agentchains.Base.Int.{ℤ, pos, negsuc, ◌+ℤ◌, ◌-ℤ◌}
use agentchains.Ledger.Model.{TokenAccount, TokenLedger, TxType, RefType}
use agentchains.Redemption.Store.{
  Error, RedemptionType, RedemptionRequest, ApiCreditBalance, Store, Fresh, commit, one_redemption,
  one_credit, change_redemption, change_credit, not_found, api_credits, gift_card, upi,
  bank_withdrawal, other, pending, processing, completed, rejected,
}

-- `_MIN_THRESHOLDS`
abbrev pub min_threshold : RedemptionType → Option ℤ
min_threshold api_credits = some (pos 100000)
min_threshold gift_card = some (pos 1000000)
min_threshold upi = some (pos 5000000)
min_threshold bank_withdrawal = some (pos 10000000)
min_threshold (other n) = none

-- `int(amount_usd * 1000)`, towards zero.
abbrev pub credits_for : ℤ → ℤ
credits_for (pos n) = pos (n / 1000)
credits_for (negsuc n) = pos 0 -ℤ pos (suc n / 1000)

abbrev pub add_credits : ℤ → ApiCreditBalance → ApiCreditBalance
add_credits credits c = record c {
  credits_remaining = c.credits_remaining +ℤ credits;
  credits_total_purchased = c.credits_total_purchased +ℤ credits;
}

abbrev pub upsert_credits : Fresh → ℕ → ℤ → Option ApiCreditBalance → Action Error Store (Unit {0})
upsert_credits fresh creator credits (some c) = change_credit c.id (add_credits credits)
upsert_credits fresh creator credits none = modify (λ s. record s {
  credits =
      record {
        id = fresh.credit_id;
        creator_id = creator;
        credits_remaining = credits;
        credits_total_purchased = credits;
      }
      ∷ s.credits;
})

abbrev pub complete_credits : ℤ → ℕ → RedemptionRequest → RedemptionRequest
complete_credits credits now r = record r {
  status = completed;
  processed_at = some now;
  completed_at = some now;
  payout_credits = some credits;
}

abbrev pub start_processing : ℕ → RedemptionRequest → RedemptionRequest
start_processing now r = record r { status = processing; processed_at = some now }

abbrev pub reject_with : ℕ → RedemptionRequest → RedemptionRequest
reject_with now r = record r { status = rejected; completed_at = some now }

unfoldable pub process_api_credit_redemption : Fresh → ℕ → Action Error Store RedemptionRequest
unfolding commit ◌+ℤ◌ ◌-ℤ◌
process_api_credit_redemption fresh redemption_id = do
  row ← one_redemption (λ r. r.id == redemption_id)
  redemption ← or_raise row not_found
  let credits = credits_for redemption.amount_usd
  balance ← one_credit redemption.creator_id
  upserted ← upsert_credits fresh redemption.creator_id credits balance
  change_redemption redemption.id (complete_credits credits fresh.now)
  done ← commit
  pure (complete_credits credits fresh.now redemption)

-- `process_gift_card_redemption`, `process_bank_withdrawal` and `process_upi_transfer` differ in the
-- note that they leave.
unfoldable pub process_offline : Fresh → ℕ → Action Error Store RedemptionRequest
unfolding commit
process_offline fresh redemption_id = do
  row ← one_redemption (λ r. r.id == redemption_id)
  redemption ← or_raise row not_found
  change_redemption redemption.id (start_processing fresh.now)
  done ← commit
  pure (start_processing fresh.now redemption)

abbrev pub hold : Fresh → Decimal → TokenAccount → TokenAccount
hold fresh amount a = record a {
  balance = fresh.column (minus (micros a.balance) amount);
  total_spent = fresh.column (plus (micros a.total_spent) amount);
  updated_at = fresh.now;
}

abbrev pub refund : ℤ → ℕ → TokenAccount → TokenAccount
refund amount now a = record a {
  balance = a.balance +ℤ amount;
  total_spent = a.total_spent -ℤ amount;
  updated_at = now;
}

-- The withdrawal's ledger row; it is given neither an idempotency key nor a place in the hash chain.
abbrev pub hold_entry : Fresh → TokenAccount → Decimal → TokenLedger
hold_entry fresh account amount = record {
  id = fresh.ledger_id;
  from_account_id = some account.id;
  to_account_id = none;
  amount = fresh.column amount;
  fee_amount = pos 0;
  tx_type = TxType.withdrawal;
  reference_id = none;
  reference_type = some RefType.redemption;
  idempotency_key = none;
  created_at = fresh.now;
  prev_hash = none;
  entry_hash = none;
}

abbrev pub refund_entry : Fresh → TokenAccount → RedemptionRequest → RefType → TokenLedger
refund_entry fresh account r ref_type = record {
  id = fresh.ledger_id;
  from_account_id = none;
  to_account_id = some account.id;
  amount = r.amount_usd;
  fee_amount = pos 0;
  tx_type = TxType.refund;
  reference_id = some r.id;
  reference_type = some ref_type;
  idempotency_key = none;
  created_at = fresh.now;
  prev_hash = none;
  entry_hash = none;
}

abbrev pub fiat_of : RedemptionType → ℤ → Option ℤ
fiat_of api_credits amount = none
fiat_of _ amount = some amount

abbrev pub new_redemption : Fresh → ℕ → RedemptionType → Decimal → RedemptionRequest
new_redemption fresh creator_id kind amount = record {
  id = fresh.redemption_id;
  creator_id = creator_id;
  redemption_type = kind;
  amount_usd = fresh.column amount;
  amount_fiat = fiat_of kind (fresh.column amount);
  status = pending;
  payout_credits = none;
  ledger_entry_id = some fresh.ledger_id;
  processed_at = none;
  completed_at = none;
}
