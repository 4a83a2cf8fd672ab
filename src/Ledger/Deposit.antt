-- ===== src/Ledger/Deposit.antt =====
-- `deposit`, `create_account` and `ensure_platform_account` of
-- marketplace/services/token_service.py.
use agentchains.Base.{
  ℕ, Option, none, some, [], ◌∷◌, ◌>>=◌, ◌>>◌, Action, pure, gets, raise_if, or_raise,
}
use agentchains.Base.Int.{ℤ, pos, ◌+ℤ◌, leb_ℤ}
use agentchains.Ledger.Decimal.{Decimal, to_decimal}
use agentchains.Ledger.Model.{
  TokenAccount, TokenLedger, Db, Host, Error, TxType, RefType, Key, commit, no_account, no_platform,
  amount_not_positive,
}
use agentchains.Ledger.Queries.{
  get_account_by_agent, sort_set, lock_all, locked_account, change, add_entry, latest_hash,
  compute_ledger_hash,
}

abbrev pub deposit_key : Option ℕ → Option Key
deposit_key none = none
deposit_key (some d) = some (Key.deposit d)

abbrev pub top_up : ℤ → ℕ → TokenAccount → TokenAccount
top_up amount now a = record a {
  balance = a.balance +ℤ amount;
  total_deposited = a.total_deposited +ℤ amount;
  updated_at = now;
}

abbrev pub deposit_entry : Host → TokenAccount → ℤ → Option ℕ → Option ℕ → TokenLedger
deposit_entry host target amount deposit_id prev_hash = record {
  id = host.new_id;
  from_account_id = none;
  to_account_id = some target.id;
  amount = amount;
  fee_amount = pos 0;
  tx_type = TxType.deposit;
  reference_id = deposit_id;
  reference_type = some RefType.deposit;
  idempotency_key = deposit_key deposit_id;
  created_at = host.created_at;
  prev_hash = prev_hash;
  entry_hash = some (
      compute_ledger_hash host prev_hash none (some target.id) amount (pos 0) TxType.deposit
        host.created_at);
}

unfoldable pub deposit : Host → Option ℕ → Decimal → Option ℕ → Action Error Db TokenLedger
unfolding get_account_by_agent lock_all latest_hash compute_ledger_hash commit
deposit host agent_id amount_usd deposit_id = do
  let amount = to_decimal amount_usd
  raise_if (leb_ℤ amount (pos 0)) amount_not_positive
  row ← get_account_by_agent agent_id
  account ← or_raise row no_account
  platform_row ← get_account_by_agent none
  platform ← or_raise platform_row no_platform
  locked ← lock_all (sort_set (account.id ∷ platform.id ∷ []))
  target ← locked_account account.id locked
  change target.id (top_up amount host.now)
  prev_hash ← gets latest_hash
  let entry = deposit_entry host target amount deposit_id prev_hash
  add_entry entry
  done ← commit
  pure entry

-- A new account; the columns not given take their defaults.
abbrev pub new_account : ℕ → Option ℕ → ℕ → TokenAccount
new_account id agent_id now = record {
  id = id;
  agent_id = agent_id;
  creator_id = none;
  balance = pos 0;
  total_deposited = pos 0;
  total_earned = pos 0;
  total_spent = pos 0;
  total_fees_paid = pos 0;
  updated_at = now;
}

abbrev pub add_account : TokenAccount → Action Error Db TokenAccount
add_account a db = pure a (record db { accounts = a ∷ db.accounts })

abbrev pub existing_or :
    Option TokenAccount → Action Error Db TokenAccount → Action Error Db TokenAccount
existing_or (some a) m = pure a
existing_or none m = m

unfoldable pub create_account : Host → Option ℕ → Action Error Db TokenAccount
unfolding get_account_by_agent commit
create_account host agent_id = do
  existing ← get_account_by_agent agent_id
  existing_or existing (do
    account ← add_account (new_account host.new_id agent_id host.now)
    done ← commit
    pure account)

unfoldable pub ensure_platform_account : Host → Action Error Db TokenAccount
unfolding get_account_by_agent commit
ensure_platform_account host = do
  existing ← get_account_by_agent none
  account ← existing_or existing (add_account (new_account host.new_id none host.now))
  done ← commit
  pure account
