-- ===== src/Ledger/Transfer.antt =====
-- `transfer` and `debit_for_purchase` of marketplace/services/token_service.py. The broadcasts and the
-- log lines are left out.
use agentchains.Base.{
  ℕ, Bool, true, false, Option, none, some, [], ◌∷◌, ◌>>=◌, ◌>>◌, Action, ok, err, pure, gets,
  reads, raise_if, or_raise, select, if◌then◌else◌,
}
use agentchains.Base.Int.{ℤ, pos, ◌+ℤ◌, ◌-ℤ◌, ltb_ℤ, leb_ℤ}
use agentchains.Base.Table.{scalar_one_or_none}
use agentchains.Ledger.Decimal.{Decimal, to_decimal, times, micros}
use agentchains.Ledger.Model.{
  TokenAccount, TokenLedger, Db, Host, Error, TxType, RefType, Key, key_eq, commit,
  multiple_results, no_sender, no_receiver, no_account, no_platform, insufficient_balance,
  amount_not_positive,
}
use agentchains.Ledger.Queries.{
  get_account_by_agent, sort_set, lock_all, locked_account, change, add_entry, latest_hash,
  compute_ledger_hash,
}
use agentchains.Ledger.Royalty.{process_creator_royalty}

-- The arguments of `transfer`.
pub record Request : Type 0 where
  pub from_agent_id : Option ℕ
  pub to_agent_id : Option ℕ
  pub amount : Decimal
  pub tx_type : TxType
  pub reference_id : Option ℕ
  pub reference_type : Option RefType
  pub idempotency_key : Option Key

abbrev pub has_key : Key → TokenLedger → Bool
has_key k e = elim e.idempotency_key [ none ↦ false | some j ↦ key_eq j k ]

unfoldable pub find_replay : Option Key → Action Error Db (Option TokenLedger)
find_replay none = pure none
find_replay (some k) =
    reads (λ db. scalar_one_or_none multiple_results (select (has_key k) db.ledger))

abbrev pub fee_of : Host → ℤ → ℤ
fee_of host amount = to_decimal (times amount (to_decimal host.platform_fee_pct))

abbrev pub net_of : Host → ℤ → ℤ
net_of host amount = to_decimal (micros (amount -ℤ fee_of host amount))

abbrev pub debit : ℤ → ℕ → TokenAccount → TokenAccount
debit amount now a = record a {
  balance = a.balance -ℤ amount;
  total_spent = a.total_spent +ℤ amount;
  updated_at = now;
}

abbrev pub credit : ℤ → ℤ → ℕ → TokenAccount → TokenAccount
credit net fee now a = record a {
  balance = a.balance +ℤ net;
  total_earned = a.total_earned +ℤ net;
  total_fees_paid = a.total_fees_paid +ℤ fee;
  updated_at = now;
}

abbrev pub collect : ℤ → ℕ → TokenAccount → TokenAccount
collect fee now a = record a { balance = a.balance +ℤ fee; updated_at = now }

abbrev pub entry_of : Host → Request → TokenAccount → TokenAccount → ℤ → ℤ → Option ℕ → TokenLedger
entry_of host req sender receiver amount fee prev_hash = record {
  id = host.new_id;
  from_account_id = some sender.id;
  to_account_id = some receiver.id;
  amount = amount;
  fee_amount = fee;
  tx_type = req.tx_type;
  reference_id = req.reference_id;
  reference_type = req.reference_type;
  idempotency_key = req.idempotency_key;
  created_at = host.created_at;
  prev_hash = prev_hash;
  entry_hash = some (
      compute_ledger_hash host prev_hash (some sender.id) (some receiver.id) amount fee req.tx_type
        host.created_at);
}

-- The three balance changes and the ledger row.
unfoldable pub book_transfer :
    Host → Request → TokenAccount → TokenAccount → TokenAccount → ℤ → Action Error Db TokenLedger
unfolding latest_hash compute_ledger_hash
book_transfer host req sender receiver platform amount = do
  let fee = fee_of host amount
  change sender.id (debit amount host.now)
  change receiver.id (credit (net_of host amount) fee host.now)
  change platform.id (collect fee host.now)
  prev_hash ← gets latest_hash
  let entry = entry_of host req sender receiver amount fee prev_hash
  add_entry entry
  pure entry

-- `try: ... except Exception:` round the royalty, which raises only before it writes.
abbrev pub attempt : {A : Type 0} → Action Error Db (Option A) → Action Error Db (Option A)
attempt m db = elim (m db) [ ok (a, db') ↦ ok (a, db') | err e ↦ ok (none, db) ]

abbrev pub earns_royalty : TxType → Bool
earns_royalty TxType.purchase = true
earns_royalty TxType.sale = true
earns_royalty _ = false

abbrev pub royalty_after :
    Host → Request → ℤ → TokenLedger → Option ℕ → Action Error Db (Option TokenLedger)
royalty_after host req net entry none = pure none
royalty_after host req net entry (some agent_id) =
    if earns_royalty req.tx_type
    then attempt (process_creator_royalty host agent_id net (some entry.id))
    else pure none

-- What follows the idempotency check.
unfoldable pub transfer_new : Host → Request → ℤ → Action Error Db TokenLedger
unfolding get_account_by_agent lock_all book_transfer process_creator_royalty commit
transfer_new host req amount = do
  from_row ← get_account_by_agent req.from_agent_id
  to_row ← get_account_by_agent req.to_agent_id
  from_account ← or_raise from_row no_sender
  to_account ← or_raise to_row no_receiver
  platform_row ← get_account_by_agent none
  platform_account ← or_raise platform_row no_platform
  locked ← lock_all (sort_set (from_account.id ∷ to_account.id ∷ platform_account.id ∷ []))
  sender ← locked_account from_account.id locked
  receiver ← locked_account to_account.id locked
  platform ← locked_account platform_account.id locked
  raise_if (ltb_ℤ sender.balance amount) insufficient_balance
  entry ← book_transfer host req sender receiver platform amount
  royalty ← royalty_after host req (net_of host amount) entry req.to_agent_id
  done ← commit
  pure entry

abbrev pub replay_or :
    Option TokenLedger → Action Error Db TokenLedger → Action Error Db TokenLedger
replay_or (some found) m = pure found
replay_or none m = m

unfoldable pub transfer : Host → Request → Action Error Db TokenLedger
unfolding find_replay transfer_new
transfer host req = do
  let amount = to_decimal req.amount
  raise_if (leb_ℤ amount (pos 0)) amount_not_positive
  found ← find_replay req.idempotency_key
  replay_or found (transfer_new host req amount)

pub record Balances : Type 0 where
  pub balance : ℤ
  pub total_earned : ℤ
  pub total_spent : ℤ
  pub total_deposited : ℤ
  pub total_fees_paid : ℤ

abbrev pub balances_of : TokenAccount → Balances
balances_of a = record {
  balance = a.balance;
  total_earned = a.total_earned;
  total_spent = a.total_spent;
  total_deposited = a.total_deposited;
  total_fees_paid = a.total_fees_paid;
}

unfoldable pub get_balance : Option ℕ → Action Error Db Balances
unfolding get_account_by_agent
get_balance agent_id = do
  row ← get_account_by_agent agent_id
  account ← or_raise row no_account
  pure (balances_of account)

pub record Receipt : Type 0 where
  pub ledger_id : ℕ
  pub amount_usd : ℤ
  pub fee_usd : ℤ
  pub buyer_balance : ℤ
  pub seller_balance : ℤ

abbrev pub purchase_request : ℕ → ℕ → ℤ → ℕ → Request
purchase_request buyer_id seller_id amount tx_id = record {
  from_agent_id = some buyer_id;
  to_agent_id = some seller_id;
  amount = micros amount;
  tx_type = TxType.purchase;
  reference_id = some tx_id;
  reference_type = some RefType.transaction;
  idempotency_key = some (Key.purchase tx_id);
}

unfoldable pub debit_for_purchase : Host → ℕ → ℕ → Decimal → ℕ → Action Error Db Receipt
unfolding transfer get_balance
debit_for_purchase host buyer_id seller_id amount_usdc tx_id = do
  let amount = to_decimal amount_usdc
  ledger ← transfer host (purchase_request buyer_id seller_id amount tx_id)
  buyer ← get_balance (some buyer_id)
  seller ← get_balance (some seller_id)
  pure (record {
    ledger_id = ledger.id;
    amount_usd = amount;
    fee_usd = ledger.fee_amount;
    buyer_balance = buyer.balance;
    seller_balance = seller.balance;
  })
