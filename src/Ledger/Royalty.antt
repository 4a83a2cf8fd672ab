-- ===== src/Ledger/Royalty.antt =====
-- `_process_creator_royalty` of marketplace/services/token_service.py: an agent's earnings flow on to
-- the creator who owns the agent, free of a fee and never beyond the agent's balance.
use agentchains.Base.{ℕ, Option, none, some, ◌>>=◌, ◌>>◌, Action, pure, gets, if◌then◌else◌}
use agentchains.Base.Int.{ℤ, pos, ◌+ℤ◌, ◌-ℤ◌, ltb_ℤ, leb_ℤ}
use agentchains.Ledger.Decimal.{to_decimal, times}
use agentchains.Ledger.Model.{TokenAccount, TokenLedger, Db, Host, Error, TxType, RefType, Key}
use agentchains.Ledger.Queries.{
  get_creator_for_agent, get_account_by_creator, get_account_by_agent, change, add_entry,
  latest_hash, compute_ledger_hash,
}

abbrev pub royalty_key : Option ℕ → Option Key
royalty_key none = none
royalty_key (some r) = some (Key.royalty r)

abbrev pub pay_royalty : ℤ → ℕ → TokenAccount → TokenAccount
pay_royalty royalty now a = record a { balance = a.balance -ℤ royalty; updated_at = now }

abbrev pub earn_royalty : ℤ → ℕ → TokenAccount → TokenAccount
earn_royalty royalty now a = record a {
  balance = a.balance +ℤ royalty;
  total_earned = a.total_earned +ℤ royalty;
  updated_at = now;
}

abbrev pub royalty_entry :
    Host → TokenAccount → TokenAccount → ℤ → Option ℕ → Option ℕ → TokenLedger
royalty_entry host agent creator royalty reference_id prev_hash = record {
  id = host.royalty_id;
  from_account_id = some agent.id;
  to_account_id = some creator.id;
  amount = royalty;
  fee_amount = pos 0;
  tx_type = TxType.creator_royalty;
  reference_id = reference_id;
  reference_type = some RefType.creator_royalty;
  idempotency_key = royalty_key reference_id;
  created_at = host.royalty_created_at;
  prev_hash = prev_hash;
  entry_hash = some (
      compute_ledger_hash host prev_hash (some agent.id) (some creator.id) royalty (pos 0)
        TxType.creator_royalty host.royalty_created_at);
}

-- The debit, the credit and the ledger row.
unfoldable pub book_royalty :
    Host → TokenAccount → TokenAccount → ℤ → Option ℕ → Action Error Db (Option TokenLedger)
unfolding latest_hash compute_ledger_hash
book_royalty host agent creator royalty reference_id = do
  change agent.id (pay_royalty royalty host.now)
  change creator.id (earn_royalty royalty host.now)
  prev_hash ← gets latest_hash
  let entry = royalty_entry host agent creator royalty reference_id prev_hash
  add_entry entry
  pure (some entry)

-- Never more than the agent holds.
abbrev pub capped : ℤ → ℤ → ℤ
capped balance royalty = if ltb_ℤ balance royalty then balance else royalty

abbrev pub royalty_of : Host → ℤ → ℤ
royalty_of host net_amount = to_decimal (times net_amount (to_decimal host.creator_royalty_pct))

abbrev pub royalty_between :
    Host
    → ℤ
    → Option ℕ
    → Option TokenAccount
    → Option TokenAccount
    → Action Error Db (Option TokenLedger)
royalty_between host net_amount reference_id none agent = pure none
royalty_between host net_amount reference_id (some creator) none = pure none
royalty_between host net_amount reference_id (some creator) (some agent) =
    let due = royalty_of host net_amount in
    let royalty = capped agent.balance due in
    if leb_ℤ due (pos 0)
    then pure none
    else if leb_ℤ royalty (pos 0)
    then pure none
    else book_royalty host agent creator royalty reference_id

abbrev pub royalty_to : Host → ℕ → ℤ → Option ℕ → Option ℕ → Action Error Db (Option TokenLedger)
royalty_to host agent_id net_amount reference_id none = pure none
royalty_to host agent_id net_amount reference_id (some creator_id) = do
  creator ← get_account_by_creator creator_id
  agent ← get_account_by_agent (some agent_id)
  royalty_between host net_amount reference_id creator agent

unfoldable pub process_creator_royalty :
    Host → ℕ → ℤ → Option ℕ → Action Error Db (Option TokenLedger)
unfolding get_creator_for_agent get_account_by_creator get_account_by_agent
process_creator_royalty host agent_id net_amount reference_id =
    if leb_ℤ host.creator_royalty_pct.coeff (pos 0) then pure none else do
      creator_id ← get_creator_for_agent agent_id
      royalty_to host agent_id net_amount reference_id creator_id
