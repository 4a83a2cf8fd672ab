-- ===== src/Ledger/Tests.antt =====
-- A small market, runs of the ledger on it, and the theorems about the ledger at concrete inputs.
use agentchains.Base.{
  ℕ, arith, ◌+◌, ◌-◌, ◌*◌, ◌≤◌, ◌<◌, ◌≡◌, refl, Option, none, some, List, [], ◌∷◌, Result, ok, err,
  map,
}
use agentchains.Base.Int.{ℤ, pos, negsuc, ◌+ℤ◌, ◌-ℤ◌, ◌*ℤ◌}
use agentchains.Ledger.Decimal.{to_decimal}
use agentchains.Ledger.Model.{TokenAccount, TokenLedger, Db, Host, TxType, Key, Error}
use agentchains.Ledger.Transfer.{Request, transfer, fee_of, net_of}
use agentchains.Ledger.Fee.{fee_rounds}
use agentchains.Ledger.Royalty.{book_royalty}
use agentchains.Ledger.Deposit.{deposit}
use agentchains.Ledger.Sums.{total}
use agentchains.Ledger.Replay.{transfer_replays}
use agentchains.Ledger.Conserve.{transfer_conserves}

abbrev account : ℕ → Option ℕ → Option ℕ → ℕ → TokenAccount
account id agent creator balance = record {
  id = id;
  agent_id = agent;
  creator_id = creator;
  balance = pos balance;
  total_deposited = pos 0;
  total_earned = pos 0;
  total_spent = pos 0;
  total_fees_paid = pos 0;
  updated_at = 0;
}

-- The treasury, a buyer with ten dollars, a seller, and the creator who owns the seller.
abbrev market : Db
market = record {
  accounts =
      account 1 none none 0
      ∷ account 2 (some 10) none 10000000
      ∷ account 3 (some 20) none 0
      ∷ account 4 none (some 5) 0
      ∷ [];
  ledger = [];
  agents = record { id = 20; creator_id = some 5 } ∷ record { id = 10; creator_id = none } ∷ [];
}

abbrev host : Host
host = record {
  platform_fee_pct = record { coeff = pos 2; places = 2 };
  creator_royalty_pct = record { coeff = pos 10; places = 1 };
  sha256 = λ fields. 77;
  new_id = 100;
  royalty_id = 101;
  now = 50;
  created_at = 51;
  royalty_created_at = 52;
}

abbrev sale : Request
sale = record {
  from_agent_id = some 10;
  to_agent_id = some 20;
  amount = record { coeff = pos 15; places = 1 };
  tx_type = TxType.purchase;
  reference_id = some 9;
  reference_type = none;
  idempotency_key = some (Key.purchase 9);
}

abbrev balances : Result Error (TokenLedger × Db) → List ℤ
balances (ok (e, db)) = map (λ (a : TokenAccount). a.balance) db.accounts
balances (err e) = []

abbrev db_after : Result Error (TokenLedger × Db) → Db
db_after (ok (e, db)) = db
db_after (err e) = market

abbrev blank : TokenLedger
blank = record {
  id = 0;
  from_account_id = none;
  to_account_id = none;
  amount = pos 0;
  fee_amount = pos 0;
  tx_type = TxType.refund;
  reference_id = none;
  reference_type = none;
  idempotency_key = none;
  created_at = 0;
  prev_hash = none;
  entry_hash = none;
}

abbrev entry_after : Result Error (TokenLedger × Db) → TokenLedger
entry_after (ok (e, db)) = e
entry_after (err e) = blank

sold : Result Error (TokenLedger × Db)
sold = transfer host sale market

paid_in : Result Error (TokenLedger × Db)
paid_in = deposit host (some 10) (record { coeff = pos 25; places = 0 }) (some 8) market

-- $1.50 costs the buyer $1.50; three cents go to the treasury, and the rest flows on to the creator.
sale_runs :
    balances (transfer host sale market) ≡ pos 30000 ∷ pos 8500000 ∷ pos 0 ∷ pos 1470000 ∷ []
unfolding transfer book_royalty to_decimal ◌+ℤ◌ ◌-ℤ◌ ◌*ℤ◌
sale_runs = refl

half_cent : to_decimal (record { coeff = negsuc 24; places = 7 }) ≡ negsuc 2
unfolding to_decimal
half_cent = refl

transfer_conserves_example : total (db_after sold).accounts ≡ total market.accounts
unfolding sold transfer book_royalty to_decimal ◌+ℤ◌ ◌-ℤ◌ ◌*ℤ◌
transfer_conserves_example =
    transfer_conserves host sale market (db_after sold) (entry_after sold) refl

-- A later call, with another fee.
abbrev later : Host
later = record host {
  now = 99;
  created_at = 99;
  new_id = 77;
  platform_fee_pct = record { coeff = pos 5; places = 1 };
}

transfer_replays_example :
    transfer later sale (db_after sold) ≡ ok (entry_after sold, db_after sold)
unfolding sold transfer book_royalty to_decimal ◌+ℤ◌ ◌-ℤ◌ ◌*ℤ◌
transfer_replays_example =
    transfer_replays host later sale (Key.purchase 9) market (db_after sold) (entry_after sold) refl
      refl

fee_rounds_example :
    (fee : ℕ) × (fee_of host (pos 1500025) ≡ pos fee)
    × (net_of host (pos 1500025) ≡ pos (1500025 - fee))
    × (fee ≤ 1500025)
    × (fee * 1000000 ≤ 1500025 * 20000 + 500000)
    × (1500025 * 20000 < fee * 1000000 + 500000)
unfolding to_decimal ◌*ℤ◌
fee_rounds_example = fee_rounds host 1500025 20000 refl (omega arith)
