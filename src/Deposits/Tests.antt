-- ===== src/Deposits/Tests.antt =====
-- A deposit that is credited, and the theorem that it is once.
use agentchains.Base.{ℕ, map, ◌≡◌, refl, true, Option, none, some, [], ◌∷◌, Result, ok, err}
use agentchains.Base.Int.{pos, ◌+ℤ◌, ◌*ℤ◌}
use agentchains.Ledger.Decimal.{to_decimal}
use agentchains.Ledger.Model.{TokenAccount, TokenLedger, Host, TxType}
use agentchains.Ledger.Deposit.{deposit}
use agentchains.Deposits.Service.{TokenDeposit, Bank, Error, Status, credit_deposit, cancel_deposit}
use agentchains.Deposits.Once.{Event, left, run, raises, credit_once}

abbrev account : ℕ → Option ℕ → TokenAccount
account id agent = record {
  id = id;
  agent_id = agent;
  creator_id = none;
  balance = pos 0;
  total_deposited = pos 0;
  total_earned = pos 0;
  total_spent = pos 0;
  total_fees_paid = pos 0;
  updated_at = 0;
}

abbrev bank : Bank
bank = record {
  db = record { accounts = account 1 none ∷ account 2 (some 10) ∷ []; ledger = []; agents = [] };
  deposits =
      record {
        id = 7;
        agent_id = 10;
        amount_usd = pos 2500;
        status = Status.pending;
        payment_ref = none;
        completed_at = none;
      }
      ∷ [];
}

abbrev host : ℕ → Host
host now = record {
  platform_fee_pct = record { coeff = pos 2; places = 2 };
  creator_royalty_pct = record { coeff = pos 10; places = 1 };
  sha256 = λ fields. 77;
  new_id = now;
  royalty_id = 101;
  now = now;
  created_at = now;
  royalty_created_at = now;
}

abbrev blank : TokenLedger
blank = record {
  id = 0;
  from_account_id = none;
  to_account_id = none;
  amount = pos 0;
  fee_amount = pos 0;
  tx_type = TxType.refund;
  reference_id = none;
  reference_type = none;
  idempotency_key = none;
  created_at = 0;
  prev_hash = none;
  entry_hash = none;
}

abbrev entry_of : Result Error (TokenLedger × Bank) → TokenLedger
entry_of (ok (e, b)) = e
entry_of (err e) = blank

credited : Result Error (TokenLedger × Bank)
credited = credit_deposit (host 50) 7 (some 10) bank

-- A confirmation that stopped after the credit can be cancelled, and the money stays.
cancelled :
    map
      (λ (d : TokenDeposit). d.status)
      (run (Event.cancel 7 (some 10) ∷ []) (left bank credited)).deposits
    ≡ Status.failed ∷ []
unfolding credited run credit_deposit cancel_deposit deposit to_decimal ◌+ℤ◌ ◌*ℤ◌
cancelled = refl

credit_once_example :
    raises
      (credit_deposit (host 90) 7 none (run (Event.cancel 7 (some 10) ∷ []) (left bank credited)))
    ≡ true
unfolding credited credit_deposit deposit to_decimal ◌+ℤ◌ ◌*ℤ◌
credit_once_example =
    credit_once (host 50) (host 90) 7 (some 10) none bank (left bank credited) (entry_of credited)
      (Event.cancel 7 (some 10) ∷ []) refl
