-- ===== src/Purchase/Tests.antt =====
-- A purchase from its start to its end, and the theorems about it at concrete inputs.
use agentchains.Base.{
  ℕ, ◌≡◌, refl, Bool, true, Option, none, some, List, [], ◌∷◌, Result, ok, err, map,
}
use agentchains.Base.Int.{ℤ, pos, ◌+ℤ◌, ◌-ℤ◌, ◌*ℤ◌}
use agentchains.Ledger.Model.{TokenAccount, Host}
use agentchains.Ledger.Decimal.{to_decimal}
use agentchains.Ledger.Royalty.{book_royalty}
use agentchains.Ledger.Transfer.{debit_for_purchase}
use agentchains.Purchase.Market.{
  Status, Verification, Error, Transaction, Market, Env, get_transaction, get_agent, get_listing,
}
use agentchains.Purchase.Service.{
  initiate_transaction, confirm_payment, deliver_content, verify_delivery, settle_payment,
}
use agentchains.Purchase.Moves.{OneMoves}
use agentchains.Purchase.Verify.{Verified, verify_settles, perform, deliver_, call_moves}

abbrev account : ℕ → Option ℕ → ℕ → TokenAccount
account id agent balance = record {
  id = id;
  agent_id = agent;
  creator_id = none;
  balance = pos balance;
  total_deposited = pos 0;
  total_earned = pos 0;
  total_spent = pos 0;
  total_fees_paid = pos 0;
  updated_at = 0;
}

abbrev host : Host
host = record {
  platform_fee_pct = record { coeff = pos 2; places = 2 };
  creator_royalty_pct = record { coeff = pos 10; places = 1 };
  sha256 = λ fields. 77;
  new_id = 100;
  royalty_id = 101;
  now = 50;
  created_at = 51;
  royalty_created_at = 52;
}

abbrev env : Bool → Env
env simulated = record {
  simulated = simulated;
  sha256 = λ content. elim content [ [] ↦ 0 | x ∷ rest ↦ x ];
  transaction_id = 1;
  simulated_hash = 555;
  now = 60;
  host = host;
}

abbrev tx : Status → Option ℕ → Transaction
tx status delivered = record {
  id = 1;
  listing_id = 30;
  buyer_id = 10;
  seller_id = 20;
  amount_usdc = pos 1500000;
  status = status;
  payment_tx_hash = none;
  content_hash = some 42;
  delivered_hash = delivered;
  verification_status = Verification.pending;
  paid_at = none;
  delivered_at = none;
  verified_at = none;
  completed_at = none;
}

abbrev market : List Transaction → Market
market transactions = record {
  db = record {
    accounts = account 1 none 0 ∷ account 2 (some 10) 10000000 ∷ account 3 (some 20) 0 ∷ [];
    ledger = [];
    agents = record { id = 20; creator_id = none } ∷ record { id = 10; creator_id = none } ∷ [];
  };
  transactions = transactions;
  listings =
      record {
        id = 30;
        seller_id = 20;
        price_usdc = pos 1500000;
        content_hash = some 42;
        access_count = 0;
      }
      ∷ [];
  listing_cache = [];
}

abbrev left : Result Error (Transaction × Market) → Market
left (ok (t, m)) = m
left (err e) = market []

abbrev answer : Result Error (Transaction × Market) → Transaction
answer (ok (t, m)) = t
answer (err e) = tx Status.failed none

abbrev balances : Market → List ℤ
balances m = map (λ (a : TokenAccount). a.balance) m.db.accounts

-- The whole purchase: started, confirmed, delivered and verified.
whole : Market
whole =
    let m₁ = left (initiate_transaction (env true) 30 10 (market [])) in
    let m₂ = left (confirm_payment (env true) 1 (some 9) none (some 10) m₁) in
    let m₃ = left (deliver_content (env true) 1 (42 ∷ 7 ∷ []) 20 m₂) in
    left (verify_delivery (env true) 1 10 m₃)

whole_pays : balances whole ≡ pos 30000 ∷ pos 8500000 ∷ pos 1470000 ∷ []
unfolding whole initiate_transaction confirm_payment deliver_content verify_delivery get_transaction
    get_agent get_listing settle_payment debit_for_purchase book_royalty to_decimal ◌+ℤ◌ ◌-ℤ◌ ◌*ℤ◌
whole_pays = refl

matching : Result Error (Transaction × Market)
matching = verify_delivery (env true) 1 10 (market (tx Status.delivered (some 42) ∷ []))

verify_settles_example :
    Verified
      (env true)
      1
      (market (tx Status.delivered (some 42) ∷ []))
      (answer matching)
      (left matching)
unfolding matching verify_delivery get_transaction debit_for_purchase book_royalty to_decimal ◌+ℤ◌
    ◌-ℤ◌ ◌*ℤ◌
verify_settles_example =
    verify_settles (env true) 1 10 (market (tx Status.delivered (some 42) ∷ [])) (left matching)
      (answer matching) refl

shipped : Result Error (Transaction × Market)
shipped =
    perform (env true) 1 (deliver_ (42 ∷ []) 20) (market (tx Status.payment_confirmed none ∷ []))

call_moves_example :
    OneMoves 1
      (market (tx Status.payment_confirmed none ∷ [])).transactions
      (left shipped).transactions
unfolding shipped deliver_content get_transaction
call_moves_example =
    call_moves (env true) 1 (deliver_ (42 ∷ []) 20) (market (tx Status.payment_confirmed none ∷ []))
      (left shipped) (answer shipped) refl
