-- ===== src/Purchase/Verify.antt =====
-- The verification of a delivery: the state it ends in, and what it does to the ledger.
use mathlib.Core.Path.{subst}
use agentchains.Base.{
  ℕ, ◌≡◌, refl, sym, true, false, not, Option, some, List, inl, inr, arith, ◌==◌, if◌then◌else◌,
  Bool-cases, Action, Result, ok, err, Ensures, call_bind, raise_if_bind, Ensures-mono,
}
use agentchains.Base.Table.{find_key, update}
use agentchains.Ledger.Model.{Db}
use agentchains.Ledger.Model
use agentchains.Ledger.Decimal.{micros}
use agentchains.Ledger.Sums.{total}
use agentchains.Ledger.Transfer.{Receipt, debit_for_purchase}
use agentchains.Ledger.Fee.{to_decimal-micros}
use agentchains.Ledger.Replay.{both}
use agentchains.Ledger.Decimal.{to_decimal}
use agentchains.Ledger.Conserve.{Paid, debit_for_purchase-Paid, debit_for_purchase-Conserves}
use agentchains.Purchase.Market.{
  Status, Error, Transaction, Market, Env, get_transaction, tx_id_of, not_authorized, invalid_state,
  on_ledger, ledger,
}
use agentchains.Purchase.Service.{
  is_status, complete, dispute, matches, confirm_payment, deliver_content, verify_delivery,
  complete_purchase, dispute_purchase,
}
use agentchains.Purchase.Moves.{
  follows, MovesTo, OneMoves, OneMoves-update, Finds, get_transaction-Finds, confirm-OneMoves,
  deliver-OneMoves,
}

complete-MovesTo :
    (now : ℕ) (t : Transaction)
    → not (is_status t.status Status.delivered) ≡ false
    → MovesTo t (complete now t)
unfolding follows
complete-MovesTo now t h = ground arith

dispute-MovesTo :
    (t : Transaction) → not (is_status t.status Status.delivered) ≡ false → MovesTo t (dispute t)
unfolding follows
dispute-MovesTo t h = ground arith

-- The price of the purchase has gone from its buyer to its seller on the ledger.
abbrev pub IsPaid : Env → Transaction → Market → Market → Type 0
IsPaid env t m m' = Paid env.host t.buyer_id t.seller_id t.amount_usdc t.id m.db m'.db

-- The debit touches the ledger alone, and pays.
abbrev pub OnlyLedger : Env → Transaction → Market → Market → Type 0
OnlyLedger env t m m' =
    IsPaid env t m m'
    × (m'.transactions ≡ m.transactions)
    × (m'.listings ≡ m.listings)
    × (total m'.db.accounts ≡ total m.db.accounts)

pub debit_in_market :
    (env : Env) (t : Transaction) (m : Market)
    → Ensures
        (λ _ m'. OnlyLedger env t m m')
        (on_ledger
          (debit_for_purchase env.host t.buyer_id t.seller_id (micros t.amount_usdc) t.id)
          m)
debit_in_market env t m =
    lifted (debit_for_purchase env.host t.buyer_id t.seller_id (micros t.amount_usdc) t.id m.db) (
      both _ _ _
        (debit_for_purchase-Paid env.host t.buyer_id t.seller_id (micros t.amount_usdc) t.id m.db)
        (debit_for_purchase-Conserves env.host t.buyer_id t.seller_id (micros t.amount_usdc) t.id
          m.db))
  where
    lifted :
        (r : Result Model.Error (Receipt × Db))
        → Ensures
            (λ _ d.
              Paid env.host t.buyer_id t.seller_id (to_decimal (micros t.amount_usdc)) t.id m.db d
              × (total d.accounts ≡ total m.db.accounts))
            r
        → Ensures
            (λ _ m'. OnlyLedger env t m m')
            (elim r as (λ _. Result Error (Receipt × Market)) [
              | ok (a, db') ↦ ok (a, record m { db = db' })
              | err e ↦ err (ledger e)
            ])
    lifted (ok (a, db')) (paid, sums) = (
      subst (λ x. Paid env.host t.buyer_id t.seller_id x t.id m.db db')
          (to_decimal-micros t.amount_usdc) paid,
      refl,
      refl,
      sums,
    )
    lifted (err e) h = tt

-- A verification moves the purchase to `completed` or `disputed` by its hashes; the balances keep
-- their sum, and a dispute leaves the ledger as it was.
abbrev pub Verified : Env → ℕ → Market → Transaction → Market → Type 0
Verified env id m t' m' =
    OneMoves id m.transactions m'.transactions
    × (t'.status ≡ (if matches t' then Status.completed else Status.disputed))
    × (total m'.db.accounts ≡ total m.db.accounts)
    × ((matches t' ≡ true) → IsPaid env t' m m')
    × ((matches t' ≡ false) → m'.db ≡ m.db)

complete-Verified :
    (env : Env) (t : Transaction) (m : Market)
    → find_key tx_id_of t.id m.transactions ≡ some t
    → not (is_status t.status Status.delivered) ≡ false
    → matches t ≡ true
    → Ensures (Verified env t.id m) (complete_purchase env t m)
complete-Verified env t m found arrived same_hash =
    let m₁ = record m { transactions = update tx_id_of t.id (complete env.now) m.transactions } in
    call_bind (Verified env t.id m) _ m₁
      (on_ledger (debit_for_purchase env.host t.buyer_id t.seller_id (micros t.amount_usdc) t.id))
      (λ _ m'. OnlyLedger env t m₁ m') (debit_in_market env t m₁)
      λ receipt m₂ (paid, rows, listings, sums). (
        subst (OneMoves t.id m.transactions) (sym rows) (
            OneMoves-update t.id (complete env.now) m.transactions t found
              (complete-MovesTo env.now t arrived)),
        rw same_hash refl,
        sums,
        λ same. paid,
        λ differ. cc,
      )

dispute-Verified :
    (env : Env) (t : Transaction) (m : Market)
    → find_key tx_id_of t.id m.transactions ≡ some t
    → not (is_status t.status Status.delivered) ≡ false
    → matches t ≡ false
    → Ensures (Verified env t.id m) (dispute_purchase t m)
dispute-Verified env t m found arrived differ = (
  OneMoves-update t.id dispute m.transactions t found (dispute-MovesTo t arrived),
  rw differ refl,
  refl,
  λ same. cc,
  λ _. refl,
)

pub verify-Verified :
    (env : Env) (id buyer : ℕ) (m : Market)
    → Ensures (Verified env id m) (verify_delivery env id buyer m)
unfolding verify_delivery
verify-Verified env id buyer m =
    call_bind (Verified env id m) _ m (get_transaction id) (Finds id m) (get_transaction-Finds id m)
      λ t m' (same, e, found). rw same (
        raise_if_bind (Verified env id m) _ m (not (t.buyer_id == buyer)) not_authorized
          λ authorized.
            raise_if_bind (Verified env id m) _ m (not (is_status t.status Status.delivered))
              (invalid_state t.status Status.delivered)
              λ arrived. rw (← e) (
                branch t (subst (λ k. find_key tx_id_of k m.transactions ≡ some t) (sym e) found)
                  arrived))
  where
    branch :
        (t : Transaction)
        → find_key tx_id_of t.id m.transactions ≡ some t
        → not (is_status t.status Status.delivered) ≡ false
        → Ensures
            (Verified env t.id m)
            ((if matches t then complete_purchase env t else dispute_purchase t) m)
    branch t found arrived = elim (Bool-cases (matches t)) [
      | inl h ↦ rw h (complete-Verified env t m found arrived h)
      | inr h ↦ rw h (dispute-Verified env t m found arrived h)
    ]

-- A verification that returns moves the one purchase along an edge and leaves every other purchase as
-- it was; the purchase is completed exactly when both hashes are set and equal, and disputed otherwise;
-- where it is completed, the transfer of its price from the buyer to the seller has returned and left the
-- ledger, which has an entry under the purchase's key; a dispute leaves the ledger's database as it was; and
-- the sum of all balances is kept.
pub verify_settles :
    (env : Env) (id buyer : ℕ) (m m' : Market) (t' : Transaction)
    → verify_delivery env id buyer m ≡ ok (t', m')
    → Verified env id m t' m'
verify_settles env id buyer m m' t' h =
    subst (Ensures (Verified env id m)) h (verify-Verified env id buyer m)

-- The calls that move a purchase, each with its caller.
pub data Call : Type 0 where
  confirm : Option ℕ → Option ℕ → Option ℕ → Call
  deliver_ : List ℕ → ℕ → Call
  verify : ℕ → Call

abbrev pub perform : Env → ℕ → Call → Action Error Market Transaction
perform env id (confirm signature hash buyer) = confirm_payment env id signature hash buyer
perform env id (deliver_ content seller) = deliver_content env id content seller
perform env id (verify buyer) = verify_delivery env id buyer

call-OneMoves :
    (env : Env) (id : ℕ) (c : Call) (m : Market)
    → Ensures (λ _ m'. OneMoves id m.transactions m'.transactions) (perform env id c m)
call-OneMoves env id (confirm signature hash buyer) m =
    confirm-OneMoves env id signature hash buyer m
call-OneMoves env id (deliver_ content seller) m = deliver-OneMoves env id content seller m
call-OneMoves env id (verify buyer) m =
    Ensures-mono (Verified env id m) (λ _ m'. OneMoves id m.transactions m'.transactions)
      (λ t' m' v. v.0) _ (verify-Verified env id buyer m)

-- Every call that returns, of `confirm_payment`, `deliver_content` or `verify_delivery`, moves the one
-- purchase along an edge of the state machine, keeping its parties, price and expected hash, and
-- leaves every other purchase as it was.
pub call_moves :
    (env : Env) (id : ℕ) (c : Call) (m m' : Market) (t' : Transaction)
    → perform env id c m ≡ ok (t', m')
    → OneMoves id m.transactions m'.transactions
call_moves env id c m m' t' h =
    subst (Ensures (λ _ n. OneMoves id m.transactions n.transactions)) h (call-OneMoves env id c m)
