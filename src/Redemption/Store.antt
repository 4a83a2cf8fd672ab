-- ===== src/Redemption/Store.antt =====
-- The rows of marketplace/models/redemption.py. Amounts are micro-dollars, as the column holds them.
-- The notes, the currency and the payout details are left out: nothing reads them.
use agentchains.Base.{
  ℕ, Bool, Option, some, List, ◌∷◌, ◌==◌, ◌&&◌, all, select, Action, ok, err, reads, modify,
  if◌then◌else◌, ◌==?◌,
}
use agentchains.Ledger.Decimal.{Decimal}
use agentchains.Base.Int.{ℤ, pos, ltb_ℤ}
use agentchains.Base.Table.{distinct, scalar_one_or_none, update}
use agentchains.Ledger.Model.{TokenAccount, TokenLedger, Db, constraints_hold}

pub data Error : Type 0 where
  invalid_type below_minimum no_token_account insufficient_balance not_found cannot_cancel : Error
  unknown_type multiple_results integrity : Error

pub data RedemptionType : Type 0 where
  api_credits gift_card upi bank_withdrawal : RedemptionType
  other : ℕ → RedemptionType

pub data Status : Type 0 where
  pending processing completed failed rejected : Status

pub record RedemptionRequest : Type 0 where
  pub id : ℕ
  pub creator_id : ℕ
  pub redemption_type : RedemptionType
  pub amount_usd : ℤ
  pub amount_fiat : Option ℤ
  pub status : Status
  pub payout_credits : Option ℤ
  pub ledger_entry_id : Option ℕ
  pub processed_at : Option ℕ
  pub completed_at : Option ℕ

pub record ApiCreditBalance : Type 0 where
  pub id : ℕ
  pub creator_id : ℕ
  pub credits_remaining : ℤ
  pub credits_total_purchased : ℤ

pub record Store : Type 0 where
  pub db : Db
  pub redemptions : List RedemptionRequest
  pub credits : List ApiCreditBalance

-- The fresh ids of `uuid4`, the reading of the clock, and the number of micro-dollars that the database
-- stores for a Decimal in a column of six places.
pub record Fresh : Type 0 where
  pub ledger_id : ℕ
  pub redemption_id : ℕ
  pub credit_id : ℕ
  pub now : ℕ
  pub column : Decimal → ℤ

abbrev pub redemption_id_of : RedemptionRequest → ℕ
redemption_id_of r = r.id

abbrev pub credit_id_of : ApiCreditBalance → ℕ
credit_id_of c = c.id

-- The constraints of the ledger's tables, `ck_redemption_amount_positive`, and the keys of both tables.
abbrev pub store_holds : Store → Bool
store_holds s =
    constraints_hold s.db
    && (all (λ (r : RedemptionRequest). ltb_ℤ (pos 0) r.amount_usd) s.redemptions
        && (distinct (λ (x y : RedemptionRequest). x.id == y.id) s.redemptions
            && (distinct (λ (x y : ApiCreditBalance). x.id == y.id) s.credits
                && distinct (λ (x y : ApiCreditBalance). x.creator_id == y.creator_id) s.credits)))

unfoldable pub commit : Action Error Store (Unit {0})
commit s = if store_holds s then ok (tt, s) else err integrity

-- `select(TokenAccount).where(TokenAccount.creator_id == creator_id)`
abbrev pub account_of : ℕ → Action Error Store (Option TokenAccount)
account_of creator_id = reads (λ s.
    scalar_one_or_none multiple_results
      (select (λ (a : TokenAccount). a.creator_id ==? some creator_id) s.db.accounts))

abbrev pub one_redemption :
    (RedemptionRequest → Bool) → Action Error Store (Option RedemptionRequest)
one_redemption p = reads (λ s. scalar_one_or_none multiple_results (select p s.redemptions))

abbrev pub one_credit : ℕ → Action Error Store (Option ApiCreditBalance)
one_credit creator_id = reads (λ s.
    scalar_one_or_none multiple_results
      (select (λ (c : ApiCreditBalance). c.creator_id == creator_id) s.credits))

abbrev pub change_account : ℕ → (TokenAccount → TokenAccount) → Action Error Store (Unit {0})
change_account id f = modify (λ s. record s {
  db = record s.db { accounts = update (λ (a : TokenAccount). a.id) id f s.db.accounts };
})

abbrev pub add_ledger : TokenLedger → Action Error Store (Unit {0})
add_ledger e = modify (λ s. record s { db = record s.db { ledger = e ∷ s.db.ledger } })

abbrev pub change_redemption :
    ℕ → (RedemptionRequest → RedemptionRequest) → Action Error Store (Unit {0})
change_redemption id f =
    modify (λ s. record s { redemptions = update redemption_id_of id f s.redemptions })

abbrev pub change_credit : ℕ → (ApiCreditBalance → ApiCreditBalance) → Action Error Store (Unit {0})
change_credit id f = modify (λ s. record s { credits = update credit_id_of id f s.credits })
