-- ===== src/Redemption/Requests.antt =====
-- The requests to redeem and what becomes of them, of marketplace/services/redemption_service.py: the calls
-- that create, cancel, reject and approve.
use agentchains.Base.{
  ℕ, Bool, true, false, Option, none, some, ◌∷◌, ◌==◌, ◌&&◌, Action, Result, ok, err, modify, pure,
  raise, raise_if, or_raise, ◌>>=◌, ◌>>◌, if◌then◌else◌,
}
use agentchains.Ledger.Decimal.{Decimal, micros}
use agentchains.Redemption.Amount.{less}
use agentchains.Ledger.Model.{TokenAccount, RefType}
use agentchains.Redemption.Store.{
  Error, RedemptionType, Status, RedemptionRequest, Store, Fresh, commit, account_of,
  one_redemption, change_account, add_ledger, change_redemption, invalid_type, below_minimum,
  no_token_account, insufficient_balance, not_found, cannot_cancel, unknown_type, api_credits,
  gift_card, upi, bank_withdrawal, other, pending,
}
use agentchains.Redemption.Service.{
  min_threshold, reject_with, process_api_credit_redemption, process_offline, hold, refund,
  hold_entry, refund_entry, new_redemption,
}

-- `create_redemption` up to its commit: the hold and the pending request.
unfoldable pub hold_redemption :
    Fresh → ℕ → RedemptionType → Decimal → Action Error Store RedemptionRequest
unfolding commit
hold_redemption fresh creator_id kind amount = do
  minimum ← or_raise (min_threshold kind) invalid_type
  raise_if (less amount (micros minimum)) below_minimum
  row ← account_of creator_id
  account ← or_raise row no_token_account
  raise_if (less (micros account.balance) amount) insufficient_balance
  change_account account.id (hold fresh amount)
  add_ledger (hold_entry fresh account amount)
  let redemption = new_redemption fresh creator_id kind amount
  modify (λ s. record s { redemptions = redemption ∷ s.redemptions })
  done ← commit
  pure redemption

-- What is raised after a commit does not undo it.
abbrev pub after_commit : {A : Type 0} → Action Error Store A → Action Error Store (Result Error A)
after_commit m s = elim (m s) [ ok (a, s') ↦ ok (ok a, s') | err e ↦ ok (err e, s) ]

-- API credits are processed at once, in a second transaction.
abbrev pub second_phase :
    Fresh → RedemptionType → RedemptionRequest → Action Error Store (Result Error RedemptionRequest)
second_phase fresh api_credits r = after_commit (process_api_credit_redemption fresh r.id)
second_phase fresh _ r = pure (ok r)

unfoldable pub create_redemption :
    Fresh → ℕ → RedemptionType → Decimal → Action Error Store (Result Error RedemptionRequest)
unfolding hold_redemption process_api_credit_redemption
create_redemption fresh creator_id kind amount = do
  redemption ← hold_redemption fresh creator_id kind amount
  second_phase fresh kind redemption

-- The refund of `cancel_redemption` and `admin_reject_redemption`; without an account there is none.
abbrev pub refund_to :
    Fresh → RedemptionRequest → RefType → Option TokenAccount → Action Error Store (Unit {0})
refund_to fresh r ref_type none = pure tt
refund_to fresh r ref_type (some account) = do
  change_account account.id (refund r.amount_usd fresh.now)
  add_ledger (refund_entry fresh account r ref_type)

abbrev pub is_pending : Status → Bool
is_pending pending = true
is_pending _ = false

unfoldable pub cancel_redemption : Fresh → ℕ → ℕ → Action Error Store RedemptionRequest
unfolding commit
cancel_redemption fresh redemption_id creator_id = do
  row ← one_redemption (λ r. r.id == redemption_id && r.creator_id == creator_id)
  redemption ← or_raise row not_found
  raise_if (if is_pending redemption.status then false else true) cannot_cancel
  account ← account_of creator_id
  refunded ← refund_to fresh redemption RefType.redemption_cancel account
  change_redemption redemption.id (reject_with fresh.now)
  done ← commit
  pure (reject_with fresh.now redemption)

unfoldable pub admin_reject_redemption : Fresh → ℕ → Action Error Store RedemptionRequest
unfolding commit
admin_reject_redemption fresh redemption_id = do
  row ← one_redemption (λ r. r.id == redemption_id)
  redemption ← or_raise row not_found
  account ← account_of redemption.creator_id
  refunded ← refund_to fresh redemption RefType.redemption_rejected account
  change_redemption redemption.id (reject_with fresh.now)
  done ← commit
  pure (reject_with fresh.now redemption)

abbrev pub process_by : Fresh → RedemptionType → ℕ → Action Error Store RedemptionRequest
process_by fresh api_credits id = process_api_credit_redemption fresh id
process_by fresh gift_card id = process_offline fresh id
process_by fresh bank_withdrawal id = process_offline fresh id
process_by fresh upi id = process_offline fresh id
process_by fresh (other n) id = raise unknown_type

unfoldable pub admin_approve_redemption : Fresh → ℕ → Action Error Store RedemptionRequest
unfolding process_api_credit_redemption process_offline
admin_approve_redemption fresh redemption_id = do
  row ← one_redemption (λ r. r.id == redemption_id)
  redemption ← or_raise row not_found
  process_by fresh redemption.redemption_type redemption_id
