-- ===== src/Redemption/Tests.antt =====
-- A creator's requests, and the theorems about them at concrete inputs.
use agentchains.Base.{inr, ◌≡◌, refl, none, some, List, [], ◌∷◌, Result, ok, err, map}
use agentchains.Base.Table.{sum_by}
use agentchains.Ledger.Sums.{total}
use agentchains.Ledger.Decimal.{to_decimal, micros}
use agentchains.Redemption.Amount.{times_one}
use agentchains.Base.Int.{ℤ, pos, ◌+ℤ◌, ◌-ℤ◌, ◌*ℤ◌}
use agentchains.Ledger.Model.{TokenAccount}
use agentchains.Redemption.Store.{
  Error, RedemptionRequest, ApiCreditBalance, Store, Fresh, upi, api_credits, pending, processing,
  rejected, cannot_cancel, Status,
}
use agentchains.Redemption.Service.{process_api_credit_redemption}
use agentchains.Redemption.Requests.{
  hold_redemption, create_redemption, cancel_redemption, admin_reject_redemption,
}
use agentchains.Redemption.Value.{IsHeld, value, hold_redemption_conserves}
use agentchains.Redemption.Reject.{Refunded}
use agentchains.Redemption.Refund.{
  IsReturned, cancel_conserves, reject_conserves, reject_again_pays,
}

abbrev creator : TokenAccount
creator = record {
  id = 4;
  agent_id = none;
  creator_id = some 5;
  balance = pos 20000000;
  total_deposited = pos 0;
  total_earned = pos 0;
  total_spent = pos 0;
  total_fees_paid = pos 0;
  updated_at = 0;
}

abbrev fresh : Fresh
fresh = record {
  ledger_id = 100;
  redemption_id = 200;
  credit_id = 300;
  now = 50;
  column = to_decimal;
}

abbrev request : Status → RedemptionRequest
request status = record {
  id = 7;
  creator_id = 5;
  redemption_type = upi;
  amount_usd = pos 6000000;
  amount_fiat = some (pos 6000000);
  status = status;
  payout_credits = none;
  ledger_entry_id = none;
  processed_at = none;
  completed_at = none;
}

abbrev store : List RedemptionRequest → Store
store requests = record {
  db = record { accounts = creator ∷ []; ledger = []; agents = [] };
  redemptions = requests;
  credits = [];
}

abbrev answer : {A : Type 0} → A → Result Error (A × Store) → A
answer d (ok (a, s)) = a
answer d (err e) = d

abbrev left : {A : Type 0} → Result Error (A × Store) → Store
left (ok (a, s)) = s
left (err e) = store []

abbrev balances : Store → List ℤ
balances s = map (λ (a : TokenAccount). a.balance) s.db.accounts

held_out : Result Error (RedemptionRequest × Store)
held_out = hold_redemption fresh 5 upi (micros (pos 6000000)) (store [])

cancelled : Result Error (RedemptionRequest × Store)
cancelled = cancel_redemption fresh 7 5 (store (request pending ∷ []))

rejected_once : Result Error (RedemptionRequest × Store)
rejected_once = admin_reject_redemption fresh 7 (store (request processing ∷ []))

rejected_twice : Result Error (RedemptionRequest × Store)
rejected_twice = admin_reject_redemption fresh 7 (store (request rejected ∷ []))

-- A dollar buys a thousand credits, at once.
credits_bought :
    map
      (λ (c : ApiCreditBalance). c.credits_remaining)
      (left (
        create_redemption fresh 5 api_credits
          (record { coeff = pos 20; places = 1 })
          (store []))).credits
    ≡ pos 2000 ∷ []
unfolding create_redemption process_api_credit_redemption to_decimal ◌+ℤ◌ ◌-ℤ◌ ◌*ℤ◌
credits_bought = refl

late_cancel : cancel_redemption fresh 7 5 (store (request processing ∷ [])) ≡ err cannot_cancel
unfolding cancel_redemption
late_cancel = refl

-- The creator of a rejected request is paid once more.
paid_again : balances (left rejected_twice) ≡ pos 26000000 ∷ []
unfolding rejected_twice admin_reject_redemption ◌+ℤ◌ ◌-ℤ◌
paid_again = refl

-- Of a hold of seven places both the balance that is left and the amount that is held are rounded up.
rounded_twice :
    value
      (left (hold_redemption fresh 5 upi (record { coeff = pos 60000005; places = 7 }) (store [])))
    ≡ pos 20000001
unfolding hold_redemption to_decimal value sum_by total ◌+ℤ◌ ◌-ℤ◌ ◌*ℤ◌
rounded_twice = refl

-- Rounding half up is such a column.
to_decimal-micros : (n : ℤ) → to_decimal (micros n) ≡ n
unfolding to_decimal
to_decimal-micros n = times_one n

hold_redemption_conserves_example :
    IsHeld 5 (pos 6000000) (store []) (answer (request pending) held_out) (left held_out)
unfolding held_out hold_redemption to_decimal ◌+ℤ◌ ◌-ℤ◌ ◌*ℤ◌
hold_redemption_conserves_example =
    hold_redemption_conserves fresh 5 upi (pos 6000000) (store []) (left held_out)
      (answer (request pending) held_out) to_decimal-micros refl

cancel_conserves_example :
    IsReturned
      (request pending)
      (store (request pending ∷ []))
      (answer (request pending) cancelled)
      (left cancelled)
unfolding cancelled cancel_redemption ◌+ℤ◌ ◌-ℤ◌
cancel_conserves_example =
    cancel_conserves fresh 7 5 (store (request pending ∷ [])) (left cancelled) (request pending)
      (answer (request pending) cancelled) creator refl refl refl

reject_conserves_example :
    (value (left rejected_once) ≡ value (store (request processing ∷ [])))
    × Refunded
        (request processing)
        (store (request processing ∷ []))
        (answer (request pending) rejected_once)
        (left rejected_once)
unfolding rejected_once admin_reject_redemption ◌+ℤ◌ ◌-ℤ◌
reject_conserves_example =
    reject_conserves fresh 7 (store (request processing ∷ [])) (left rejected_once)
      (request processing) (answer (request pending) rejected_once) creator refl (inr refl) refl
      refl

reject_again_pays_example :
    value (left rejected_twice) ≡ value (store (request rejected ∷ [])) +ℤ pos 6000000
unfolding rejected_twice admin_reject_redemption ◌+ℤ◌ ◌-ℤ◌
reject_again_pays_example =
    reject_again_pays fresh 7 (store (request rejected ∷ [])) (left rejected_twice)
      (request rejected) (answer (request pending) rejected_twice) creator refl refl refl refl
