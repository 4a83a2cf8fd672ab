-- ===== src/Purchase/Callers.antt =====
-- Who may move a purchase: `confirm_payment`, `deliver_content` and `verify_delivery` of
-- marketplace/services/transaction_service.py refuse every other caller.
use agentchains.Base.{ℕ, ◌≡◌, none, some, arith, ok, err}
use agentchains.Purchase.Market.{Status, Transaction, Market, Env, get_transaction, not_authorized}
use agentchains.Purchase.Service.{confirm_payment, deliver_content, verify_delivery}
use agentchains.Purchase.Verify.{Call, perform, confirm, deliver_, verify}

-- The caller is the party that the call is for; a confirmation may leave its caller out.
abbrev pub Authorized : Call → Transaction → Type 0
Authorized (confirm signature hash (some buyer)) t = t.buyer_id ≡ buyer
Authorized (confirm signature hash none) t = Unit
Authorized (deliver_ content seller) t = t.seller_id ≡ seller
Authorized (verify buyer) t = t.buyer_id ≡ buyer

-- The state that a call needs.
abbrev pub needed : Call → Status
needed (confirm signature hash buyer) = Status.payment_pending
needed (deliver_ content seller) = Status.payment_confirmed
needed (verify buyer) = Status.delivered

-- A call on a purchase that exists is refused as not authorized if its caller is another than the party
-- it is for, whatever state the purchase is in.
strangers_refused :
    (env : Env) (id : ℕ) (c : Call) (m : Market) (t : Transaction)
    → get_transaction id m ≡ ok (t, m)
    → ¬ Authorized c t
    → perform env id c m ≡ err not_authorized
unfolding confirm_payment deliver_content verify_delivery
strangers_refused env id (confirm signature hash (some buyer)) m t h no_ = ground (arith, h)
strangers_refused env id (confirm signature hash none) m t h no_ = absurd (no_ tt)
strangers_refused env id (deliver_ content seller) m t h no_ = ground (arith, h)
strangers_refused env id (verify buyer) m t h no_ = ground (arith, h)
