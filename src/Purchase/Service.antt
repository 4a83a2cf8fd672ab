-- ===== src/Purchase/Service.antt =====
-- The operations of marketplace/services/transaction_service.py. `commit` is left out where no
-- constraint can fail: the rows that change here have no constraint but their keys.
use agentchains.Base.{
  ℕ, ◌+◌, Bool, true, false, not, Option, none, some, List, ◌∷◌, ◌==◌, ◌&&◌, Action, modify, pure,
  raise_if, ◌>>=◌, ◌>>◌, if◌then◌else◌,
}
use agentchains.Base.Table.{update}
use agentchains.Ledger.Decimal.{micros}
use agentchains.Ledger.Transfer.{debit_for_purchase}
use agentchains.Purchase.Market.{
  Status, Verification, Error, Transaction, DataListing, Market, Env, get_transaction, get_listing,
  get_agent, change_transaction, on_ledger, listing_id_of, not_authorized, invalid_state,
}

-- `tx.status != expected`
abbrev pub is_status : Status → Status → Bool
is_status Status.payment_pending Status.payment_pending = true
is_status Status.payment_confirmed Status.payment_confirmed = true
is_status Status.delivered Status.delivered = true
is_status _ _ = false

abbrev pub new_transaction : Env → DataListing → ℕ → Transaction
new_transaction env listing buyer_id = record {
  id = env.transaction_id;
  listing_id = listing.id;
  buyer_id = buyer_id;
  seller_id = listing.seller_id;
  amount_usdc = listing.price_usdc;
  status = Status.payment_pending;
  payment_tx_hash = none;
  content_hash = listing.content_hash;
  delivered_hash = none;
  verification_status = Verification.pending;
  paid_at = none;
  delivered_at = none;
  verified_at = none;
  completed_at = none;
}

unfoldable pub initiate_transaction : Env → ℕ → ℕ → Action Error Market Transaction
initiate_transaction env listing_id buyer_id = do
  listing ← get_listing listing_id
  seller ← get_agent listing.seller_id
  let tx = new_transaction env listing buyer_id
  modify (λ m. record m { transactions = tx ∷ m.transactions })
  pure tx

-- `verify_payment`: the transaction hash, if the payment is verified.
unfoldable pub verify_payment : Env → Option ℕ
verify_payment env = if env.simulated then some env.simulated_hash else none

-- The text `"sim_auto"`.
abbrev pub sim_auto : ℕ
sim_auto = 0

abbrev pub confirmed : ℕ → ℕ → Transaction → Transaction
confirmed hash now t = record t {
  status = Status.payment_confirmed;
  payment_tx_hash = some hash;
  paid_at = some now;
}

abbrev pub payment_failed : Transaction → Transaction
payment_failed t = record t { status = Status.failed }

-- The three ways to confirm: by a signature, by a transaction hash, and by neither.
unfoldable pub settle_payment : Env → Option ℕ → Option ℕ → Transaction → Transaction
unfolding verify_payment
settle_payment env (some signature) hash t = elim (verify_payment env) [
  | none ↦ payment_failed t
  | some h ↦ confirmed h env.now t
]
settle_payment env none (some hash) t = confirmed hash env.now t
settle_payment env none none t = elim (verify_payment env) [
  | none ↦ confirmed sim_auto env.now t
  | some h ↦ confirmed h env.now t
]

abbrev pub is_other : Option ℕ → ℕ → Bool
is_other none id = false
is_other (some given) id = not (id == given)

unfoldable pub confirm_payment :
    Env → ℕ → Option ℕ → Option ℕ → Option ℕ → Action Error Market Transaction
confirm_payment env tx_id payment_signature payment_tx_hash buyer_id = do
  tx ← get_transaction tx_id
  raise_if (is_other buyer_id tx.buyer_id) not_authorized
  raise_if (not (is_status tx.status Status.payment_pending))
      (invalid_state tx.status Status.payment_pending)
  seller ← get_agent tx.seller_id
  change_transaction tx.id (settle_payment env payment_signature payment_tx_hash)
  pure (settle_payment env payment_signature payment_tx_hash tx)

abbrev pub deliver : Env → List ℕ → Transaction → Transaction
deliver env content t = record t {
  delivered_hash = some (env.sha256 content);
  status = Status.delivered;
  delivered_at = some env.now;
}

unfoldable pub deliver_content : Env → ℕ → List ℕ → ℕ → Action Error Market Transaction
deliver_content env tx_id content seller_id = do
  tx ← get_transaction tx_id
  raise_if (not (tx.seller_id == seller_id)) not_authorized
  raise_if (not (is_status tx.status Status.payment_confirmed))
      (invalid_state tx.status Status.payment_confirmed)
  change_transaction tx.id (deliver env content)
  pure (deliver env content tx)

-- Both hashes are set and equal.
abbrev pub hashes_match : Option ℕ → Option ℕ → Bool
hashes_match (some d) (some c) = d == c
hashes_match _ _ = false

abbrev pub matches : Transaction → Bool
matches t = hashes_match t.delivered_hash t.content_hash

abbrev pub complete : ℕ → Transaction → Transaction
complete now t = record t {
  verification_status = Verification.verified;
  status = Status.completed;
  verified_at = some now;
  completed_at = some now;
}

abbrev pub dispute : Transaction → Transaction
dispute t = record t { verification_status = Verification.failed; status = Status.disputed }

abbrev pub count_access : ℕ → Action Error Market (Unit {0})
count_access listing_id = modify (λ m. record m {
  listings =
      update listing_id_of listing_id (λ l. record l { access_count = l.access_count + 1 })
        m.listings;
})

-- The branch of matching hashes: the purchase is completed, paid and counted.
abbrev pub complete_purchase : Env → Transaction → Action Error Market Transaction
complete_purchase env tx = do
  change_transaction tx.id (complete env.now)
  receipt ←
      on_ledger (debit_for_purchase env.host tx.buyer_id tx.seller_id (micros tx.amount_usdc) tx.id)
  count_access tx.listing_id
  pure (complete env.now tx)

abbrev pub dispute_purchase : Transaction → Action Error Market Transaction
dispute_purchase tx = do change_transaction tx.id dispute; pure (dispute tx)

unfoldable pub verify_delivery : Env → ℕ → ℕ → Action Error Market Transaction
verify_delivery env tx_id buyer_id = do
  tx ← get_transaction tx_id
  raise_if (not (tx.buyer_id == buyer_id)) not_authorized
  raise_if (not (is_status tx.status Status.delivered)) (invalid_state tx.status Status.delivered)
  if matches tx then complete_purchase env tx else dispute_purchase tx

unfoldable pub get_transaction_for_agent : ℕ → ℕ → Action Error Market Transaction
get_transaction_for_agent tx_id agent_id = do
  tx ← get_transaction tx_id
  raise_if (not (tx.buyer_id == agent_id) && not (tx.seller_id == agent_id)) not_authorized
  pure tx
