-- ===== src/Purchase/Moves.antt =====
-- The states of a purchase: which moves the operations make, and on which rows.
use mathlib.Core.Path.{subst}
use agentchains.Base.{
  ℕ, ◌≡◌, refl, sym, Bool, true, false, not, Option, none, some, List, [], ◌∷◌, inl, inr, arith,
  ◌==◌, if◌then◌else◌, Bool-cases, ==→eq, Ensures, or_raise_ends, call_bind, raise_if_bind,
}
use agentchains.Base.Table.{find_key, find_holds, update, scalar_bind}
use agentchains.Purchase.Market.{
  Status, Transaction, Market, Env, get_transaction, get_agent, tx_id_of, not_authorized,
  invalid_state, multiple_results, transaction_not_found, agent_not_found,
}
use agentchains.Purchase.Service.{
  is_status, is_other, settle_payment, deliver, confirm_payment, deliver_content,
}

-- The edges of the state machine, and staying.
unfoldable pub follows : Status → Status → Bool
follows Status.payment_pending Status.payment_confirmed = true
follows Status.payment_pending Status.failed = true
follows Status.payment_confirmed Status.delivered = true
follows Status.delivered Status.completed = true
follows Status.delivered Status.disputed = true
follows _ _ = false

-- A row after a call: the same row, or the same purchase one edge on.
abbrev pub MovesTo : Transaction → Transaction → Type 0
MovesTo t t' =
    (t'.id ≡ t.id)
    × (t'.buyer_id ≡ t.buyer_id)
    × (t'.seller_id ≡ t.seller_id)
    × (t'.amount_usdc ≡ t.amount_usdc)
    × (t'.content_hash ≡ t.content_hash)
    × (follows t.status t'.status ≡ true)

-- Row `k` moved along an edge, and every other row is as it was.
abbrev pub OneMoves : ℕ → List Transaction → List Transaction → Type 0
OneMoves k [] [] = ⊥
OneMoves k [] (t' ∷ rows') = ⊥
OneMoves k (t ∷ rows) [] = ⊥
OneMoves k (t ∷ rows) (t' ∷ rows') =
    if t.id == k then MovesTo t t' × (rows' ≡ rows) else (t' ≡ t) × OneMoves k rows rows'

pub OneMoves-update :
    (k : ℕ) (f : Transaction → Transaction) (rows : List Transaction) (t : Transaction)
    → find_key tx_id_of k rows ≡ some t
    → MovesTo t (f t)
    → OneMoves k rows (update tx_id_of k f rows)
OneMoves-update k f [] t h m = cc
OneMoves-update k f (x ∷ rows) t h m = elim (Bool-cases (x.id == k)) [
  | inl e ↦
      let same : x ≡ t = ground arith in
      rw (e, OneMoves) (rw e (subst (λ y. MovesTo y (f y)) (sym same) m, refl))
  | inr e ↦ rw (e, OneMoves) (rw e (refl, OneMoves-update k f rows t (rw e at h) m))
]

-- What `_get_transaction` hands on.
abbrev pub Finds : ℕ → Market → Transaction → Market → Type 0
Finds id m t m' = (m' ≡ m) × (t.id ≡ id) × (find_key tx_id_of id m.transactions ≡ some t)

pub get_transaction-Finds : (id : ℕ) (m : Market) → Ensures (Finds id m) (get_transaction id m)
unfolding get_transaction
get_transaction-Finds id m =
    scalar_bind (Finds id m) _ m multiple_results (λ n. n.transactions) (λ t. t.id == id)
      λ o found lost. or_raise_ends (Finds id m) m o transaction_not_found λ t e.
        (refl, ==→eq t.id id (find_holds (λ x. x.id == id) m.transactions t (found t e)), found t e)

pub get_agent_reads : (id : ℕ) (m : Market) → Ensures (λ _ m'. m' ≡ m) (get_agent id m)
unfolding get_agent
get_agent_reads id m =
    scalar_bind (λ _ m'. m' ≡ m) _ m multiple_results (λ n. n.db.agents) (λ a. a.id == id)
      λ o found lost. or_raise_ends (λ _ m'. m' ≡ m) m o agent_not_found λ a e. refl

settle-MovesTo :
    (env : Env) (signature hash : Option ℕ) (t : Transaction)
    → not (is_status t.status Status.payment_pending) ≡ false
    → MovesTo t (settle_payment env signature hash t)
unfolding settle_payment follows
settle-MovesTo env (some s) hash t h = ground arith
settle-MovesTo env none (some x) t h = ground arith
settle-MovesTo env none none t h = ground arith

pub confirm-OneMoves :
    (env : Env) (id : ℕ) (signature hash buyer : Option ℕ) (m : Market)
    → Ensures
        (λ _ m'. OneMoves id m.transactions m'.transactions)
        (confirm_payment env id signature hash buyer m)
unfolding confirm_payment
confirm-OneMoves env id signature hash buyer m =
    call_bind C _ m (get_transaction id) (Finds id m) (get_transaction-Finds id m)
      λ t m' (same, e, found). rw same (
        raise_if_bind C _ m (is_other buyer t.buyer_id) not_authorized λ authorized.
          raise_if_bind C _ m (not (is_status t.status Status.payment_pending))
            (invalid_state t.status Status.payment_pending)
            λ open_.
              call_bind C _ m (get_agent t.seller_id) _ (get_agent_reads t.seller_id m)
                λ seller m'' same'.
                  rw (same', e)
                    (OneMoves-update id (settle_payment env signature hash) m.transactions t found
                      (settle-MovesTo env signature hash t open_)))
  where
    C : Transaction → Market → Type 0
    C = λ _ m'. OneMoves id m.transactions m'.transactions

deliver-MovesTo :
    (env : Env) (content : List ℕ) (t : Transaction)
    → not (is_status t.status Status.payment_confirmed) ≡ false
    → MovesTo t (deliver env content t)
unfolding follows
deliver-MovesTo env content t h = ground arith

pub deliver-OneMoves :
    (env : Env) (id : ℕ) (content : List ℕ) (seller : ℕ) (m : Market)
    → Ensures
        (λ _ m'. OneMoves id m.transactions m'.transactions)
        (deliver_content env id content seller m)
unfolding deliver_content
deliver-OneMoves env id content seller m =
    call_bind C _ m (get_transaction id) (Finds id m) (get_transaction-Finds id m)
      λ t m' (same, e, found). rw same (
        raise_if_bind C _ m (not (t.seller_id == seller)) not_authorized λ authorized.
          raise_if_bind C _ m (not (is_status t.status Status.payment_confirmed))
            (invalid_state t.status Status.payment_confirmed)
            λ paid. rw e (
              OneMoves-update id (deliver env content) m.transactions t found
                (deliver-MovesTo env content t paid)))
  where
    C : Transaction → Market → Type 0
    C = λ _ m'. OneMoves id m.transactions m'.transactions
