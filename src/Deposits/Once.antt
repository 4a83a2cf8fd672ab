-- ===== src/Deposits/Once.antt =====
-- A deposit is credited once, also where a confirmation is left between its two commits.
use mathlib.Core.Path.{subst}
use agentchains.Base.{
  ℕ, ◌≡◌, refl, sym, ap, ◌∙◌, Bool, true, false, not, Option, some, List, [], ◌∷◌, ◌==◌, ==→eq,
  Action, Result, ok, err, Ensures, call_bind, raise_if_bind, or_raise_ends,
}
use agentchains.Base.Int.{ℤ, pos, leb_ℤ}
use agentchains.Base.Table.{find_holds, scalar_bind}
use agentchains.Ledger.Model.{TokenLedger, Db, Host, Key}
use agentchains.Ledger.Model
use agentchains.Ledger.Transfer.{Request, transfer}
use agentchains.Ledger.Deposit.{deposit}
use agentchains.Ledger.Keys.{Among}
use agentchains.Ledger.Entries.{KeepsEntries}
use agentchains.Ledger.Credited.{Credits, deposit-Credits, deposit_refused, transfer-KeepsEntries}
use agentchains.Deposits.Service.{
  update_deposit_payment_ref, TokenDeposit, Bank, Error, cents, is_pending, create_deposit,
  get_deposit, is_other, on_bank, credit_deposit, complete_deposit, cancel_deposit, not_found,
  not_owner, not_pending, multiple_results, amount_not_positive,
}

-- What happens to the bank: parts of confirmations, cancellations, new deposits, payment references
-- and transfers of others.
pub data Event : Type 0 where
  credit : Host → ℕ → Option ℕ → Event
  complete : ℕ → ℕ → Event
  cancel : ℕ → Option ℕ → Event
  create : ℕ → ℕ → ℤ → Event
  refer : ℕ → ℕ → Event
  pay : Host → Request → Event

-- The bank after a call; a call that raises leaves it.
abbrev pub left : {A : Type 0} → Bank → Result Error (A × Bank) → Bank
left b (ok (a, b')) = b'
left b (err e) = b

unfoldable pub step : Event → Bank → Bank
unfolding credit_deposit complete_deposit cancel_deposit create_deposit update_deposit_payment_ref
    transfer
step (Event.credit host id agent_id) b = left b (credit_deposit host id agent_id b)
step (Event.complete now id) b = left b (complete_deposit now id b)
step (Event.cancel id agent_id) b = left b (cancel_deposit id agent_id b)
step (Event.create id agent_id amount) b = left b (create_deposit id agent_id amount b)
step (Event.refer id payment_ref) b = left b (update_deposit_payment_ref id payment_ref b)
step (Event.pay host req) b = left b (on_bank (transfer host req) b)

-- The last event is the first of the list.
unfoldable pub run : List Event → Bank → Bank
unfolding step
run [] b = b
run (e ∷ events) b = step e (run events b)

abbrev pub raises : {A : Type 0} → Result Error (A × Bank) → Bool
raises (ok a) = false
raises (err e) = true

-- The ledger has an entry with the key.
abbrev Holds : Key → Bank → Type 0
Holds k b = (e : TokenLedger) × (e.idempotency_key ≡ some k) × Among e b.db.ledger

on_bank_rule :
    {A : Type 0} (Q : A → Db → Type 0) (P : A → Bank → Type 0) (call : Action Model.Error Db A)
    (b : Bank)
    → Ensures Q (call b.db)
    → ((a : A) (d : Db) → Q a d → P a (record b { db = d }))
    → Ensures P (on_bank call b)
on_bank_rule {A = A} Q P call b q k = go (call b.db) q
  where
    go :
        (r : Result Model.Error (A × Db))
        → Ensures Q r
        → Ensures P (elim r as (λ _. Result Error (A × Bank)) [
          | ok (a, db') ↦ ok (a, record b { db = db' })
          | err e ↦ err (Error.ledger e)
        ])
    go (ok (a, d)) h = k a d h
    go (err e) h = tt

abbrev Reads : ℕ → Bank → TokenDeposit → Bank → Type 0
Reads id b d b' = (b' ≡ b) × (d.id ≡ id)

get_deposit-Reads : (id : ℕ) (b : Bank) → Ensures (Reads id b) (get_deposit id b)
unfolding get_deposit
get_deposit-Reads id b =
    scalar_bind (Reads id b) _ b multiple_results (λ (s : Bank). s.deposits)
      (λ (d : TokenDeposit). d.id == id)
      λ o found lost. or_raise_ends (Reads id b) b o not_found λ d e. (
        refl,
        ==→eq d.id id (find_holds (λ (t : TokenDeposit). t.id == id) b.deposits d (found d e)),
      )

-- The call of the ledger in a credit.
abbrev call_of : Host → TokenDeposit → Action Model.Error Db TokenLedger
call_of host d = deposit host (some d.agent_id) (cents d.amount_usd) (some d.id)

-- What the ledger's deposit ensures, the credit ensures.
credit_rule :
    (P : TokenLedger → Bank → Type 0) (host : Host) (id : ℕ) (agent_id : Option ℕ) (b : Bank)
    → ((d : TokenDeposit) → d.id ≡ id → Ensures P (on_bank (call_of host d) b))
    → Ensures P (credit_deposit host id agent_id b)
unfolding credit_deposit
credit_rule P host id agent_id b k =
    call_bind P _ b (get_deposit id) (Reads id b) (get_deposit-Reads id b) λ d b' (same, named).
      rw same (
        raise_if_bind P _ b (is_other agent_id d) not_owner
          λ owned. raise_if_bind P _ b (not (is_pending d.status)) not_pending λ open_. k d named)

credit-Holds :
    (host : Host) (id : ℕ) (agent_id : Option ℕ) (b : Bank)
    → Ensures (λ e b'. Holds (Key.deposit id) b') (credit_deposit host id agent_id b)
credit-Holds host id agent_id b = credit_rule _ host id agent_id b λ d named.
    on_bank_rule (Credits (some d.id) b.db) (λ _ b'. Holds (Key.deposit id) b') (call_of host d) b
      (deposit-Credits host (some d.agent_id) (cents d.amount_usd) (some d.id) b.db)
      λ e d' (bears, among, older). (e, bears ∙ ap (λ i. some (Key.deposit i)) named, among)

-- A call that keeps the entries of the ledger.
abbrev Keeps : {A : Type 0} → Bank → A → Bank → Type 0
Keeps b a b' = (e : TokenLedger) → Among e b.db.ledger → Among e b'.db.ledger

left-Keeps :
    {A : Type 0} (b : Bank) (r : Result Error (A × Bank))
    → Ensures (Keeps b) r
    → (e : TokenLedger) → Among e b.db.ledger
    → Among e (left b r).db.ledger
left-Keeps b (ok (a, b')) h = h
left-Keeps b (err x) h = λ e a. a

credit-Keeps :
    (host : Host) (id : ℕ) (agent_id : Option ℕ) (b : Bank)
    → Ensures (Keeps b) (credit_deposit host id agent_id b)
credit-Keeps host id agent_id b = credit_rule (Keeps b) host id agent_id b λ d named.
    on_bank_rule (Credits (some d.id) b.db) (Keeps b) (call_of host d) b
      (deposit-Credits host (some d.agent_id) (cents d.amount_usd) (some d.id) b.db)
      λ e d' (_, _, older). older

cancel-Keeps :
    (id : ℕ) (agent_id : Option ℕ) (b : Bank) → Ensures (Keeps b) (cancel_deposit id agent_id b)
unfolding cancel_deposit
cancel-Keeps id agent_id b =
    call_bind (Keeps b) _ b (get_deposit id) (Reads id b) (get_deposit-Reads id b)
      λ d b' (same, named). rw same (
        raise_if_bind (Keeps b) _ b (is_other agent_id d) not_owner λ owned.
          raise_if_bind (Keeps b) _ b (not (is_pending d.status)) not_pending λ open_ e a. a)

refer-Keeps : (id ref : ℕ) (b : Bank) → Ensures (Keeps b) (update_deposit_payment_ref id ref b)
unfolding update_deposit_payment_ref
refer-Keeps id ref b =
    call_bind (Keeps b) _ b (get_deposit id) (Reads id b) (get_deposit-Reads id b)
      λ d b' (same, named). rw same (λ e a. a)

step-Keeps :
    (event : Event) (b : Bank) (e : TokenLedger)
    → Among e b.db.ledger
    → Among e (step event b).db.ledger
unfolding step complete_deposit create_deposit
step-Keeps (Event.credit host id agent_id) b = left-Keeps b _ (credit-Keeps host id agent_id b)
step-Keeps (Event.complete now id) b = λ e a. a
step-Keeps (Event.cancel id agent_id) b = left-Keeps b _ (cancel-Keeps id agent_id b)
step-Keeps (Event.create id agent_id amount) b =
    left-Keeps b _
      (raise_if_bind (Keeps b) _ b (leb_ℤ amount (pos 0)) amount_not_positive λ positive e a. a)
step-Keeps (Event.refer id payment_ref) b = left-Keeps b _ (refer-Keeps id payment_ref b)
step-Keeps (Event.pay host req) b = left-Keeps b (on_bank (transfer host req) b) (
    on_bank_rule (KeepsEntries b.db) (Keeps b) (transfer host req) b
      (transfer-KeepsEntries host req b.db) λ e d k. k)

run-Keeps :
    (events : List Event) (b : Bank) (e : TokenLedger)
    → Among e b.db.ledger
    → Among e (run events b).db.ledger
unfolding run
run-Keeps [] b e a = a
run-Keeps (event ∷ events) b e a = step-Keeps event (run events b) e (run-Keeps events b e a)

credit_refused :
    (host : Host) (id : ℕ) (agent_id : Option ℕ) (b : Bank)
    → Holds (Key.deposit id) b
    → Ensures (λ _ _. ⊥) (credit_deposit host id agent_id b)
credit_refused host id agent_id b (e, bears, among) =
    credit_rule (λ _ _. ⊥) host id agent_id b
      λ d named.
        on_bank_rule (λ _ _. ⊥) (λ _ _. ⊥) (call_of host d) b
          (deposit_refused host (some d.agent_id) (cents d.amount_usd) d.id b.db e
            (bears ∙ ap (λ i. some (Key.deposit i)) (sym named)) among)
          λ a d' h. h

raised : {A : Type 0} (r : Result Error (A × Bank)) → Ensures (λ _ _. ⊥) r → raises r ≡ true
raised (ok (a, b)) h = absurd h
raised (err e) h = refl

-- After the credit of a deposit, every other credit of it raises, for whoever asks: also where the
-- confirmation stopped before it set the status, and whatever confirmations, cancellations, new deposits,
-- payment references and transfers came between.
pub credit_once :
    (host host' : Host) (id : ℕ) (agent_id agent_id' : Option ℕ) (b b' : Bank) (entry : TokenLedger)
    (events : List Event)
    → credit_deposit host id agent_id b ≡ ok (entry, b')
    → raises (credit_deposit host' id agent_id' (run events b')) ≡ true
credit_once host host' id agent_id agent_id' b b' entry events h =
    let (e, bears, among) =
      subst (Ensures (λ _ b''. Holds (Key.deposit id) b'')) h (credit-Holds host id agent_id b) in
    raised _
      (credit_refused host' id agent_id' (run events b') (e, bears, run-Keeps events b' e among))
