-- ===== src/Deposits/Service.antt =====
-- `create_deposit`, `confirm_deposit`, `cancel_deposit`, `update_deposit_payment_ref` and `credit_signup_bonus` of
-- marketplace/services/deposit_service.py, and TokenDeposit of models/token_account.py. The ledger's deposit
-- commits before the status is set, so that a confirmation is `credit_deposit`, up to that commit, and
-- `complete_deposit`; amounts are cents, and an empty caller is none.
use agentchains.Base.{
  ℕ, Bool, true, false, not, Option, none, some, List, ◌∷◌, ◌==◌, ◌>>=◌, ◌>>◌, Action, ok, err,
  pure, modify, reads, raise_if, or_raise, select,
}
use agentchains.Base.Int.{ℤ, pos, leb_ℤ}
use agentchains.Base.Table.{scalar_one_or_none, update}
use agentchains.Ledger.Decimal.{Decimal}
use agentchains.Ledger.Model.{TokenLedger, Db, Host}
use agentchains.Ledger.Model
use agentchains.Ledger.Deposit.{deposit}

pub data Status : Type 0 where
  pending completed failed refunded : Status

pub record TokenDeposit : Type 0 where
  pub id : ℕ
  pub agent_id : ℕ
  pub amount_usd : ℤ
  pub status : Status
  pub payment_ref : Option ℕ
  pub completed_at : Option ℕ

pub record Bank : Type 0 where
  pub db : Db
  pub deposits : List TokenDeposit

pub data Error : Type 0 where
  not_found not_owner not_pending multiple_results amount_not_positive : Error
  ledger : Model.Error → Error

abbrev pub cents : ℤ → Decimal
cents a = record { coeff = a; places = 2 }

abbrev pub is_pending : Status → Bool
is_pending Status.pending = true
is_pending _ = false

abbrev pub deposit_id_of : TokenDeposit → ℕ
deposit_id_of d = d.id

abbrev pub new_deposit : ℕ → ℕ → ℤ → TokenDeposit
new_deposit id agent_id amount = record {
  id = id;
  agent_id = agent_id;
  amount_usd = amount;
  status = Status.pending;
  payment_ref = none;
  completed_at = none;
}

-- `uuid4` gives the id, which is not taken.
unfoldable pub create_deposit : ℕ → ℕ → ℤ → Action Error Bank TokenDeposit
create_deposit id agent_id amount = do
  raise_if (leb_ℤ amount (pos 0)) amount_not_positive
  modify (λ b. record b { deposits = new_deposit id agent_id amount ∷ b.deposits })
  pure (new_deposit id agent_id amount)

unfoldable pub get_deposit : ℕ → Action Error Bank TokenDeposit
get_deposit id = do
  row ← reads (λ b.
      scalar_one_or_none multiple_results (select (λ (d : TokenDeposit). d.id == id) b.deposits))
  or_raise row not_found

abbrev pub is_other : Option ℕ → TokenDeposit → Bool
is_other none d = false
is_other (some a) d = not (d.agent_id == a)

abbrev pub on_bank : {A : Type 0} → Action Model.Error Db A → Action Error Bank A
on_bank call b = elim (call b.db) [
  | ok (a, db') ↦ ok (a, record b { db = db' })
  | err e ↦ err (Error.ledger e)
]

-- The confirmation up to the commit of the ledger's entry.
unfoldable pub credit_deposit : Host → ℕ → Option ℕ → Action Error Bank TokenLedger
unfolding get_deposit deposit
credit_deposit host id agent_id = do
  d ← get_deposit id
  raise_if (is_other agent_id d) not_owner
  raise_if (not (is_pending d.status)) not_pending
  on_bank (deposit host (some d.agent_id) (cents d.amount_usd) (some d.id))

abbrev pub set_status : Status → Option ℕ → TokenDeposit → TokenDeposit
set_status status completed_at d = record d { status = status; completed_at = completed_at }

-- The rest of the confirmation.
unfoldable pub complete_deposit : ℕ → ℕ → Action Error Bank (Unit {0})
complete_deposit now id = modify (λ b. record b {
  deposits = update deposit_id_of id (set_status Status.completed (some now)) b.deposits;
})

unfoldable pub confirm_deposit : Host → ℕ → Option ℕ → Action Error Bank (Unit {0})
unfolding credit_deposit complete_deposit
confirm_deposit host id agent_id = do
  entry ← credit_deposit host id agent_id
  complete_deposit host.now id

abbrev pub fail : TokenDeposit → TokenDeposit
fail d = record d { status = Status.failed }

unfoldable pub cancel_deposit : ℕ → Option ℕ → Action Error Bank (Unit {0})
unfolding get_deposit
cancel_deposit id agent_id = do
  d ← get_deposit id
  raise_if (is_other agent_id d) not_owner
  raise_if (not (is_pending d.status)) not_pending
  modify (λ b. record b { deposits = update deposit_id_of id fail b.deposits })

abbrev pub refer : ℕ → TokenDeposit → TokenDeposit
refer payment_ref d = record d { payment_ref = some payment_ref }

-- Whatever the status of the deposit is.
unfoldable pub update_deposit_payment_ref : ℕ → ℕ → Action Error Bank (Unit {0})
unfolding get_deposit
update_deposit_payment_ref id payment_ref = do
  d ← get_deposit id
  modify (λ b. record b { deposits = update deposit_id_of id (refer payment_ref) b.deposits })

-- `settings.signup_bonus_usd` is the amount.
unfoldable pub credit_signup_bonus : Host → ℤ → ℕ → ℕ → Action Error Bank (Unit {0})
unfolding create_deposit confirm_deposit
credit_signup_bonus host bonus_usd id agent_id = do
  d ← create_deposit id agent_id bonus_usd
  confirm_deposit host d.id none
