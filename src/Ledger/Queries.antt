-- ===== src/Ledger/Queries.antt =====
-- The account lookups of marketplace/services/token_service.py, its row locks, and the hash chain of
-- marketplace/core/hashing.py. A lock changes no row, so within one session it is a read.
use agentchains.Base.{
  ℕ, Bool, Option, none, some, List, [], ◌∷◌, ◌==◌, ◌==?◌, ltb, ◌&&◌, Action, reads, or_raise, pure,
  modify, ◌>>=◌, if◌then◌else◌, select,
}
use agentchains.Base.Int.{ℤ}
use agentchains.Base.Table.{scalar_one_or_none, update}
use agentchains.Ledger.Model.{
  TokenAccount, TokenLedger, RegisteredAgent, Db, Host, Error, TxType, Field, account_not_found,
  multiple_results, key_error,
}

-- `scalar_one_or_none` of a query on the accounts.
abbrev pub one_account : (TokenAccount → Bool) → Action Error Db (Option TokenAccount)
one_account p = reads (λ db. scalar_one_or_none multiple_results (select p db.accounts))

unfoldable pub lock_account : ℕ → Action Error Db TokenAccount
lock_account account_id = do
  account ← one_account (λ a. a.id == account_id)
  or_raise account account_not_found

abbrev pub is_agents : Option ℕ → TokenAccount → Bool
is_agents none a = a.agent_id ==? none && a.creator_id ==? none
is_agents (some agent) a = a.agent_id ==? some agent

unfoldable pub get_account_by_agent : Option ℕ → Action Error Db (Option TokenAccount)
get_account_by_agent agent_id = one_account (is_agents agent_id)

unfoldable pub get_account_by_creator : ℕ → Action Error Db (Option TokenAccount)
get_account_by_creator creator_id = one_account (λ a. a.creator_id ==? some creator_id)

abbrev pub creator_column : Option RegisteredAgent → Option ℕ
creator_column none = none
creator_column (some a) = a.creator_id

unfoldable pub get_creator_for_agent : ℕ → Action Error Db (Option ℕ)
get_creator_for_agent agent_id = do
  row ← reads (λ db. scalar_one_or_none multiple_results (select (λ a. a.id == agent_id) db.agents))
  pure (creator_column row)

-- `sorted({a, b, c})`: each id once, in increasing order.
abbrev pub insert_sorted : ℕ → List ℕ → List ℕ
insert_sorted a [] = a ∷ []
insert_sorted a (b ∷ ids) =
    let rest = insert_sorted a ids in
    if ltb a b then a ∷ b ∷ ids else (if a == b then b ∷ ids else b ∷ rest)

abbrev pub sort_set : List ℕ → List ℕ
sort_set [] = []
sort_set (a ∷ ids) = insert_sorted a (sort_set ids)

-- The loop that fills the dictionary `locked`.
unfoldable pub lock_all : List ℕ → Action Error Db (List (ℕ × TokenAccount))
unfolding lock_account
lock_all [] = pure []
lock_all (id ∷ ids) = do account ← lock_account id; rest ← lock_all ids; pure ((id, account) ∷ rest)

abbrev pub locked_lookup : ℕ → List (ℕ × TokenAccount) → Option TokenAccount
locked_lookup id [] = none
locked_lookup id ((k, a) ∷ rest) =
    let later = locked_lookup id rest in if id == k then some a else later

-- `locked[id]`
abbrev pub locked_account : ℕ → List (ℕ × TokenAccount) → Action Error Db TokenAccount
locked_account id locked = or_raise (locked_lookup id locked) key_error

-- A write to the object that stands for the row.
abbrev pub change : ℕ → (TokenAccount → TokenAccount) → Action Error Db (Unit {0})
change id f =
    modify (λ db. record db { accounts = update (λ (a : TokenAccount). a.id) id f db.accounts })

abbrev pub add_entry : TokenLedger → Action Error Db (Unit {0})
add_entry e = modify (λ db. record db { ledger = e ∷ db.ledger })

-- The entry with the greatest `created_at`; of several, the one written last.
abbrev pub latest : List TokenLedger → Option TokenLedger
latest [] = none
latest (e ∷ es) = elim (latest es) [
  | none ↦ some e
  | some l ↦ if ltb e.created_at l.created_at then some l else some e
]

abbrev pub hash_column : Option TokenLedger → Option ℕ
hash_column none = none
hash_column (some e) = e.entry_hash

unfoldable pub latest_hash : Db → Option ℕ
latest_hash db = hash_column (latest db.ledger)

abbrev pub or_field : Option ℕ → (ℕ → Field) → Field → Field
or_field none f d = d
or_field (some x) f d = f x

unfoldable pub compute_ledger_hash : Host → Option ℕ → Option ℕ → Option ℕ → ℤ → ℤ → TxType → ℕ → ℕ
compute_ledger_hash host prev_hash from_account_id to_account_id amount fee_amount tx_type
      timestamp =
    host.sha256 (
      or_field prev_hash Field.hash Field.genesis
      ∷ or_field from_account_id Field.account Field.mint
      ∷ or_field to_account_id Field.account Field.withdraw
      ∷ Field.money amount
      ∷ Field.money fee_amount
      ∷ Field.kind tx_type
      ∷ Field.stamp timestamp
      ∷ [])
