-- ===== src/Ledger/Steps.antt =====
-- The reads of the ledger's operations, as rules for postconditions: a query, a lock, the lookup of a
-- replay and a commit leave the database as it was, and the rows that they hand on stand in it.
use agentchains.Base.{
  ℕ, ◌≡◌, refl, ap, ◌∙◌, Bool, Option, none, some, List, [], ◌∷◌, inl, inr, arith, ◌==◌, Bool-cases,
  Action, Result, ok, err, Ensures, reads_bind, or_raise_ends, call_bind, select, ◌>>=◌,
}
use agentchains.Base.Table.{find, find_key, scalar_one_or_none, find_of_scalar}
use agentchains.Ledger.Model.{
  TokenAccount, TokenLedger, Db, Error, commit, constraints_hold, multiple_results,
  account_not_found, Key,
}
use agentchains.Ledger.Queries.{
  one_account, lock_all, locked_lookup, lock_account, get_creator_for_agent,
}
use agentchains.Ledger.Transfer.{has_key, find_replay}
use agentchains.Ledger.Sums.{account_id, find_key_of_find, Exists}

-- Every row that the lock dictionary holds stands in the table under its id.
abbrev pub AreLocked : Db → List (ℕ × TokenAccount) → Type 0
AreLocked db locked =
    (id : ℕ) (a : TokenAccount)
    → locked_lookup id locked ≡ some a
    → find_key account_id id db.accounts ≡ some a

abbrev pub Locks : ℕ → Db → TokenAccount → Db → Type 0
Locks id db a db' = (db' ≡ db) × (find_key account_id id db.accounts ≡ some a)

-- A query for one account hands on a row that the table holds.
pub one_account_bind :
    {B : Type 0} (R : B → Db → Type 0) (p : TokenAccount → Bool) (db : Db)
    (f : Option TokenAccount → Action Error Db B)
    → ((o : Option TokenAccount)
        → ((a : TokenAccount) → o ≡ some a → find p db.accounts ≡ some a)
        → Ensures R (f o db))
    → Ensures R ((one_account p >>= f) db)
one_account_bind R p db f k =
    reads_bind R f db (λ d. scalar_one_or_none multiple_results (select p d.accounts))
      λ o e. k o (λ a found. find_of_scalar multiple_results p db.accounts a (e ∙ ap ok found))

pub lock_account-Locks : (id : ℕ) (db : Db) → Ensures (Locks id db) (lock_account id db)
unfolding lock_account
lock_account-Locks id db =
    one_account_bind (Locks id db) (λ a. a.id == id) db _
      λ o found. or_raise_ends (Locks id db) db o account_not_found λ a e. (refl, found a e)

abbrev pub LocksAll : Db → List (ℕ × TokenAccount) → Db → Type 0
LocksAll db locked db' = (db' ≡ db) × AreLocked db locked

pub lock_all-LocksAll : (ids : List ℕ) (db : Db) → Ensures (LocksAll db) (lock_all ids db)
unfolding lock_all
lock_all-LocksAll [] db = (refl, λ id a h. cc)
lock_all-LocksAll (id ∷ ids) db =
    call_bind (LocksAll db) _ db (lock_account id) (Locks id db) (lock_account-Locks id db)
      λ a s' (same, found). rw same (
        call_bind (LocksAll db) _ db (lock_all ids) (LocksAll db) (lock_all-LocksAll ids db)
          λ rest s'' (same', known). (same', λ j b h. ground (arith, found, h, known j b)))

-- The row of any query stands under its id.
pub Exists-of_find :
    (p : TokenAccount → Bool) (db : Db) (o : Option TokenAccount)
    → ((a : TokenAccount) → o ≡ some a → find p db.accounts ≡ some a)
    → (a : TokenAccount) → o ≡ some a
    → Exists a.id db.accounts
Exists-of_find p db o found a e = find_key_of_find p db.accounts a (found a e)

pub get_creator_reads :
    (agent_id : ℕ) (db : Db) → Ensures (λ _ db'. db' ≡ db) (get_creator_for_agent agent_id db)
unfolding get_creator_for_agent
get_creator_reads agent_id db =
    reads_bind (λ _ db'. db' ≡ db) _ db
      (λ d. scalar_one_or_none multiple_results (select (λ a. a.id == agent_id) d.agents))
      λ o e. refl

pub commit_reads : (db : Db) → Ensures (λ _ db'. db' ≡ db) (commit db)
unfolding commit
commit_reads db = elim (Bool-cases (constraints_hold db)) [ inl e ↦ rw e refl | inr e ↦ rw e tt ]

pub find_replay_reads :
    (key : Option Key) (db : Db) → Ensures (λ _ db'. db' ≡ db) (find_replay key db)
unfolding find_replay
find_replay_reads none db = refl
find_replay_reads (some k) db =
    scanned (scalar_one_or_none multiple_results (select (has_key k) db.ledger))
  where
    scanned :
        (r : Result Error (Option TokenLedger))
        → Ensures
            (λ _ db'. db' ≡ db)
            (elim r as (λ _. Result Error (Option TokenLedger × Db)) [
              | ok a ↦ ok (a, db)
              | err e ↦ err e
            ])
    scanned (ok a) = refl
    scanned (err e) = tt
