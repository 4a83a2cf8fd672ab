-- ===== src/Ledger/Walk.antt =====
-- The way through `transfer_new` of Ledger/Transfer.antt to its booking, as a rule for postconditions.
use agentchains.Base.{
  ℕ, ◌≡◌, none, some, [], ◌∷◌, ◌==◌, Action, Ensures, or_raise_bind, pure, call_bind, raise_if_bind,
  ◌>>=◌,
}
use agentchains.Base.Int.{ℤ, ltb_ℤ}
use agentchains.Base.Table.{find_key}
use agentchains.Ledger.Model.{
  TokenAccount, TokenLedger, Db, Host, Error, commit, insufficient_balance,
}
use agentchains.Ledger.Queries.{lock_all, locked_lookup, get_account_by_agent, is_agents, sort_set}
use agentchains.Ledger.Transfer.{Request, net_of, book_transfer, royalty_after, transfer_new}
use agentchains.Ledger.Sums.{account_id, find_key_of_find, Exists}
use agentchains.Ledger.Steps.{one_account_bind, LocksAll, lock_all-LocksAll}

-- From the booking on: the balances, the royalty, the commit.
abbrev pub booked :
    Host → Request → ℤ → TokenAccount → TokenAccount → TokenAccount → Action Error Db TokenLedger
booked host req amount sender receiver platform = do
  entry ← book_transfer host req sender receiver platform amount
  royalty ← royalty_after host req (net_of host amount) entry req.to_agent_id
  done ← commit
  pure entry

-- What the booking of three accounts that exist ensures, the transfer does.
pub transfer_new_ends :
    (P : TokenLedger → Db → Type 0) (host : Host) (req : Request) (amount : ℤ) (db : Db)
    → ((sender receiver platform : TokenAccount)
        → Exists sender.id db.accounts
        → Exists receiver.id db.accounts
        → Exists platform.id db.accounts
        → Ensures P (booked host req amount sender receiver platform db))
    → Ensures P (transfer_new host req amount db)
unfolding transfer_new get_account_by_agent
transfer_new_ends P host req amount db then_ =
    one_account_bind P (is_agents req.from_agent_id) db _ λ from_row hf.
      one_account_bind P (is_agents req.to_agent_id) db _ λ to_row ht.
        or_raise_bind P _ db from_row _ λ from_account ef.
          or_raise_bind P _ db to_row _ λ to_account et.
            one_account_bind P (is_agents none) db _ λ platform_row hp.
              or_raise_bind P _ db platform_row _ λ platform_account ep.
                call_bind P _ db
                  (lock_all (sort_set (from_account.id ∷ to_account.id ∷ platform_account.id ∷ [])))
                  (LocksAll db) (lock_all-LocksAll _ db)
                  λ locked d (same, known). rw same (
                    or_raise_bind P _ db (locked_lookup from_account.id locked) _ λ sender es.
                      or_raise_bind P _ db (locked_lookup to_account.id locked) _ λ receiver er.
                        or_raise_bind P _ db (locked_lookup platform_account.id locked) _
                          λ platform eq.
                            raise_if_bind P _ db (ltb_ℤ sender.balance amount) insufficient_balance
                              λ funded.
                                then_ sender receiver platform
                                  (found from_account.id sender (known _ _ es))
                                  (found to_account.id receiver (known _ _ er))
                                  (found platform_account.id platform (known _ _ eq)))
  where
    found :
        (id : ℕ) (a : TokenAccount)
        → find_key account_id id db.accounts ≡ some a
        → Exists a.id db.accounts
    found id a e = find_key_of_find (λ b. b.id == id) db.accounts a e
