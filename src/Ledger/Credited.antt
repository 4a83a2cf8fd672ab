-- ===== src/Ledger/Credited.antt =====
-- The entry of a deposit stays in the ledger, and while it is there the deposit is not credited again.
use agentchains.Base.{
  ℕ, ◌≡◌, refl, Bool, true, false, not, ◌&&◌, Option, none, some, [], ◌∷◌, arith, inl, inr, Ensures,
  Ensures-mono, call_bind, or_raise_bind, raise_if_bind, ◌==◌,
}
use agentchains.Base.Int.{pos, leb_ℤ}
use agentchains.Base.Table.{update, distinct, taken}
use agentchains.Ledger.Decimal.{Decimal, to_decimal}
use agentchains.Ledger.Model.{
  TokenAccount, TokenLedger, Db, Host, Key, same_key, commit, constraints_hold, accounts_hold,
  amount_not_positive,
}
use agentchains.Ledger.Queries.{
  get_account_by_agent, is_agents, lock_all, locked_lookup, sort_set, latest_hash,
}
use agentchains.Ledger.Transfer.{Request, replay_or, find_replay, transfer_new, transfer}
use agentchains.Ledger.Deposit.{deposit, top_up, deposit_entry, deposit_key}
use agentchains.Ledger.Sums.{account_id}
use agentchains.Ledger.Steps.{
  one_account_bind, LocksAll, lock_all-LocksAll, commit_reads, find_replay_reads,
}
use agentchains.Ledger.Keys.{Among, taken_of_Among, key_eq_self}
use agentchains.Ledger.Entries.{KeepsEntries}
use agentchains.Ledger.Replay.{Posted, transfer_new-Posted}

-- The database before the commit of a deposit.
abbrev credited : Host → Decimal → Option ℕ → TokenAccount → Db → Db
credited host usd deposit_id target db = record db {
  accounts = update account_id target.id (top_up (to_decimal usd) host.now) db.accounts;
  ledger = deposit_entry host target (to_decimal usd) deposit_id (latest_hash db) ∷ db.ledger;
}

-- What a deposit ensures, its commit ensures.
deposit_rule :
    (P : TokenLedger → Db → Type 0) (host : Host) (agent_id : Option ℕ) (usd : Decimal)
    (deposit_id : Option ℕ) (db : Db)
    → ((target : TokenAccount)
        → Ensures
            (λ _ d. P (deposit_entry host target (to_decimal usd) deposit_id (latest_hash db)) d)
            (commit (credited host usd deposit_id target db)))
    → Ensures P (deposit host agent_id usd deposit_id db)
unfolding deposit get_account_by_agent
deposit_rule P host agent_id usd deposit_id db k =
    raise_if_bind P _ db (leb_ℤ (to_decimal usd) (pos 0)) amount_not_positive λ positive.
      one_account_bind P (is_agents agent_id) db _ λ row hr.
        or_raise_bind P _ db row _ λ account ea.
          one_account_bind P (is_agents none) db _ λ platform_row hp.
            or_raise_bind P _ db platform_row _ λ platform ep.
              call_bind P _ db (lock_all (sort_set (account.id ∷ platform.id ∷ []))) (LocksAll db)
                (lock_all-LocksAll _ db)
                λ locked d (same, known). rw same (
                  or_raise_bind P _ db (locked_lookup account.id locked) _ λ target et.
                    call_bind P _ (credited host usd deposit_id target db) commit
                      (λ _ d'.
                        P (deposit_entry host target (to_decimal usd) deposit_id (latest_hash db))
                          d')
                      (k target) λ done d' p. p)

-- The entry bears the deposit's key and stands in the ledger, which has the entries of before.
abbrev pub Credits : Option ℕ → Db → TokenLedger → Db → Type 0
Credits deposit_id db e d =
    (e.idempotency_key ≡ deposit_key deposit_id) × Among e d.ledger × KeepsEntries db e d

pub deposit-Credits :
    (host : Host) (agent_id : Option ℕ) (usd : Decimal) (deposit_id : Option ℕ) (db : Db)
    → Ensures (Credits deposit_id db) (deposit host agent_id usd deposit_id db)
deposit-Credits host agent_id usd deposit_id db =
    deposit_rule (Credits deposit_id db) host agent_id usd deposit_id db λ target.
      Ensures-mono (λ _ d. d ≡ credited host usd deposit_id target db) _
        (λ done d same. rw same (refl, inl refl, λ e a. inr a)) _
        (commit_reads (credited host usd deposit_id target db))

repeats_fail :
    (b c : Bool) (free : Bool) (rest : Bool)
    → free ≡ true
    → (b && (c && (not free && rest))) ≡ false
repeats_fail b c free rest h = ground (arith, h)

-- While the ledger has an entry of the deposit, the deposit is not credited.
pub deposit_refused :
    (host : Host) (agent_id : Option ℕ) (usd : Decimal) (id : ℕ) (db : Db) (e : TokenLedger)
    → e.idempotency_key ≡ some (Key.deposit id)
    → Among e db.ledger
    → Ensures (λ _ _. ⊥) (deposit host agent_id usd (some id) db)
unfolding commit
deposit_refused host agent_id usd id db e named among =
    deposit_rule (λ _ _. ⊥) host agent_id usd (some id) db
      λ target.
        let d = credited host usd (some id) target db in
        let entry = deposit_entry host target (to_decimal usd) (some id) (latest_hash db) in
        let held : taken same_key entry db.ledger ≡ true =
          taken_of_Among (Key.deposit id) e entry db.ledger named (key_eq_self (Key.deposit id))
            among in
        let broken : constraints_hold d ≡ false =
          repeats_fail (accounts_hold d.accounts)
            (distinct (λ (x y : TokenLedger). x.id == y.id) d.ledger)
            (taken same_key entry db.ledger) (distinct same_key db.ledger) held in
        rw (commit, broken) tt

-- A transfer keeps the entries of the ledger.
pub transfer-KeepsEntries :
    (host : Host) (req : Request) (db : Db) → Ensures (KeepsEntries db) (transfer host req db)
unfolding transfer
transfer-KeepsEntries host req db =
    raise_if_bind (KeepsEntries db) _ db (leb_ℤ (to_decimal req.amount) (pos 0)) amount_not_positive
      λ positive.
        call_bind (KeepsEntries db) _ db (find_replay req.idempotency_key) _
          (find_replay_reads req.idempotency_key db) λ found d same. rw same (kept found)
  where
    kept :
        (found : Option TokenLedger)
        → Ensures
            (KeepsEntries db)
            (replay_or found (transfer_new host req (to_decimal req.amount)) db)
    kept (some _) = λ e a. a
    kept none =
        Ensures-mono (Posted db req) (KeepsEntries db) (λ entry d p. p.3) _
          (transfer_new-Posted host req (to_decimal req.amount) db)
