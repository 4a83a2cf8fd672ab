-- ===== src/Ledger/Entries.antt =====
-- The royalty keeps the entries of the ledger.
use agentchains.Base.{
  ℕ, Option, none, some, inl, inr, Bool-cases, Result, ok, err, Ensures, call_bind, ◌==?◌,
}
use agentchains.Base.Int.{ℤ, pos, leb_ℤ}
use agentchains.Ledger.Model.{TokenAccount, TokenLedger, Db, Host, Error}
use agentchains.Ledger.Queries.{
  get_account_by_agent, get_account_by_creator, get_creator_for_agent, is_agents,
}
use agentchains.Ledger.Royalty.{
  capped, royalty_of, book_royalty, royalty_between, royalty_to, process_creator_royalty,
}
use agentchains.Ledger.Transfer.{Request, royalty_after, earns_royalty}
use agentchains.Ledger.Steps.{one_account_bind, get_creator_reads}
use agentchains.Ledger.Keys.{Among}

-- A call that keeps the entries of the ledger.
abbrev pub KeepsEntries : {A : Type 0} → Db → A → Db → Type 0
KeepsEntries db _ db' = (e : TokenLedger) → Among e db.ledger → Among e db'.ledger

royalty_between-KeepsEntries :
    (host : Host) (net : ℤ) (ref : Option ℕ) (db : Db) (creator agent : Option TokenAccount)
    → Ensures (KeepsEntries db) (royalty_between host net ref creator agent db)
unfolding book_royalty
royalty_between-KeepsEntries host net ref db none agent = λ e a. a
royalty_between-KeepsEntries host net ref db (some c) none = λ e a. a
royalty_between-KeepsEntries host net ref db (some c) (some a) =
    let due = royalty_of host net in
    elim (Bool-cases (leb_ℤ due (pos 0))) [
      | inl stop ↦ rw stop (λ e a. a)
      | inr go ↦ elim (Bool-cases (leb_ℤ (capped a.balance due) (pos 0))) [
        | inl stop ↦ rw (go, stop) (λ e a. a)
        | inr go' ↦ rw (go, go') (λ e a. inr a)
      ]
    ]

royalty_to-KeepsEntries :
    (host : Host) (agent_id : ℕ) (net : ℤ) (ref : Option ℕ) (db : Db) (creator : Option ℕ)
    → Ensures (KeepsEntries db) (royalty_to host agent_id net ref creator db)
unfolding get_account_by_creator get_account_by_agent
royalty_to-KeepsEntries host agent_id net ref db none = λ e a. a
royalty_to-KeepsEntries host agent_id net ref db (some c) =
    one_account_bind (KeepsEntries db) (λ a. a.creator_id ==? some c) db _
      λ creator hc.
        one_account_bind (KeepsEntries db) (is_agents (some agent_id)) db _
          λ agent ha. royalty_between-KeepsEntries host net ref db creator agent

royalty-KeepsEntries :
    (host : Host) (agent_id : ℕ) (net : ℤ) (ref : Option ℕ) (db : Db)
    → Ensures (KeepsEntries db) (process_creator_royalty host agent_id net ref db)
unfolding process_creator_royalty
royalty-KeepsEntries host agent_id net ref db =
    elim (Bool-cases (leb_ℤ host.creator_royalty_pct.coeff (pos 0))) [
      | inl stop ↦ rw stop (λ e a. a)
      | inr go ↦ rw go (
          call_bind (KeepsEntries db) _ db (get_creator_for_agent agent_id) _
            (get_creator_reads agent_id db)
            λ creator db' same. rw same (royalty_to-KeepsEntries host agent_id net ref db creator))
    ]

pub royalty_after-KeepsEntries :
    (host : Host) (req : Request) (net : ℤ) (entry : TokenLedger) (to : Option ℕ) (db : Db)
    → Ensures (KeepsEntries db) (royalty_after host req net entry to db)
royalty_after-KeepsEntries host req net entry none db = λ e a. a
royalty_after-KeepsEntries host req net entry (some agent_id) db =
    elim (Bool-cases (earns_royalty req.tx_type)) [
      | inl e ↦ rw e (
          attempted (process_creator_royalty host agent_id net (some entry.id) db)
            (royalty-KeepsEntries host agent_id net (some entry.id) db))
      | inr e ↦ rw e (λ e a. a)
    ]
  where
    attempted :
        (r : Result Error (Option TokenLedger × Db))
        → Ensures (KeepsEntries db) r
        → Ensures (KeepsEntries db) (elim r as (λ _. Result Error (Option TokenLedger × Db)) [
          | ok (a, db') ↦ ok (a, db')
          | err e ↦ ok (none, db)
        ])
    attempted (ok (a, db')) h = h
    attempted (err e) h = λ e a. a
