-- ===== src/Ledger/Booking.antt =====
-- The booking of a transfer and of its royalty move balances and make none.
use agentchains.Base.{
  ℕ, ◌≡◌, refl, ap, Option, none, some, inl, inr, Bool-cases, Result, ok, err, Ensures, ◌==?◌,
  call_bind,
}
use agentchains.Base.Int.{ℤ, pos, pos_part, neg_part, ◌-ℤ◌, int_laws, leb_ℤ}
use agentchains.Ledger.Model.{TokenAccount, TokenLedger, Db, Host, Error}
use agentchains.Ledger.Queries.{
  get_account_by_agent, get_account_by_creator, get_creator_for_agent, is_agents,
}
use agentchains.Ledger.Royalty.{
  capped, royalty_of, pay_royalty, earn_royalty, book_royalty, royalty_between, royalty_to,
  process_creator_royalty,
}
use agentchains.Ledger.Transfer.{
  Request, fee_of, net_of, debit, credit, collect, book_transfer, royalty_after, earns_royalty,
}
use agentchains.Ledger.Deposit.{top_up}
use agentchains.Ledger.Sums.{total, Exists, Shifts, total-Shifts, total-two, Exists-two}
use agentchains.Ledger.Fee.{net-fee}
use agentchains.Ledger.Steps.{one_account_bind, Exists-of_find, get_creator_reads}

debit-Shifts : (amount : ℤ) (now : ℕ) → Shifts (debit amount now) (pos 0 -ℤ amount)
debit-Shifts amount now = record { moved = λ a. omega int_laws; same_id = λ a. refl }

credit-Shifts : (net fee : ℤ) (now : ℕ) → Shifts (credit net fee now) net
credit-Shifts net fee now = record { moved = λ a. refl; same_id = λ a. refl }

collect-Shifts : (fee : ℤ) (now : ℕ) → Shifts (collect fee now) fee
collect-Shifts fee now = record { moved = λ a. refl; same_id = λ a. refl }

pay_royalty-Shifts : (x : ℤ) (now : ℕ) → Shifts (pay_royalty x now) (pos 0 -ℤ x)
pay_royalty-Shifts x now = record { moved = λ a. omega int_laws; same_id = λ a. refl }

earn_royalty-Shifts : (x : ℤ) (now : ℕ) → Shifts (earn_royalty x now) x
earn_royalty-Shifts x now = record { moved = λ a. refl; same_id = λ a. refl }

pub top_up-Shifts : (x : ℤ) (now : ℕ) → Shifts (top_up x now) x
top_up-Shifts x now = record { moved = λ a. refl; same_id = λ a. refl }

-- What a call that conserves money ensures.
abbrev pub Conserves : {A : Type 0} → ℤ → A → Db → Type 0
Conserves sum _ db' = total db'.accounts ≡ sum

pub book_transfer-Conserves :
    (host : Host) (req : Request) (sender receiver platform : TokenAccount) (amount : ℤ) (db : Db)
    → Exists sender.id db.accounts
    → Exists receiver.id db.accounts
    → Exists platform.id db.accounts
    → Ensures
        (Conserves (total db.accounts))
        (book_transfer host req sender receiver platform amount db)
unfolding book_transfer
book_transfer-Conserves host req sender receiver platform amount db hs hr hp =
    let s = debit-Shifts amount host.now in
    let r = credit-Shifts (net_of host amount) (fee_of host amount) host.now in
    rw
      (
        total-Shifts (collect-Shifts (fee_of host amount) host.now) platform.id _
            (Exists-two s r sender.id receiver.id db.accounts hs hr platform.id hp),
        total-two s r sender.id receiver.id db.accounts hs hr,
      )
      (omega (int_laws, ap pos_part (net-fee host amount), ap neg_part (net-fee host amount)))

book_royalty-Conserves :
    (host : Host) (agent creator : TokenAccount) (royalty : ℤ) (ref : Option ℕ) (db : Db)
    → Exists agent.id db.accounts
    → Exists creator.id db.accounts
    → Ensures (Conserves (total db.accounts)) (book_royalty host agent creator royalty ref db)
unfolding book_royalty
book_royalty-Conserves host agent creator royalty ref db ha hc =
    rw
      (total-two (pay_royalty-Shifts royalty host.now) (earn_royalty-Shifts royalty host.now)
        agent.id creator.id db.accounts ha hc)
      (omega int_laws)

royalty_between-Conserves :
    (host : Host) (net : ℤ) (ref : Option ℕ) (db : Db) (creator agent : Option TokenAccount)
    → ((a : TokenAccount) → creator ≡ some a → Exists a.id db.accounts)
    → ((a : TokenAccount) → agent ≡ some a → Exists a.id db.accounts)
    → Ensures (Conserves (total db.accounts)) (royalty_between host net ref creator agent db)
royalty_between-Conserves host net ref db none agent hc ha = refl
royalty_between-Conserves host net ref db (some c) none hc ha = refl
royalty_between-Conserves host net ref db (some c) (some a) hc ha =
    let due = royalty_of host net in
    elim (Bool-cases (leb_ℤ due (pos 0))) [
      | inl stop ↦ rw stop refl
      | inr go ↦ elim (Bool-cases (leb_ℤ (capped a.balance due) (pos 0))) [
        | inl stop ↦ rw (go, stop) refl
        | inr go' ↦
            rw (go, go')
              (book_royalty-Conserves host a c (capped a.balance due) ref db (ha a refl)
                (hc c refl))
      ]
    ]

royalty_to-Conserves :
    (host : Host) (agent_id : ℕ) (net : ℤ) (ref : Option ℕ) (db : Db) (creator : Option ℕ)
    → Ensures (Conserves (total db.accounts)) (royalty_to host agent_id net ref creator db)
unfolding get_account_by_creator get_account_by_agent
royalty_to-Conserves host agent_id net ref db none = refl
royalty_to-Conserves host agent_id net ref db (some c) =
    one_account_bind (Conserves (total db.accounts)) (λ a. a.creator_id ==? some c) db _
      λ creator hc.
        one_account_bind (Conserves (total db.accounts)) (is_agents (some agent_id)) db _
          λ agent ha.
            royalty_between-Conserves host net ref db creator agent (Exists-of_find _ db creator hc)
              (Exists-of_find _ db agent ha)

-- The creator's share moves money and makes none.
process_creator_royalty-Conserves :
    (host : Host) (agent_id : ℕ) (net : ℤ) (ref : Option ℕ) (db : Db)
    → Ensures (Conserves (total db.accounts)) (process_creator_royalty host agent_id net ref db)
unfolding process_creator_royalty
process_creator_royalty-Conserves host agent_id net ref db =
    elim (Bool-cases (leb_ℤ host.creator_royalty_pct.coeff (pos 0))) [
      | inl stop ↦ rw stop refl
      | inr go ↦ rw go (
          call_bind (Conserves (total db.accounts)) _ db (get_creator_for_agent agent_id) _
            (get_creator_reads agent_id db)
            λ creator db' same. rw same (royalty_to-Conserves host agent_id net ref db creator))
    ]

pub royalty_after-Conserves :
    (host : Host) (req : Request) (net : ℤ) (entry : TokenLedger) (to : Option ℕ) (db : Db)
    → Ensures (Conserves (total db.accounts)) (royalty_after host req net entry to db)
royalty_after-Conserves host req net entry none db = refl
royalty_after-Conserves host req net entry (some agent_id) db =
    elim (Bool-cases (earns_royalty req.tx_type)) [
      | inl e ↦ rw e (
          attempted (process_creator_royalty host agent_id net (some entry.id) db)
            (process_creator_royalty-Conserves host agent_id net (some entry.id) db))
      | inr e ↦ rw e refl
    ]
  where
    attempted :
        (r : Result Error (Option TokenLedger × Db))
        → Ensures (Conserves (total db.accounts)) r
        → Ensures
            (Conserves (total db.accounts))
            (elim r as (λ _. Result Error (Option TokenLedger × Db)) [
              | ok (a, db') ↦ ok (a, db')
              | err e ↦ ok (none, db)
            ])
    attempted (ok (a, db')) h = h
    attempted (err e) h = refl
