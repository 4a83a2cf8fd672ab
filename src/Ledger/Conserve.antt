-- ===== src/Ledger/Conserve.antt =====
-- Money is neither made nor lost: a transfer, its fee and its royalty leave the sum of all balances
-- as it was, and a deposit raises it by its amount.
use mathlib.Core.Path.{subst}
use agentchains.Base.{
  ℕ, ◌≡◌, refl, sym, ap, ◌∙◌, Option, none, some, [], ◌∷◌, ◌==◌, ok, Ensures, or_raise_bind,
  call_bind, raise_if_bind,
}
use agentchains.Base.Int.{ℤ, pos, ◌+ℤ◌, leb_ℤ}
use agentchains.Base.Table.{find_key, update}
use agentchains.Ledger.Decimal.{Decimal, to_decimal}
use agentchains.Ledger.Model.{
  Key, no_account, TokenAccount, TokenLedger, Db, Host, commit, amount_not_positive,
}
use agentchains.Ledger.Queries.{
  lock_all, locked_lookup, get_account_by_agent, latest_hash, is_agents, sort_set,
}
use agentchains.Ledger.Transfer.{
  get_balance, debit_for_purchase, purchase_request, Request, net_of, book_transfer, royalty_after,
  transfer_new, transfer, find_replay, replay_or,
}
use agentchains.Ledger.Deposit.{top_up, deposit_entry, deposit}
use agentchains.Ledger.Sums.{account_id, total, find_key_of_find, Exists, total-Shifts}
use agentchains.Ledger.Steps.{
  one_account_bind, LocksAll, lock_all-LocksAll, commit_reads, find_replay_reads,
}
use agentchains.Ledger.Replay.{Finds, both, seen, transfer-Replayable}
use agentchains.Ledger.Walk.{booked, transfer_new_ends}
use agentchains.Ledger.Booking.{
  Conserves, top_up-Shifts, book_transfer-Conserves, royalty_after-Conserves,
}

booked-Conserves :
    (host : Host) (req : Request) (amount : ℤ) (sender receiver platform : TokenAccount) (db : Db)
    → Exists sender.id db.accounts
    → Exists receiver.id db.accounts
    → Exists platform.id db.accounts
    → Ensures (Conserves (total db.accounts)) (booked host req amount sender receiver platform db)
booked-Conserves host req amount sender receiver platform db hs hr hp =
    call_bind C _ db (book_transfer host req sender receiver platform amount) C
      (book_transfer-Conserves host req sender receiver platform amount db hs hr hp)
      λ entry d e.
        call_bind C _ d (royalty_after host req (net_of host amount) entry req.to_agent_id)
          (Conserves (total d.accounts))
          (royalty_after-Conserves host req (net_of host amount) entry req.to_agent_id d)
          λ royalty d' e'.
            call_bind C _ d' commit (λ _ d''. d'' ≡ d') (commit_reads d')
              λ done d'' same. rw same (e' ∙ e)
  where
    C : {A : Type 0} → A → Db → Type 0
    C = Conserves (total db.accounts)

transfer_new-Conserves :
    (host : Host) (req : Request) (amount : ℤ) (db : Db)
    → Ensures (Conserves (total db.accounts)) (transfer_new host req amount db)
transfer_new-Conserves host req amount db =
    transfer_new_ends (Conserves (total db.accounts)) host req amount db
      λ sender receiver platform. booked-Conserves host req amount sender receiver platform db

replay_or-Conserves :
    (host : Host) (req : Request) (amount : ℤ) (db : Db) (found : Option TokenLedger)
    → Ensures (Conserves (total db.accounts)) (replay_or found (transfer_new host req amount) db)
replay_or-Conserves host req amount db none = transfer_new-Conserves host req amount db
replay_or-Conserves host req amount db (some e) = refl

pub transfer-Conserves :
    (host : Host) (req : Request) (db : Db)
    → Ensures (Conserves (total db.accounts)) (transfer host req db)
unfolding transfer
transfer-Conserves host req db =
    let amount = to_decimal req.amount in
    raise_if_bind (Conserves (total db.accounts)) _ db (leb_ℤ amount (pos 0)) amount_not_positive
      λ positive.
        call_bind (Conserves (total db.accounts)) _ db (find_replay req.idempotency_key)
          (λ _ db'. db' ≡ db) (find_replay_reads req.idempotency_key db)
          λ found d same. rw same (replay_or-Conserves host req amount db found)

-- A transfer that returns leaves the sum of all balances as it was, its fee and its royalty included,
-- whatever the settings, the accounts and the replayed keys are.
pub transfer_conserves :
    (host : Host) (req : Request) (db db' : Db) (entry : TokenLedger)
    → transfer host req db ≡ ok (entry, db')
    → total db'.accounts ≡ total db.accounts
transfer_conserves host req db db' entry h =
    subst (Ensures (Conserves (total db.accounts))) h (transfer-Conserves host req db)

deposit-Moves :
    (host : Host) (agent_id : Option ℕ) (usd : Decimal) (deposit_id : Option ℕ) (db : Db)
    → Ensures
        (λ _ db'. total db'.accounts ≡ total db.accounts +ℤ to_decimal usd)
        (deposit host agent_id usd deposit_id db)
unfolding deposit get_account_by_agent
deposit-Moves host agent_id usd deposit_id db =
    raise_if_bind C _ db (leb_ℤ (to_decimal usd) (pos 0)) amount_not_positive λ positive.
      one_account_bind C (is_agents agent_id) db _ λ row hr.
        or_raise_bind C _ db row _ λ account ea.
          one_account_bind C (is_agents none) db _ λ platform_row hp.
            or_raise_bind C _ db platform_row _ λ platform ep.
              call_bind C _ db (lock_all (sort_set (account.id ∷ platform.id ∷ []))) (LocksAll db)
                (lock_all-LocksAll _ db)
                λ locked d (same, known). rw same (
                  or_raise_bind C _ db (locked_lookup account.id locked) _ λ target et.
                    call_bind C _ (credited target) commit (λ _ d''. d'' ≡ credited target)
                      (commit_reads (credited target))
                      λ done d'' kept. rw kept (
                        total-Shifts (top_up-Shifts (to_decimal usd) host.now) target.id db.accounts
                          (found account.id target (known _ _ et))))
  where
    C : TokenLedger → Db → Type 0
    C = λ _ db'. total db'.accounts ≡ total db.accounts +ℤ to_decimal usd

    found :
        (id : ℕ) (a : TokenAccount)
        → find_key account_id id db.accounts ≡ some a
        → Exists a.id db.accounts
    found id a e = find_key_of_find (λ b. b.id == id) db.accounts a e

    credited : TokenAccount → Db
    credited target = record db {
      accounts = update account_id target.id (top_up (to_decimal usd) host.now) db.accounts;
      ledger = deposit_entry host target (to_decimal usd) deposit_id (latest_hash db) ∷ db.ledger;
    }

-- A deposit that returns raises the sum of all balances by the quantized amount.
deposit_raises :
    (host : Host) (agent_id : Option ℕ) (usd : Decimal) (deposit_id : Option ℕ) (db db' : Db)
    (entry : TokenLedger)
    → deposit host agent_id usd deposit_id db ≡ ok (entry, db')
    → total db'.accounts ≡ total db.accounts +ℤ to_decimal usd
deposit_raises host agent_id usd deposit_id db db' entry h =
    subst (Ensures (λ _ d. total d.accounts ≡ total db.accounts +ℤ to_decimal usd)) h
      (deposit-Moves host agent_id usd deposit_id db)

get_balance_reads :
    (agent_id : Option ℕ) (db : Db) → Ensures (λ _ db'. db' ≡ db) (get_balance agent_id db)
unfolding get_balance get_account_by_agent
get_balance_reads agent_id db =
    one_account_bind (λ _ db'. db' ≡ db) (is_agents agent_id) db _
      λ o found. or_raise_bind (λ _ db'. db' ≡ db) _ db o no_account λ a e. refl

-- The transfer of the price from the buyer to the seller has returned and left this database, in which the
-- key of the purchase finds the transfer's entry.
abbrev pub Paid : Host → ℕ → ℕ → ℤ → ℕ → Db → Db → Type 0
Paid host buyer seller price tx db db' =
    (entry : TokenLedger) × (transfer host (purchase_request buyer seller price tx) db
      ≡ ok (entry, db'))
    × Finds (Key.purchase tx) entry db'

pub debit_for_purchase-Paid :
    (host : Host) (buyer seller : ℕ) (usdc : Decimal) (tx : ℕ) (db : Db)
    → Ensures
        (λ _ db'. Paid host buyer seller (to_decimal usdc) tx db db')
        (debit_for_purchase host buyer seller usdc tx db)
unfolding debit_for_purchase
debit_for_purchase-Paid host buyer seller usdc tx db =
    let request = purchase_request buyer seller (to_decimal usdc) tx in
    call_bind C _ db (transfer host request) _
      (both _ _ _ (seen (transfer host request db))
        (transfer-Replayable host request (Key.purchase tx) db refl))
      λ entry d (returned, (positive, found)).
        call_bind C _ d (get_balance (some buyer)) (λ _ d'. d' ≡ d)
          (get_balance_reads (some buyer) d)
          λ b d' same.
            call_bind C _ d' (get_balance (some seller)) (λ _ d''. d'' ≡ d')
              (get_balance_reads (some seller) d')
              λ b' d'' same'.
                subst (Paid host buyer seller (to_decimal usdc) tx db) (sym (same' ∙ same))
                  (entry, returned, found)
  where
    C : {A : Type 0} → A → Db → Type 0
    C _ db' = Paid host buyer seller (to_decimal usdc) tx db db'

-- The whole purchase debit conserves money.
pub debit_for_purchase-Conserves :
    (host : Host) (buyer seller : ℕ) (usdc : Decimal) (tx : ℕ) (db : Db)
    → Ensures (Conserves (total db.accounts)) (debit_for_purchase host buyer seller usdc tx db)
unfolding debit_for_purchase
debit_for_purchase-Conserves host buyer seller usdc tx db =
    let request = purchase_request buyer seller (to_decimal usdc) tx in
    call_bind C _ db (transfer host request) C (transfer-Conserves host request db) λ entry d e.
      call_bind C _ d (get_balance (some buyer)) (λ _ d'. d' ≡ d) (get_balance_reads (some buyer) d)
        λ b d' same.
          call_bind C _ d' (get_balance (some seller)) (λ _ d''. d'' ≡ d')
            (get_balance_reads (some seller) d')
            λ b' d'' same'. ap (λ (x : Db). total x.accounts) (same' ∙ same) ∙ e
  where
    C : {A : Type 0} → A → Db → Type 0
    C = Conserves (total db.accounts)
