-- ===== src/Ledger/Added.antt =====
-- What a transfer that earns no royalty adds to the ledger: one entry, or none where its key is known.
use agentchains.Base.{
  ℕ, ok, ◌≡◌, refl, ap, ◌∙◌, false, Option, none, some, ◌∷◌, inl, inr, ◌⊎◌, Ensures, Ensures-mono,
  raise_if_bind, call_bind,
}
use agentchains.Base.Int.{ℤ, pos, leb_ℤ}
use agentchains.Ledger.Decimal.{to_decimal}
use agentchains.Ledger.Model.{TokenAccount, TokenLedger, Db, Host, commit, amount_not_positive}
use agentchains.Ledger.Transfer.{
  Request, net_of, book_transfer, royalty_after, earns_royalty, transfer_new, transfer, find_replay,
  replay_or,
}
use agentchains.Ledger.Steps.{find_replay_reads, commit_reads}
use agentchains.Ledger.Walk.{booked, transfer_new_ends}
use agentchains.Ledger.Replay.{both, seen}

-- The entry is the newest of the ledger, and has the columns of the request.
pub record Books (req : Request) (db : Db) (entry : TokenLedger) (db' : Db) : Type 0 where
  pub newest : db'.ledger ≡ entry ∷ db.ledger
  pub amount : entry.amount ≡ to_decimal req.amount
  pub tx_type : entry.tx_type ≡ req.tx_type
  pub reference_id : entry.reference_id ≡ req.reference_id
  pub key : entry.idempotency_key ≡ req.idempotency_key

royalty_after_none :
    (host : Host) (req : Request) (net : ℤ) (entry : TokenLedger) (to : Option ℕ) (db : Db)
    → earns_royalty req.tx_type ≡ false
    → Ensures (λ _ d. d ≡ db) (royalty_after host req net entry to db)
royalty_after_none host req net entry none db h = refl
royalty_after_none host req net entry (some agent_id) db h = rw h refl

book_transfer-Books :
    (host : Host) (req : Request) (sender receiver platform : TokenAccount) (db : Db)
    → Ensures
        (Books req db)
        (book_transfer host req sender receiver platform (to_decimal req.amount) db)
unfolding book_transfer
book_transfer-Books host req sender receiver platform db = record {
  newest = refl;
  amount = refl;
  tx_type = refl;
  reference_id = refl;
  key = refl;
}

module _ (host : Host) (req : Request) (plain : earns_royalty req.tx_type ≡ false) where
  booked-Books :
      (sender receiver platform : TokenAccount) (db : Db)
      → Ensures (Books req db) (booked host req (to_decimal req.amount) sender receiver platform db)
  booked-Books sender receiver platform db =
      call_bind (Books req db) _ db
        (book_transfer host req sender receiver platform (to_decimal req.amount)) _
        (book_transfer-Books host req sender receiver platform db)
        λ entry d books.
          call_bind (Books req db) _ d
            (royalty_after host req (net_of host (to_decimal req.amount)) entry req.to_agent_id) _
            (royalty_after_none host req _ entry req.to_agent_id d plain)
            λ royalty d' same.
              call_bind (Books req db) _ d' commit _ (commit_reads d')
                λ done d'' same'. rw (same', same) books

  transfer_new-Books :
      (db : Db) → Ensures (Books req db) (transfer_new host req (to_decimal req.amount) db)
  transfer_new-Books db =
      transfer_new_ends (Books req db) host req (to_decimal req.amount) db
        λ sender receiver platform hs hr hp. booked-Books sender receiver platform db

  -- The transfer finds the entry of its key, or adds one.
  pub transfer-Adds :
      (db : Db)
      → Ensures
          (λ entry db'.
            (find_replay req.idempotency_key db ≡ ok (some entry, db)) ⊎ Books req db entry db')
          (transfer host req db)
  unfolding transfer
  transfer-Adds db =
      raise_if_bind Q _ db (leb_ℤ (to_decimal req.amount) (pos 0)) amount_not_positive λ positive.
        call_bind Q _ db (find_replay req.idempotency_key) _
          (both _ _ _ (find_replay_reads req.idempotency_key db)
            (seen (find_replay req.idempotency_key db)))
          λ found d (same, found_). rw same (answered found (found_ ∙ ap (λ x. ok (found, x)) same))
    where
      Q : TokenLedger → Db → Type 0
      Q entry db' =
          (find_replay req.idempotency_key db ≡ ok (some entry, db)) ⊎ Books req db entry db'

      answered :
          (found : Option TokenLedger)
          → find_replay req.idempotency_key db ≡ ok (found, db)
          → Ensures Q (replay_or found (transfer_new host req (to_decimal req.amount)) db)
      answered none h = Ensures-mono (Books req db) Q (λ e d b. inr b) _ (transfer_new-Books db)
      answered (some e) h = inl h
