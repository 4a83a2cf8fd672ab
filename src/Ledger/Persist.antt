-- ===== src/Ledger/Persist.antt =====
-- What a key finds, it finds after every later transfer.
use agentchains.Base.{
  ◌≡◌, ap, Bool, true, false, Option, none, some, List, [], ◌∷◌, inl, inr, arith, ==→eq, Bool-cases,
  Result, ok, err, Ensures, Ensures-mono, call_bind, raise_if_bind,
}
use agentchains.Base.Int.{pos, leb_ℤ}
use agentchains.Base.Table.{find, find_of_scalar, find_holds}
use agentchains.Ledger.Decimal.{to_decimal}
use agentchains.Ledger.Model.{
  TokenLedger, Db, Host, Error, Key, key_eq, amount_not_positive, multiple_results,
}
use agentchains.Ledger.Transfer.{Request, has_key, find_replay, replay_or, transfer_new, transfer}
use agentchains.Ledger.Steps.{find_replay_reads}
use agentchains.Ledger.Keys.{Among, select_one}
use agentchains.Ledger.Replay.{Posted, Finds, found_by_key, transfer_new-Posted}

key_eq→eq : (a b : Key) → key_eq a b ≡ true → a ≡ b
key_eq→eq (Key.purchase a) (Key.purchase b) h = ap Key.purchase (==→eq a b h)
key_eq→eq (Key.purchase a) (Key.deposit b) h = absurd (ground (arith, h))
key_eq→eq (Key.purchase a) (Key.royalty b) h = absurd (ground (arith, h))
key_eq→eq (Key.purchase a) (Key.custom b) h = absurd (ground (arith, h))
key_eq→eq (Key.deposit a) (Key.purchase b) h = absurd (ground (arith, h))
key_eq→eq (Key.deposit a) (Key.deposit b) h = ap Key.deposit (==→eq a b h)
key_eq→eq (Key.deposit a) (Key.royalty b) h = absurd (ground (arith, h))
key_eq→eq (Key.deposit a) (Key.custom b) h = absurd (ground (arith, h))
key_eq→eq (Key.royalty a) (Key.purchase b) h = absurd (ground (arith, h))
key_eq→eq (Key.royalty a) (Key.deposit b) h = absurd (ground (arith, h))
key_eq→eq (Key.royalty a) (Key.royalty b) h = ap Key.royalty (==→eq a b h)
key_eq→eq (Key.royalty a) (Key.custom b) h = absurd (ground (arith, h))
key_eq→eq (Key.custom a) (Key.purchase b) h = absurd (ground (arith, h))
key_eq→eq (Key.custom a) (Key.deposit b) h = absurd (ground (arith, h))
key_eq→eq (Key.custom a) (Key.royalty b) h = absurd (ground (arith, h))
key_eq→eq (Key.custom a) (Key.custom b) h = ap Key.custom (==→eq a b h)

named :
    (k : Key) (o : Option Key)
    → elim o as (λ _. Bool) [ none ↦ false | some j ↦ key_eq j k ] ≡ true
    → o ≡ some k
named k none h = absurd (ground (arith, h))
named k (some j) h = ap some (key_eq→eq j k h)

Among-find :
    (k : Key) (rows : List TokenLedger) (e : TokenLedger)
    → find (has_key k) rows ≡ some e
    → Among e rows
Among-find k [] e h = absurd (ground (arith, h))
Among-find k (x ∷ rows) e h = elim (Bool-cases (has_key k x)) [
  | inl here ↦ let same : x ≡ e = ground (arith, h, here) in inl same
  | inr other ↦ inr (Among-find k rows e (rw other at h))
]

-- The entry that a key finds stands in the ledger and bears the key.
abbrev Holds : Key → TokenLedger → Db → Type 0
Holds k e db = (e.idempotency_key ≡ some k) × Among e db.ledger

read_back :
    {A : Type 0} {a : A} {db : Db} (r : Result Error A)
    → elim r as (λ _. Result Error (A × Db)) [ ok b ↦ ok (b, db) | err x ↦ err x ] ≡ ok (a, db)
    → r ≡ ok a
read_back (ok b) h = ground (arith, h)
read_back (err x) h = absurd (ground (arith, h))

Finds-Holds : (k : Key) (e : TokenLedger) (db : Db) → Finds k e db → Holds k e db
unfolding find_replay
Finds-Holds k e db h =
    let found = find_of_scalar multiple_results (has_key k) db.ledger e (read_back _ h) in
    (
      named k e.idempotency_key (find_holds (has_key k) db.ledger e found),
      Among-find k db.ledger e found,
    )

-- A transfer keeps what a key finds.
pub transfer-Finds :
    (host : Host) (req : Request) (k : Key) (e : TokenLedger) (db : Db)
    → Finds k e db
    → Ensures (λ _ db'. Finds k e db') (transfer host req db)
unfolding transfer
transfer-Finds host req k e db h =
    raise_if_bind (λ _ db'. Finds k e db') _ db (leb_ℤ (to_decimal req.amount) (pos 0))
      amount_not_positive
      λ positive.
        call_bind (λ _ db'. Finds k e db') _ db (find_replay req.idempotency_key) _
          (find_replay_reads req.idempotency_key db) λ found d same. rw same (kept found)
  where
    kept :
        (found : Option TokenLedger)
        → Ensures
            (λ _ db'. Finds k e db')
            (replay_or found (transfer_new host req (to_decimal req.amount)) db)
    kept (some _) = h
    kept none =
        let (bears, among) = Finds-Holds k e db h in
        Ensures-mono (Posted db req) (λ _ db'. Finds k e db')
          (λ entry d' (_, _, unique, older).
            found_by_key k e d' (select_one k e d'.ledger bears unique (older e among)))
          _ (transfer_new-Posted host req (to_decimal req.amount) db)
