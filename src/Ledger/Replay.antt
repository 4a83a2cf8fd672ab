-- ===== src/Ledger/Replay.antt =====
-- The idempotency key of a transfer: the entry that a transfer writes is the one that its key finds.
use mathlib.Core.Path.{subst}
use agentchains.Base.{
  ◌≡◌, refl, sym, ap, ◌∙◌, Bool, true, false, Option, none, some, [], ◌∷◌, inl, inr, arith, ◌==◌,
  Bool-cases, and_right, Action, Result, ok, err, Ensures, Ensures-mono, raise_if, reads, select,
  call_bind, raise_if_bind, ◌>>=◌,
}
use agentchains.Base.Int.{ℤ, pos, leb_ℤ}
use agentchains.Base.Table.{scalar_one_or_none, distinct}
use agentchains.Ledger.Decimal.{to_decimal}
use agentchains.Ledger.Model.{
  TokenAccount, TokenLedger, Db, Host, Error, Key, same_key, commit, constraints_hold,
  accounts_hold, ledger_holds, amount_not_positive, multiple_results,
}
use agentchains.Ledger.Transfer.{
  Request, net_of, book_transfer, royalty_after, transfer_new, transfer, find_replay, replay_or,
  has_key,
}
use agentchains.Ledger.Steps.{find_replay_reads}
use agentchains.Ledger.Walk.{booked, transfer_new_ends}
use agentchains.Ledger.Keys.{Among, select_one}
use agentchains.Ledger.Entries.{KeepsEntries, royalty_after-KeepsEntries}

-- The entry bears the key of the request and stands in the ledger, whose keys are distinct and which has
-- the entries of before.
abbrev pub Posted : Db → Request → TokenLedger → Db → Type 0
Posted before req entry db =
    (entry.idempotency_key ≡ req.idempotency_key)
    × Among entry db.ledger
    × (distinct same_key db.ledger ≡ true)
    × KeepsEntries before entry db

commit-distinct :
    (db : Db) → Ensures (λ _ db'. (db' ≡ db) × (distinct same_key db.ledger ≡ true)) (commit db)
unfolding commit
commit-distinct db = elim (Bool-cases (constraints_hold db)) [
  | inl e ↦
      let of_ledger = and_right (accounts_hold db.accounts) (ledger_holds db.ledger) e in
      rw e (refl, and_right (distinct (λ (x y : TokenLedger). x.id == y.id) db.ledger) _ of_ledger)
  | inr e ↦ rw e tt
]

book_transfer-Among :
    (host : Host) (req : Request) (sender receiver platform : TokenAccount) (amount : ℤ) (db : Db)
    → Ensures
        (λ e db'.
          (e.idempotency_key ≡ req.idempotency_key) × Among e db'.ledger × KeepsEntries db e db')
        (book_transfer host req sender receiver platform amount db)
unfolding book_transfer
book_transfer-Among host req sender receiver platform amount db = (refl, inl refl, λ e a. inr a)

posted :
    (host : Host) (req : Request) (amount : ℤ) (sender receiver platform : TokenAccount) (db : Db)
    → Ensures (Posted db req) (booked host req amount sender receiver platform db)
posted host req amount sender receiver platform db =
    call_bind (Posted db req) _ db (book_transfer host req sender receiver platform amount) _
      (book_transfer-Among host req sender receiver platform amount db)
      λ entry d (named, among, older).
        call_bind (Posted db req) _ d
          (royalty_after host req (net_of host amount) entry req.to_agent_id) (KeepsEntries d)
          (royalty_after-KeepsEntries host req (net_of host amount) entry req.to_agent_id d)
          λ royalty d' kept.
            call_bind (Posted db req) _ d' commit _ (commit-distinct d') λ done d'' (same, unique).
              rw same (named, kept entry among, unique, λ e a. kept e (older e a))

pub transfer_new-Posted :
    (host : Host) (req : Request) (amount : ℤ) (db : Db)
    → Ensures (Posted db req) (transfer_new host req amount db)
transfer_new-Posted host req amount db =
    transfer_new_ends (Posted db req) host req amount db
      λ sender receiver platform hs hr hp. posted host req amount sender receiver platform db

-- The key finds the entry.
abbrev pub Finds : Key → TokenLedger → Db → Type 0
Finds k entry db = find_replay (some k) db ≡ ok (some entry, db)

pub found_by_key :
    (k : Key) (entry : TokenLedger) (db : Db)
    → select (has_key k) db.ledger ≡ entry ∷ []
    → Finds k entry db
unfolding find_replay
found_by_key k entry db one =
    ap
      (λ rows.
        reads {A = Option TokenLedger} (λ (d : Db). scalar_one_or_none multiple_results rows) db)
      one

pub Posted-Finds :
    (before : Db) (req : Request) (k : Key) (entry : TokenLedger) (db : Db)
    → req.idempotency_key ≡ some k
    → Posted before req entry db
    → Finds k entry db
Posted-Finds before req k entry db keyed (named, among, unique, older) =
    found_by_key k entry db (select_one k entry db.ledger (named ∙ keyed) unique among)

pub seen : {A : Type 0} (r : Result Error (A × Db)) → Ensures (λ a d. r ≡ ok (a, d)) r
seen (ok (a, d)) = refl
seen (err e) = tt

pub both :
    {A : Type 0} (P Q : A → Db → Type 0) (r : Result Error (A × Db))
    → Ensures P r
    → Ensures Q r
    → Ensures (λ a d. P a d × Q a d) r
both P Q (ok (a, d)) p q = (p, q)
both P Q (err e) p q = tt

-- The amount is positive, and the key finds the entry.
abbrev pub Replayable : Request → Key → TokenLedger → Db → Type 0
Replayable req k entry db = (leb_ℤ (to_decimal req.amount) (pos 0) ≡ false) × Finds k entry db

replay_or-Replayable :
    (host : Host) (req : Request) (k : Key) (db d : Db) (found : Option TokenLedger)
    → req.idempotency_key ≡ some k
    → leb_ℤ (to_decimal req.amount) (pos 0) ≡ false
    → d ≡ db
    → find_replay req.idempotency_key db ≡ ok (found, d)
    → Ensures (Replayable req k) (replay_or found (transfer_new host req (to_decimal req.amount)) d)
replay_or-Replayable host req k db d none keyed positive same found =
    Ensures-mono (Posted d req) (Replayable req k)
      (λ e d' p. (positive, Posted-Finds d req k e d' keyed p)) _
      (transfer_new-Posted host req (to_decimal req.amount) d)
replay_or-Replayable host req k db d (some e) keyed positive same found = (
  positive,
  subst (λ o. find_replay o d ≡ ok (some e, d)) keyed
      (ap (find_replay req.idempotency_key) same ∙ found),
)

pub transfer-Replayable :
    (host : Host) (req : Request) (k : Key) (db : Db)
    → req.idempotency_key ≡ some k
    → Ensures (Replayable req k) (transfer host req db)
unfolding transfer
transfer-Replayable host req k db keyed =
    raise_if_bind (Replayable req k) _ db (leb_ℤ (to_decimal req.amount) (pos 0))
      amount_not_positive
      λ positive.
        call_bind (Replayable req k) _ db (find_replay req.idempotency_key) _
          (both _ _ _ (find_replay_reads req.idempotency_key db)
            (seen (find_replay req.idempotency_key db)))
          λ found d (same, found_).
            replay_or-Replayable host req k db d found keyed positive same found_

raise_if_passes :
    {B : Type 0} (c : Bool) (e : Error) (f : Unit {0} → Action Error Db B) (s : Db)
    → c ≡ false
    → (raise_if c e >>= f) s ≡ f tt s
raise_if_passes true e f s h = absurd (ground (arith, h))
raise_if_passes false e f s h = refl

bind_passes :
    {A B : Type 0} (m : Action Error Db A) (f : A → Action Error Db B) (s s' : Db) (a : A)
    → m s ≡ ok (a, s')
    → (m >>= f) s ≡ f a s'
bind_passes {B = B} m f s s' a h =
    ap (λ r. elim r as (λ _. Result Error (B × Db)) [ ok (b, d) ↦ f b d | err e ↦ err e ]) h

-- A request of which the ledger has the key's entry hands on that entry.
pub transfer_of_Replayable :
    (host : Host) (req : Request) (k : Key) (db : Db) (entry : TokenLedger)
    → req.idempotency_key ≡ some k
    → Replayable req k entry db
    → transfer host req db ≡ ok (entry, db)
unfolding transfer
transfer_of_Replayable host req k db entry keyed (positive, found) =
    raise_if_passes _ amount_not_positive _ db positive
    ∙ bind_passes (find_replay req.idempotency_key) _ db db (some entry)
        (subst (λ o. find_replay o db ≡ ok (some entry, db)) (sym keyed) found)

-- A transfer with an idempotency key that has returned, called again with the same request, hands on the
-- same entry and changes nothing, whatever the settings and the clock have become.
pub transfer_replays :
    (host host' : Host) (req : Request) (k : Key) (db db' : Db) (entry : TokenLedger)
    → req.idempotency_key ≡ some k
    → transfer host req db ≡ ok (entry, db')
    → transfer host' req db' ≡ ok (entry, db')
transfer_replays host host' req k db db' entry keyed h =
    transfer_of_Replayable host' req k db' entry keyed
      (subst (Ensures (Replayable req k)) h (transfer-Replayable host req k db keyed))
