-- ===== src/Settlement/Gains.antt =====
-- What the loop of a first settlement adds to the ledger, and to its report.
use agentchains.Base.{
  ℕ, ◌+◌, ◌≡◌, ◌==◌, refl, sym, ap, ◌∙◌, Bool, true, false, Option, none, some, List, [], ◌∷◌, ◌++◌,
  All, Result, ok, err, reads, Ensures, Ensures-mono, arith, inl, inr, length, select,
}
use agentchains.Base.Int.{ℤ, pos, ◌+ℤ◌, int_laws}
use agentchains.Base.Table.{sum_by, scalar_one_or_none}
use agentchains.Ledger.Fee.{to_decimal-micros}
use agentchains.Ledger.Model.{TokenLedger, Db, Key, key_eq}
use agentchains.Ledger.Model
use agentchains.Ledger.Transfer.{transfer, has_key, find_replay}
use agentchains.Ledger.Added.{Books, transfer-Adds}
use agentchains.Settlement.Rows.{
  Env, ChainExecution, WorkflowNodeExecution, Report, Transfer, Outcome,
}
use agentchains.Settlement.Service.{
  caught, transferred, settle_node, settle_nodes, payment, is_value_error, idempotency_key,
  settlement_request, add_error, add_transfer,
}
use agentchains.Settlement.Again.{Settles, Settles-mono}
use agentchains.Settlement.Summary.{settlement_entries, entry_amount}

-- The ledger has no entry under the node's key.
abbrev pub IsNew : Env → ChainExecution → Db → WorkflowNodeExecution → Type 0
IsNew env exec db n = select (has_key (idempotency_key env exec n)) db.ledger ≡ []

abbrev pub Differs : Env → ChainExecution → WorkflowNodeExecution → WorkflowNodeExecution → Type 0
Differs env exec n m = key_eq (idempotency_key env exec n) (idempotency_key env exec m) ≡ false

-- The keys of the nodes are distinct and new.
abbrev pub Unpaid : Env → ChainExecution → List WorkflowNodeExecution → Db → Type 0
Unpaid env exec [] db = Unit
Unpaid env exec (n ∷ ns) db =
    IsNew env exec db n × All (Differs env exec n) ns × Unpaid env exec ns db

-- What a part of the loop adds to the settlement's entries is what it adds to the report.
pub record Adds (id : ℕ) (db : Db) (rep rep' : Report) (db' : Db) : Type 0 where
  pub gained : ℤ
  pub paid :
      sum_by entry_amount (settlement_entries id db')
      ≡ gained +ℤ sum_by entry_amount (settlement_entries id db)
  pub told : rep'.total_settled ≡ rep.total_settled +ℤ gained
  pub count :
      length (settlement_entries id db') + length rep.transfers
      ≡ length (settlement_entries id db) + length rep'.transfers

nothing_added : (id : ℕ) (rep : Report) (db : Db) → Adds id db rep rep db
nothing_added id rep db = record {
  gained = pos 0;
  paid = omega int_laws;
  told = omega int_laws;
  count = refl;
}

Unpaid-next :
    (env : Env) (exec : ChainExecution) (n : WorkflowNodeExecution)
    (ns : List WorkflowNodeExecution) (entry : TokenLedger) (db db' : Db)
    → db'.ledger ≡ entry ∷ db.ledger
    → entry.idempotency_key ≡ some (idempotency_key env exec n)
    → All (Differs env exec n) ns
    → Unpaid env exec ns db
    → Unpaid env exec ns db'
Unpaid-next env exec n [] entry db db' added keyed differs new = tt
Unpaid-next env exec n (m ∷ ns) entry db db' added keyed (other, others) (new, apart, rest) = (
  rw (added, keyed, other) new,
  apart,
  Unpaid-next env exec n ns entry db db' added keyed others rest,
)

length-end : {A : Type 0} (xs : List A) (x : A) → length (xs ++ x ∷ []) ≡ 1 + length xs
length-end [] x = refl
length-end (y ∷ xs) x = omega (arith, length-end xs x)

not_found :
    (k : Key) (db : Db)
    → select (has_key k) db.ledger ≡ []
    → find_replay (some k) db ≡ ok (none, db)
unfolding find_replay
not_found k db new =
    ap
      (λ rows.
        reads {A = Option TokenLedger}
          (λ (d : Db). scalar_one_or_none Model.Error.multiple_results rows) db)
      new

-- A payment that the ledger takes stands among the settlement's entries.
entry_counted :
    (env : Env) (exec : ChainExecution) (n : WorkflowNodeExecution) (agent_id : ℕ) (price : ℤ)
    (entry : TokenLedger) (db db' : Db)
    → Books (settlement_request env exec n agent_id price) db entry db'
    → settlement_entries exec.id db' ≡ entry ∷ settlement_entries exec.id db
entry_counted env exec n agent_id price entry db db' b =
    rw (b.newest, b.reference_id, b.tx_type, self exec.id) refl
  where
    self : (a : ℕ) → (a == a) ≡ true
    self a = ground arith

new_entry :
    (env : Env) (exec : ChainExecution) (n : WorkflowNodeExecution) (agent_id : ℕ) (price : ℤ)
    (db : Db)
    → IsNew env exec db n
    → Ensures
        (λ entry db'. Books (settlement_request env exec n agent_id price) db entry db')
        (transfer (env.host n) (settlement_request env exec n agent_id price) db)
new_entry env exec n agent_id price db new =
    Ensures-mono _ (λ entry db'. Books (settlement_request env exec n agent_id price) db entry db')
      (λ entry db' r. elim r [
        | inl replayed ↦
            absurd (ground (arith, sym replayed ∙ not_found (idempotency_key env exec n) db new))
        | inr books ↦ books
      ])
      _ (transfer-Adds (env.host n) (settlement_request env exec n agent_id price) refl db)

module _ (env : Env) (exec : ChainExecution) (n : WorkflowNodeExecution)
    (ns : List WorkflowNodeExecution) (next : Report → Db → Outcome)
    (later : (rep : Report) (db : Db)
      → Unpaid env exec ns db
      → Settles (Adds exec.id db rep) (next rep db)) where
  caught-Adds :
      (b : Bool) (agent_id : ℕ) (e : Model.Error) (rep : Report) (db : Db)
      → Unpaid env exec ns db
      → Settles (Adds exec.id db rep) (caught env exec n next b agent_id e rep db)
  caught-Adds true agent_id e rep db new =
      Settles-mono (Adds exec.id db (add_error n agent_id e rep)) (Adds exec.id db rep) (λ _. Unit)
        (λ rep' d a _. record { gained = a.gained; paid = a.paid; told = a.told; count = a.count })
        _ (later _ db new) tt
  caught-Adds false agent_id e rep db new = tt

  transferred-Adds :
      (agent_id : ℕ) (price : ℤ) (rep : Report) (db : Db)
      (r : Result Model.Error (TokenLedger × Db))
      → All (Differs env exec n) ns
      → Unpaid env exec ns db
      → Ensures (Books (settlement_request env exec n agent_id price) db) r
      → Settles (Adds exec.id db rep) (transferred env exec n next agent_id price rep db r)
  unfolding sum_by
  transferred-Adds agent_id price rep db (err e) apart new b =
      caught-Adds (is_value_error e) agent_id e rep db new
  transferred-Adds agent_id price rep db (ok (entry, db')) apart new b =
      let listed = entry_counted env exec n agent_id price entry db db' b in
      let worth : entry.amount ≡ price = b.amount ∙ to_decimal-micros price in
      let t : Transfer = record {
        node_id = n.node_id;
        agent_id = agent_id;
        amount_usd = price;
        ledger_id = entry.id;
        idempotency_key = idempotency_key env exec n;
      } in
      Settles-mono (Adds exec.id db' (add_transfer env exec n agent_id price entry rep))
        (Adds exec.id db rep) (λ _. Unit)
        (λ rep' d a _. record {
          gained = price +ℤ a.gained;
          paid =
              a.paid
              ∙ ap (λ l. a.gained +ℤ sum_by entry_amount l) listed
              ∙ regroup a.gained worth (sum_by entry_amount (settlement_entries exec.id db));
          told = rw a.told (omega int_laws);
          count = omega (arith, a.count, ap length listed, length-end rep.transfers t);
        })
        _ (later _ db' (Unpaid-next env exec n ns entry db db' b.newest b.key apart new)) tt
    where
      regroup : {x y : ℤ} (g : ℤ) → x ≡ y → (s : ℤ) → g +ℤ (x +ℤ s) ≡ (y +ℤ g) +ℤ s
      regroup g same s = rw same (omega int_laws)

  node_Adds :
      (p : Option (ℕ × ℤ)) (rep : Report) (db : Db)
      → Unpaid env exec (n ∷ ns) db
      → Settles (Adds exec.id db rep) (settle_node env exec n next p rep db)
  node_Adds none rep db (new, apart, rest) = later rep db rest
  node_Adds (some (agent_id, price)) rep db (new, apart, rest) =
      transferred-Adds agent_id price rep db _ apart rest
        (new_entry env exec n agent_id price db new)

pub nodes_Adds :
    (env : Env) (exec : ChainExecution) (ns : List WorkflowNodeExecution) (rep : Report) (db : Db)
    → Unpaid env exec ns db
    → Settles (Adds exec.id db rep) (settle_nodes env exec ns rep db)
unfolding settle_nodes
nodes_Adds env exec [] rep db new = nothing_added exec.id rep db
nodes_Adds env exec (n ∷ ns) rep db new =
    node_Adds env exec n ns (settle_nodes env exec ns) (nodes_Adds env exec ns) (payment env exec n)
      rep db new
