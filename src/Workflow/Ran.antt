-- ===== src/Workflow/Ran.antt =====
-- What the run of a layer's nodes adds to an execution of marketplace/services/orchestration_service.py.
use agentchains.Base.{
  ℕ, ◌≤◌, ◌≡◌, refl, ap, ◌∙◌, false, List, [], ◌∷◌, ◌++◌, inl, inr, arith, Bool-cases, length, All,
  All-append, append_nil, append_end, or_left, or_right,
}
use agentchains.Budget.Track.{Floats, BudgetTracker, record_cost, record_latency}
use agentchains.Workflow.Graph.{Layer}
use agentchains.Workflow.Layers.{ids}
use agentchains.Workflow.Execution.{
  Status, NodeType, Answer, NodeRow, Execution, Request, handle, handle_all, pause, resume, cancel,
  cost_of, amount_of, fails, execute_node, execute_human_approval,
}
use agentchains.Workflow.Run.{is_exceeded, run_node, run_nodes}

abbrev pub ran : List NodeRow → List ℕ
ran [] = []
ran (r ∷ rows) = r.node_id ∷ ran rows

abbrev pub in_order : List (Layer NodeType) → List ℕ
in_order [] = []
in_order (layer ∷ layers) = ids layer ++ in_order layers

ran_append : (xs ys : List NodeRow) → ran (xs ++ ys) ≡ ran xs ++ ran ys
ran_append [] ys = refl
ran_append (x ∷ xs) ys = ap (λ r. x.node_id ∷ r) (ran_append xs ys)

-- The tracker's float after a layer and after several: each cost is added in its turn.
abbrev pub spent : (fl : Floats) → (ℕ → Answer fl.Float) → Layer NodeType → fl.Float → fl.Float
spent fl answer [] t = t
spent fl answer ((nid, ndef) ∷ layer) t =
    spent fl answer layer (fl.plus t (cost_of fl ndef.body (answer nid)))

abbrev pub all_spent :
    (fl : Floats) → (ℕ → Answer fl.Float) → List (Layer NodeType) → fl.Float → fl.Float
all_spent fl answer [] t = t
all_spent fl answer (layer ∷ layers) t = all_spent fl answer layers (spent fl answer layer t)

abbrev pub AllCompleted : List NodeRow → Type 0
AllCompleted rows = All (λ (r : NodeRow). r.status ≡ Status.completed) rows

-- Nothing failed or reached the hard limit so far.
pub record IsSound (fl : Floats) (e : Execution) (b : BudgetTracker fl.Float) : Type 0 where
  pub clean : AllCompleted e.rows
  pub below : 1 ≤ length e.rows → fl.at_least b.total_cost b.cost_budget.hard_limit ≡ false

-- Some nodes ran: their rows are added in order.
pub record Ran (fl : Floats) (answer : ℕ → Answer fl.Float) (layer : Layer NodeType)
    (e e' : Execution) (b b' : BudgetTracker fl.Float) : Type 0 where
  pub sound : IsSound fl e' b'
  pub added : ran e'.rows ≡ ran e.rows ++ ids layer
  pub total : b'.total_cost ≡ spent fl answer layer b.total_cost
  pub same_budget : b'.cost_budget ≡ b.cost_budget

record RanOne (fl : Floats) (nid : ℕ) (cost : fl.Float) (e e' : Execution)
    (b b' : BudgetTracker fl.Float) : Type 0 where
  sound : IsSound fl e' b'
  added : ran e'.rows ≡ ran e.rows ++ nid ∷ []
  total : b'.total_cost ≡ fl.plus b.total_cost cost
  same_budget : b'.cost_budget ≡ b.cost_budget

run_node-RanOne :
    (fl : Floats) (nid : ℕ) (kind : NodeType) (a : Answer fl.Float) (e : Execution)
    (b : BudgetTracker fl.Float)
    → (run_node fl nid kind a e b).2 ≡ false
    → IsSound fl e b
    → RanOne fl nid
        (cost_of fl kind a)
        e
        (run_node fl nid kind a e b).0
        b
        (run_node fl nid kind a e b).1
unfolding run_node execute_node record_cost execute_human_approval
run_node-RanOne fl nid kind a e b h s = elim (Bool-cases (fails kind a)) [
  | inl failed ↦ absurd (ground (arith, h, failed))
  | inr fine ↦ elim (Bool-cases (is_exceeded (record_latency fl a.duration b))) [
    | inl slow ↦ absurd (ground (arith, h, fine, slow))
    | inr quick ↦
        let row : NodeRow = record {
          node_id = nid;
          node_type = kind;
          status = Status.completed;
          cost_usd = amount_of kind a;
        } in
        rw (fine, quick)
          (record {
            sound = record {
              clean =
                  All-append (λ (r : NodeRow). r.status ≡ Status.completed) e.rows (row ∷ [])
                    s.clean (refl, tt);
              below = λ _. ground (arith, h, fine, quick);
            };
            added = ran_append e.rows (row ∷ []);
            total = refl;
            same_budget = refl;
          })
  ]
]

pub run_nodes-Ran :
    (fl : Floats) (answer : ℕ → Answer fl.Float) (layer : Layer NodeType) (e : Execution)
    (b : BudgetTracker fl.Float)
    → (run_nodes fl answer layer e b).2 ≡ false
    → IsSound fl e b
    → Ran fl answer layer e (run_nodes fl answer layer e b).0 b (run_nodes fl answer layer e b).1
unfolding run_nodes
run_nodes-Ran fl answer [] e b h s = record {
  sound = s;
  added = append_nil (ran e.rows);
  total = refl;
  same_budget = refl;
}
run_nodes-Ran fl answer ((nid, ndef) ∷ layer) e b h s =
    let now_ = run_node fl nid ndef.body (answer nid) e b in
    let one = run_node-RanOne fl nid ndef.body (answer nid) e b (or_left _ _ h) s in
    let more = run_nodes-Ran fl answer layer now_.0 now_.1 (or_right _ _ h) one.sound in
    record {
      sound = more.sound;
      added =
          more.added ∙ ap (λ l. l ++ ids layer) one.added ∙ append_end (ran e.rows) nid (ids layer);
      total = more.total ∙ ap (spent fl answer layer) one.total;
      same_budget = more.same_budget ∙ one.same_budget;
    }

pub handle_keeps :
    (rs : List Request) (e : Execution)
    → ((handle_all rs e).rows ≡ e.rows) × ((handle_all rs e).total_cost_usd ≡ e.total_cost_usd)
unfolding handle_all handle
handle_keeps [] e = (refl, refl)
handle_keeps (r ∷ rs) e =
    let (rows, cost) = handle_keeps rs (handle r e) in
    let (rows', cost') = one r in (rows ∙ rows', cost ∙ cost')
  where
    one :
        (r : Request)
        → ((handle r e).rows ≡ e.rows) × ((handle r e).total_cost_usd ≡ e.total_cost_usd)
    one pause = ground arith
    one resume = ground arith
    one (cancel now) = ground arith
