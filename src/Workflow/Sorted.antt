-- ===== src/Workflow/Sorted.antt =====
-- What the layers of a workflow guarantee, and which graphs have them.
use mathlib.Core.Path.{subst}
use agentchains.Base.{
  ℕ, suc, ◌+◌, ◌≤◌, ◌<◌, ◌≡◌, refl, ap, true, List, [], ◌∷◌, ◌⊎◌, inl, inr, arith, ltb, Bool-cases,
  count, ok, length, count-le_of_length,
}
use agentchains.Base.Int.{ℤ}
use agentchains.Base.Dict.{Dict, lookup}
use agentchains.Workflow.Graph.{
  Graph, Layer, keys, is_some, arcs_of, total_scheduled, topological_sort_layers,
  collect_dependents,
}
use agentchains.Workflow.Layers.{
  Inv, AreOrdered, settled, ids, onto, count-onto, length-onto, length-keys, count-keys_of_lookup,
  done-le-nodes,
}
use agentchains.Workflow.Order.{
  IsIn, DependsOn, HasKeys, scheduled, level, waiting_none, present, Ends, ends,
}

module _ {N : Type 0} where
  count-settled :
      (v : ℕ) (layers : List (Layer N)) (done : List ℕ)
      → count v (settled layers done) ≡ scheduled v layers + count v done
  count-settled v [] done = omega arith
  count-settled v (layer ∷ layers) done =
      omega (arith, count-settled v layers (onto (ids layer) done), count-onto v (ids layer) done)

  length-ids : (layer : Layer N) → length (ids layer) ≡ length layer
  length-ids [] = refl
  length-ids ((nid, ndef) ∷ layer) = ap suc (length-ids layer)

  pub length-settled :
      (layers : List (Layer N)) (done : List ℕ)
      → length (settled layers done) ≡ total_scheduled layers + length done
  length-settled [] done = omega arith
  length-settled (layer ∷ layers) done = omega (
    arith,
    length-settled layers (onto (ids layer) done),
    length-onto (ids layer) done,
    length-ids layer,
  )

  -- The source of an arc is done before, or stands in an earlier layer.
  level-lt :
      (arcs : List (ℕ × ℕ)) (u v : ℕ)
      → IsIn (u, v) arcs
      → (layers : List (Layer N)) (done : List ℕ) → AreOrdered arcs done layers
      → 1 ≤ scheduled v layers
      → (1 ≤ count u done) ⊎ (level u layers < level v layers)
  level-lt arcs u v arc [] done ordered h = absurd (omega (arith, h))
  level-lt arcs u v arc (layer ∷ layers) done ordered h =
      elim (Bool-cases (ltb 0 (count v (ids layer)))) [
        | inl here ↦ inl (waiting_none done u v arcs arc (ordered.0 v (ground (arith, here))))
        | inr later ↦
            elim (level-lt arcs u v arc layers (onto (ids layer) done) ordered.1
              (ground (arith, h, later))) [
                | inl before ↦ elim (Bool-cases (ltb 0 (count u (ids layer)))) [
                  | inl here ↦ inr (ground (arith, here, later))
                  | inr elsewhere ↦
                      inl (ground (arith, before, elsewhere, count-onto u (ids layer) done))
                ]
                | inr less ↦ inr (ground (arith, less, later))
              ]
      ]

module _ {N : Type 0} (g : Graph N) (dict : HasKeys g) where
  -- What is known when the sort returns layers.
  abbrev Settles : List (Layer N) → Type 0
  Settles layers =
      AreOrdered (arcs_of g) [] layers
      × (length g.nodes ≤ total_scheduled layers)
      × ((deg : Dict ℤ) × Inv g.nodes (collect_dependents (arcs_of g) []) (arcs_of g)
            (present g dict) (settled layers []) [] [] deg)

  settles : (layers : List (Layer N)) → topological_sort_layers g ≡ ok layers → Settles layers
  unfolding Ends
  settles layers h = elim (ends g dict) [
    | inl (fails, ghost) ↦ absurd (ground (arith, fails, h))
    | inr (ls, deg, e, ordered, inv) ↦
        elim (Bool-cases (ltb (total_scheduled ls) (length g.nodes))) [
          | inl short ↦ absurd (ground (arith, h, e, short))
          | inr full ↦
              let same : ls ≡ layers = ground (arith, h, e, full) in
              subst Settles same (ordered, ground (arith, full), (deg, inv))
        ]
  ]

-- The layers hold every node of the graph exactly once and nothing else, and whatever a node depends on
-- stands in an earlier layer.
pub sort_orders :
    {N : Type 0} (g : Graph N) (layers : List (Layer N))
    → HasKeys g
    → topological_sort_layers g ≡ ok layers
    → ((v : ℕ) → scheduled v layers ≡ count v (keys g.nodes))
      × ((u v : ℕ)
          → DependsOn g v u
          → is_some (lookup v g.nodes) ≡ true
          → level u layers < level v layers)
sort_orders g layers dict h =
    let (ordered, full, (deg, inv)) = settles g dict layers h in
    let below = done-le-nodes _ _ _ _ (settled layers []) [] [] deg inv in
    let above =
      count-le_of_length (settled layers []) (keys g.nodes) below
        (omega (arith, full, length-keys g.nodes, length-settled layers [])) in
    let once : (v : ℕ) → scheduled v layers ≡ count v (keys g.nodes) =
      λ v. omega (arith, below v, above v, count-settled v layers []) in
    (
      once,
      λ u v arc node.
          elim (level-lt (arcs_of g) u v arc layers [] ordered
            (omega (arith, once v, count-keys_of_lookup v g.nodes node))) [
              | inl never ↦ absurd (omega (arith, never))
              | inr less ↦ less
            ],
    )
