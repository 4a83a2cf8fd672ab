-- ===== src/Workflow/Cycles.antt =====
-- A workflow's graph is sorted exactly when nothing depends on itself through others, and the nodes that
-- the error names keep one another waiting.
use mathlib.Core.Path.{subst}
use agentchains.Base.{
  ℕ, zero, suc, ◌≤◌, ◌<◌, ◌≡◌, ◌↔◌, ◌∙◌, true, List, [], ◌⊎◌, inl, inr, arith, ◌==◌, ltb,
  Bool-cases, count, ok, err, length,
}
use agentchains.Base.Int.{ℤ}
use agentchains.Base.Dict.{Dict, lookup}
use agentchains.Workflow.Graph.{
  Graph, Layer, cycle, keys, is_some, arcs_of, total_scheduled, unvisited, topological_sort_layers,
  collect_dependents,
}
use agentchains.Workflow.Waiting.{waiting}
use agentchains.Workflow.Layers.{Inv, settled, count-keys_of_lookup, Ghost}
use agentchains.Workflow.Order.{IsIn, DependsOn, HasKeys, level, waiting_some, present, Ends, ends}
use agentchains.Workflow.Known.{
  IsIn-append, arcs_within_known, lookup_of_count-keys, all_scheduled, count-le-length,
  count-unvisited,
}
use agentchains.Workflow.Sorted.{sort_orders}

-- The explicit edges join nodes of the graph.
abbrev pub JoinsNodes : {N : Type 0} → Graph N → Type 0
JoinsNodes g =
    (u v : ℕ)
    → IsIn (u, v) g.edges
    → (is_some (lookup u g.nodes) ≡ true) × (is_some (lookup v g.nodes) ≡ true)

-- A number for each node that grows along every dependency.
abbrev pub IsAcyclic : {N : Type 0} → Graph N → Type 0
IsAcyclic g = (rank : ℕ → ℕ) × ((u v : ℕ) → DependsOn g v u → rank u < rank v)

module _ {N : Type 0} (g : Graph N) (joins : JoinsNodes g) where
  DependsOn-known :
      (u v : ℕ)
      → DependsOn g v u
      → (is_some (lookup u g.nodes) ≡ true) × (is_some (lookup v g.nodes) ≡ true)
  unfolding arcs_of
  DependsOn-known u v m = elim (IsIn-append u v g.edges _ m) [
    | inl e ↦ joins u v e
    | inr d ↦ arcs_within_known g.nodes g.nodes u v d
  ]

  present-known :
      (dict : HasKeys g) (v : ℕ) → present g dict v ≡ true → is_some (lookup v g.nodes) ≡ true
  unfolding present
  present-known dict v h = elim (Bool-cases (is_some (lookup v g.nodes))) [
    | inl e ↦ e
    | inr e ↦
        let (u, m, free) = waiting_some [] v (arcs_of g) (ground (arith, h, e)) in
        (DependsOn-known u v m).1
  ]

  node_present :
      (dict : HasKeys g) (v : ℕ) → is_some (lookup v g.nodes) ≡ true → present g dict v ≡ true
  unfolding present
  node_present dict v h = rw h

  -- A node without a cycle below it is done in the end.
  done_of_rank :
      (dict : HasKeys g) (rank : ℕ → ℕ)
      → ((u v : ℕ) → DependsOn g v u → rank u < rank v)
      → (done : List ℕ) (deg : Dict ℤ)
      → Inv g.nodes (collect_dependents (arcs_of g) []) (arcs_of g) (present g dict) done [] [] deg
      → (n v : ℕ) → rank v < n
      → is_some (lookup v g.nodes) ≡ true
      → 1 ≤ count v done
  done_of_rank dict rank grows done deg inv zero v h node = absurd (omega (arith, h))
  done_of_rank dict rank grows done deg inv (suc n) v h node =
      elim (Bool-cases (waiting done v (arcs_of g) == 0)) [
        | inl e ↦ ground (arith, inv.free v, e, node_present dict v node)
        | inr e ↦
            let (u, m, out) = waiting_some done v (arcs_of g) (ground (arith, e)) in
            let in_ =
              done_of_rank dict rank grows done deg inv n u (omega (arith, h, grows u v m))
                (DependsOn-known u v m).0 in
            absurd (omega (arith, in_, out))
      ]

  no_ghost :
      (dict : HasKeys g)
      → ¬ (Ghost g.nodes (collect_dependents (arcs_of g) []) (arcs_of g) (present g dict))
  no_ghost dict (v, p, missing) = ground (arith, present-known dict v p, missing)

  module _ (dict : HasKeys g) (done : List ℕ) (deg : Dict ℤ)
      (inv : Inv g.nodes
        (collect_dependents (arcs_of g) [])
        (arcs_of g)
        (present g dict)
        done
        []
        []
        deg) where
    -- A node is named if and only if it still waits.
    named_waits :
        (v : ℕ)
        → (1 ≤ count v (unvisited g.nodes deg))
          ↔ ((is_some (lookup v g.nodes) ≡ true) × (1 ≤ waiting done v (arcs_of g)))
    named_waits v = (
      λ h.
          let in_ : 1 ≤ count v (keys g.nodes) = ground (arith, h, count-unvisited v g.nodes deg) in
          let node = lookup_of_count-keys v g.nodes in_ in
          (
            node,
            ground
                (arith, h, count-unvisited v g.nodes deg, inv.degrees v, node_present dict v node),
          ),
      λ (node, waits). ground (
        arith,
        count-unvisited v g.nodes deg,
        inv.degrees v,
        node_present dict v node,
        waits,
        count-keys_of_lookup v g.nodes node,
      ),
    )

    waits_or_done :
        (v : ℕ)
        → is_some (lookup v g.nodes) ≡ true
        → (1 ≤ waiting done v (arcs_of g)) ⊎ (1 ≤ count v done)
    waits_or_done v node = elim (Bool-cases (waiting done v (arcs_of g) == 0)) [
      | inl e ↦ inr (ground (arith, inv.free v, e, node_present dict v node))
      | inr e ↦ inl (ground (arith, e))
    ]

    named_depends :
        (v : ℕ)
        → 1 ≤ count v (unvisited g.nodes deg)
        → (u : ℕ) × DependsOn g v u × (1 ≤ count u (unvisited g.nodes deg))
    named_depends v h =
        let (node, waits) = (named_waits v).0 h in
        let (u, m, out) = waiting_some done v (arcs_of g) waits in
        let known = (DependsOn-known u v m).0 in
        (
          u,
          m,
          elim (waits_or_done u known) [
            | inl waits' ↦ (named_waits u).1 (known, waits')
            | inr in_ ↦ absurd (omega (arith, in_, out))
          ],
        )

  some_named :
      (dict : HasKeys g) (layers : List (Layer N)) (deg : Dict ℤ)
      → Inv g.nodes
          (collect_dependents (arcs_of g) [])
          (arcs_of g)
          (present g dict)
          (settled layers [])
          []
          []
          deg
      → total_scheduled layers < length g.nodes
      → 1 ≤ length (unvisited g.nodes deg)
  some_named dict layers deg inv short = elim (Bool-cases (length (unvisited g.nodes deg) == 0)) [
    | inr e ↦ ground (arith, e)
    | inl e ↦
        let full = all_scheduled g dict layers (λ v node.
          elim (waits_or_done dict _ deg inv v node) [
            | inr in_ ↦ in_
            | inl waits ↦
                let there = (named_waits dict _ deg inv v).1 (node, waits) in
                absurd (ground (arith, e, there, count-le-length v (unvisited g.nodes deg)))
          ]) in
        absurd (omega (arith, full, short))
  ]

-- A graph whose edges join its nodes is sorted if and only if its dependencies have no cycle.
pub sorts_iff :
    {N : Type 0} (g : Graph N)
    → HasKeys g
    → JoinsNodes g
    → ((layers : List (Layer N)) × (topological_sort_layers g ≡ ok layers)) ↔ IsAcyclic g
unfolding Ends
sorts_iff g dict joins = (
  λ (layers, h). (
    λ v. level v layers,
    λ u v m. (sort_orders g layers dict h).1 u v m (DependsOn-known g joins u v m).1,
  ),
  λ (rank, grows). elim (ends g dict) [
    | inl (fails, ghost) ↦ absurd (no_ghost g joins dict ghost)
    | inr (layers, deg, e, ordered, inv) ↦
        let full =
          all_scheduled g dict layers
            (λ v. done_of_rank g joins dict rank grows _ deg inv (suc (rank v)) v (omega arith)) in
        (layers, e ∙ ground (arith, full))
  ],
)

-- If the sort of such a graph reports a cycle, it names at least one node, and every node that it names
-- depends on another that it names.
pub cycle_is_real :
    {N : Type 0} (g : Graph N) (unresolved : List ℕ)
    → HasKeys g
    → JoinsNodes g
    → topological_sort_layers g ≡ err (cycle unresolved)
    → (1 ≤ length unresolved)
      × ((v : ℕ) → 1 ≤ count v unresolved → (u : ℕ) × DependsOn g v u × (1 ≤ count u unresolved))
unfolding Ends
cycle_is_real g unresolved dict joins h = elim (ends g dict) [
  | inl (fails, ghost) ↦ absurd (no_ghost g joins dict ghost)
  | inr (layers, deg, e, ordered, inv) ↦
      elim (Bool-cases (ltb (total_scheduled layers) (length g.nodes))) [
        | inr full ↦ absurd (ground (arith, h, e, full))
        | inl short ↦
            let same : unvisited g.nodes deg ≡ unresolved = ground (arith, h, e, short) in
            subst
              (λ us.
                (1 ≤ length us)
                × ((v : ℕ) → 1 ≤ count v us → (u : ℕ) × DependsOn g v u × (1 ≤ count u us)))
              same
              (
                some_named g joins dict layers deg inv (ground (arith, short)),
                named_depends g joins dict _ deg inv,
              )
      ]
]
