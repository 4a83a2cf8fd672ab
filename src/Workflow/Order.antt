-- ===== src/Workflow/Order.antt =====
-- The layers respect the graph, and a graph is sorted exactly when it has no cycle.
use mathlib.Core.Path.{subst}
use agentchains.Base.{
  ℕ, suc, ◌+◌, ◌≤◌, ◌≡◌, refl, sym, ap, ◌∙◌, Bool, ◌&&◌, ◌||◌, none, some, List, [], ◌∷◌, ◌⊎◌, inl,
  inr, arith, ◌==◌, ltb, if◌then◌else◌, Bool-cases, count, ok, err, length,
}
use agentchains.Base.Int.{ℤ, pos}
use agentchains.Base.Dict.{Dict, lookup}
use agentchains.Workflow.Graph.{
  Graph, Layer, key_error, cycle, keys, is_some, arcs_of, no_degrees, count_degrees,
  collect_dependents, sources, total_scheduled, unvisited, topological_sort_layers,
}
use agentchains.Workflow.Waiting.{
  waiting, is_some_zero, count_degrees-Tracks, collect_dependents_lem, count-sources,
  count_degrees-keys, no_degrees-Tracks, keys-no_degrees,
}
use agentchains.Workflow.Release.{is_zero-pos}
use agentchains.Workflow.Layers.{AreBuilt, Inv, Ghost, AreOrdered, settled, ids, run_layers-Inv}

abbrev pub IsIn : (ℕ × ℕ) → List (ℕ × ℕ) → Type 0
IsIn (u, v) [] = ⊥
IsIn (u, v) ((src, dst) ∷ arcs) = ((u ≡ src) × (v ≡ dst)) ⊎ IsIn (u, v) arcs

-- `v` depends on `u`, by an edge or by its own list.
abbrev pub DependsOn : {N : Type 0} → Graph N → ℕ → ℕ → Type 0
DependsOn g v u = IsIn (u, v) (arcs_of g)

-- The keys of a dict are distinct.
abbrev pub HasKeys : {N : Type 0} → Graph N → Type 0
HasKeys g = (v : ℕ) → count v (keys g.nodes) ≤ 1

abbrev pub scheduled : {N : Type 0} → ℕ → List (Layer N) → ℕ
scheduled v [] = 0
scheduled v (layer ∷ layers) = count v (ids layer) + scheduled v layers

-- The index of the layer that a node stands in.
abbrev pub level : {N : Type 0} → ℕ → List (Layer N) → ℕ
level v [] = 0
level v (layer ∷ layers) = if ltb 0 (count v (ids layer)) then 0 else suc (level v layers)

pub waiting_none :
    (done : List ℕ) (u v : ℕ) (arcs : List (ℕ × ℕ))
    → IsIn (u, v) arcs
    → waiting done v arcs ≡ 0
    → 1 ≤ count u done
waiting_none done u v [] m h = absurd m
waiting_none done u v ((src, dst) ∷ arcs) (inl (e, e')) h =
    subst (λ k. 1 ≤ count k done) (sym e) (ground (arith, e', h))
waiting_none done u v ((src, dst) ∷ arcs) (inr m) h =
    waiting_none done u v arcs m (ground (arith, h))

pub waiting_some :
    (done : List ℕ) (v : ℕ) (arcs : List (ℕ × ℕ))
    → 1 ≤ waiting done v arcs
    → (u : ℕ) × IsIn (u, v) arcs × (count u done ≡ 0)
waiting_some done v [] h = absurd (omega (arith, h))
waiting_some done v ((src, dst) ∷ arcs) h = elim (Bool-cases (v == dst && count src done == 0)) [
  | inl e ↦ (src, inl (refl, ground (arith, e)), ground (arith, e))
  | inr e ↦ let (u, m, free) = waiting_some done v arcs (ground (arith, h, e)) in (u, inr m, free)
]

module _ {N : Type 0} (g : Graph N) (dict : HasKeys g) where
  unfoldable pub deg0 : Dict ℤ
  deg0 = count_degrees (arcs_of g) (no_degrees g.nodes)

  unfoldable pub present : ℕ → Bool
  present v = is_some (lookup v g.nodes) || ltb 0 (waiting [] v (arcs_of g))

  built : AreBuilt g.nodes (collect_dependents (arcs_of g) []) (arcs_of g) present
  unfolding present
  built = record {
    listed = λ u. collect_dependents_lem (arcs_of g) [] u;
    known = λ v h. ground (arith, h);
    nodes_known = λ v h. rw h;
  }

  start :
      Inv g.nodes (collect_dependents (arcs_of g) []) (arcs_of g) present [] [] (sources deg0) deg0
  unfolding present deg0
  start =
      let tracks =
        count_degrees-Tracks (arcs_of g) (no_degrees g.nodes) _ _ (no_degrees-Tracks g.nodes)
          (λ v e. refl) in
      record {
        degrees = λ v. ground (arith, tracks v);
        free = λ v.
            let once =
              count_degrees-keys (arcs_of g) (no_degrees g.nodes)
                (λ w. subst (λ l. count w l ≤ 1) (sym (keys-no_degrees g.nodes)) (dict w)) v in
            omega (
              arith,
              count-sources deg0 v once
                  ∙ ap (λ o. if is_some_zero o then 1 else 0) (tracks v)
                  ∙ tested v (waiting [] v (arcs_of g)),
            );
        are_nodes = λ v h. absurd (omega (arith, h));
      }
    where
      tested :
          (v n : ℕ)
          → ◌≡◌ {A = ℕ}
              (if is_some_zero (if present v then some (pos (0 + n)) else none) then 1 else 0)
              (if present v && n == 0 then 1 else 0)
      tested v n = elim (Bool-cases (present v)) [
        | inl e ↦ rw (e, is_zero-pos (0 + n)) (ground arith)
        | inr e ↦ rw e
      ]

  -- How the loops end: a missing key, or layers in order with nobody free left.
  unfoldable pub Ends : Type 0
  unfolding present deg0
  Ends =
      ((topological_sort_layers g ≡ err key_error)
        × Ghost g.nodes (collect_dependents (arcs_of g) []) (arcs_of g) present)
      ⊎ ((layers : List (Layer N)) × (deg : Dict ℤ) × (topological_sort_layers g ≡ (
            if ltb (total_scheduled layers) (length g.nodes)
            then err (cycle (unvisited g.nodes deg))
            else ok layers))
          × AreOrdered (arcs_of g) [] layers
          × Inv g.nodes (collect_dependents (arcs_of g) []) (arcs_of g) present (settled layers [])
              [] [] deg)

  pub ends : Ends
  unfolding Ends topological_sort_layers deg0
  ends =
      elim (run_layers-Inv g.nodes (collect_dependents (arcs_of g) []) (arcs_of g) present built
        (suc (length g.nodes)) [] (sources deg0) deg0 start (omega arith)) [
          | inl (fails, ghost) ↦ inl (rw (topological_sort_layers, fails), ghost)
          | inr (layers, deg, runs, ordered, inv) ↦
              inr (layers, deg, rw (topological_sort_layers, runs), ordered, inv)
        ]
