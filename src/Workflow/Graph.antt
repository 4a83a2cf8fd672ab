-- ===== src/Workflow/Graph.antt =====
-- `_topological_sort_layers` of marketplace/services/orchestration_service.py. A node's identifier is a
-- number, and what a node is besides its dependencies is a parameter `N`.
use agentchains.Base.{
  ℕ, zero, suc, ◌+◌, Bool, true, false, Option, none, some, List, [], ◌∷◌, ◌++◌, Result, ok, err,
  if◌then◌else◌, length, ltb,
}
use agentchains.Base.Int.{ℤ, pos, ◌+ℤ◌, ◌-ℤ◌, ltb_ℤ}
use agentchains.Base.Dict.{Dict, lookup, insert}

-- `ValueError` with the unresolved nodes, a missing key, and the end of the fuel.
pub data SortError : Type 0 where
  cycle : List ℕ → SortError
  key_error out_of_fuel : SortError

pub record Node (N : Type 0) : Type 0 where
  pub depends_on : List ℕ
  pub body : N

pub record Graph (N : Type 0) : Type 0 where
  pub nodes : Dict (Node N)
  pub edges : List (ℕ × ℕ)

abbrev pub keys {ℓ} : {V : Type ℓ} → Dict V → List ℕ
keys [] = []
keys ((k, v) ∷ d) = k ∷ keys d

abbrev pub is_some {ℓ} : {A : Type ℓ} → Option A → Bool
is_some none = false
is_some (some a) = true

-- `for dep in ndef.get("depends_on", []): if dep in nodes`
abbrev pub arcs_to : {N : Type 0} → Dict (Node N) → ℕ → List ℕ → List (ℕ × ℕ)
arcs_to nodes nid [] = []
arcs_to nodes nid (dep ∷ deps) =
    let rest = arcs_to nodes nid deps in
    if is_some (lookup dep nodes) then (dep, nid) ∷ rest else rest

abbrev pub arcs_within : {N : Type 0} → Dict (Node N) → Dict (Node N) → List (ℕ × ℕ)
arcs_within nodes [] = []
arcs_within nodes ((nid, ndef) ∷ rest) = arcs_to nodes nid ndef.depends_on ++ arcs_within nodes rest

-- The pairs that the two loops go through: the explicit edges, then the dependencies.
unfoldable pub arcs_of : {N : Type 0} → Graph N → List (ℕ × ℕ)
arcs_of g = g.edges ++ arcs_within g.nodes g.nodes

abbrev pub get_or_zero : Option ℤ → ℤ
get_or_zero none = pos 0
get_or_zero (some n) = n

abbrev pub get_or_empty : Option (List ℕ) → List ℕ
get_or_empty none = []
get_or_empty (some l) = l

-- `{nid: 0 for nid in nodes}`
abbrev pub no_degrees : {N : Type 0} → Dict (Node N) → Dict ℤ
no_degrees [] = []
no_degrees ((nid, ndef) ∷ rest) = (nid, pos 0) ∷ no_degrees rest

-- `in_degree[dst] = in_degree.get(dst, 0) + 1` and `dependents[src].append(dst)`, for each pair.
unfoldable pub count_degrees : List (ℕ × ℕ) → Dict ℤ → Dict ℤ
unfolding ◌+ℤ◌
count_degrees [] deg = deg
count_degrees ((src, dst) ∷ arcs) deg =
    count_degrees arcs (insert dst (get_or_zero (lookup dst deg) +ℤ pos 1) deg)

unfoldable pub collect_dependents : List (ℕ × ℕ) → Dict (List ℕ) → Dict (List ℕ)
collect_dependents [] dependents = dependents
collect_dependents ((src, dst) ∷ arcs) dependents =
    collect_dependents arcs
      (insert src (get_or_empty (lookup src dependents) ++ dst ∷ []) dependents)

abbrev pub is_zero : ℤ → Bool
is_zero (pos zero) = true
is_zero _ = false

-- `deque(nid for nid, deg in in_degree.items() if deg == 0)`
unfoldable pub sources : Dict ℤ → List ℕ
sources [] = []
sources ((nid, deg) ∷ rest) =
    let others = sources rest in if is_zero deg then nid ∷ others else others

-- `for dependent in dependents.get(nid, []): ...`
unfoldable pub release : List ℕ → Dict ℤ → List ℕ → Result SortError (Dict ℤ × List ℕ)
unfolding ◌-ℤ◌
release [] deg queue = ok (deg, queue)
release (dependent ∷ others) deg queue = elim (lookup dependent deg) [
  | none ↦ err key_error
  | some n ↦
      release others (insert dependent (n -ℤ pos 1) deg)
        (if is_zero (n -ℤ pos 1) then queue ++ dependent ∷ [] else queue)
]

abbrev pub Layer : Type 0 → Type 0
Layer N = List (ℕ × Node N)

-- `for nid in layer_ids: ...`; the layer, the degrees, and the queue of the next one.
unfoldable pub run_layer :
    {N : Type 0}
    → Dict (Node N)
    → Dict (List ℕ)
    → List ℕ
    → Dict ℤ
    → List ℕ
    → Result SortError (Layer N × Dict ℤ × List ℕ)
unfolding release
run_layer nodes dependents [] deg queue = ok ([], deg, queue)
run_layer nodes dependents (nid ∷ ids) deg queue = elim (lookup nid nodes) [
  | none ↦ err key_error
  | some ndef ↦ elim (release (get_or_empty (lookup nid dependents)) deg queue) [
    | err e ↦ err e
    | ok (deg', queue') ↦ elim (run_layer nodes dependents ids deg' queue') [
      | err e ↦ err e
      | ok (layer, deg'', queue'') ↦ ok ((nid, ndef) ∷ layer, deg'', queue'')
    ]
  ]
]

-- `while queue: ...`
unfoldable pub run_layers :
    {N : Type 0}
    → Dict (Node N)
    → Dict (List ℕ)
    → ℕ
    → Dict ℤ
    → List ℕ
    → Result SortError (List (Layer N) × Dict ℤ)
unfolding run_layer
run_layers nodes dependents fuel deg [] = ok ([], deg)
run_layers nodes dependents zero deg (nid ∷ ids) = err out_of_fuel
run_layers nodes dependents (suc fuel) deg (nid ∷ ids) =
    elim (run_layer nodes dependents (nid ∷ ids) deg []) [
      | err e ↦ err e
      | ok (layer, deg', queue) ↦ elim (run_layers nodes dependents fuel deg' queue) [
        | err e ↦ err e
        | ok (layers, deg'') ↦ ok (layer ∷ layers, deg'')
      ]
    ]

-- `sum(len(layer) for layer in layers)`
abbrev pub total_scheduled : {N : Type 0} → List (Layer N) → ℕ
total_scheduled [] = 0
total_scheduled (layer ∷ layers) = length layer + total_scheduled layers

-- `[nid for nid in nodes if in_degree.get(nid, 0) > 0]`
unfoldable pub unvisited : {N : Type 0} → Dict (Node N) → Dict ℤ → List ℕ
unvisited [] deg = []
unvisited ((nid, ndef) ∷ rest) deg =
    let others = unvisited rest deg in
    if ltb_ℤ (pos 0) (get_or_zero (lookup nid deg)) then nid ∷ others else others

-- The fuel is one more than the nodes: each round takes at least one of them.
unfoldable pub topological_sort_layers : {N : Type 0} → Graph N → Result SortError (List (Layer N))
unfolding arcs_of count_degrees collect_dependents sources run_layers unvisited
topological_sort_layers g =
    let arcs = arcs_of g in
    let deg = count_degrees arcs (no_degrees g.nodes) in
    elim (run_layers g.nodes (collect_dependents arcs []) (suc (length g.nodes)) deg
      (sources deg)) [
        | err e ↦ err e
        | ok (layers, deg') ↦
            if ltb (total_scheduled layers) (length g.nodes)
            then err (cycle (unvisited g.nodes deg'))
            else ok layers
      ]
