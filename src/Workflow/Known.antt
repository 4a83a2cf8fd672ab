-- ===== src/Workflow/Known.antt =====
-- The nodes that the arcs of a workflow's graph join, and those that the sort leaves: lemmas for its cycles.
use mathlib.Core.Path.{subst}
use agentchains.Base.{
  ℕ, ◌≤◌, ◌≡◌, sym, ap, ◌∙◌, true, List, [], ◌∷◌, ◌++◌, ◌⊎◌, inl, inr, arith, ◌==◌, if◌then◌else◌,
  Bool-cases, count, ==→eq, length, length-le_of_count,
}
use agentchains.Base.Int.{ℤ, pos, ltb_ℤ}
use agentchains.Base.Dict.{Dict, lookup}
use agentchains.Workflow.Graph.{
  Node, Graph, Layer, keys, is_some, arcs_to, arcs_within, get_or_zero, total_scheduled, unvisited,
}
use agentchains.Workflow.Layers.{settled, length-keys}
use agentchains.Workflow.Order.{IsIn, HasKeys}
use agentchains.Workflow.Sorted.{length-settled}

pub IsIn-append :
    (u v : ℕ) (xs ys : List (ℕ × ℕ)) → IsIn (u, v) (xs ++ ys) → IsIn (u, v) xs ⊎ IsIn (u, v) ys
IsIn-append u v [] ys m = inr m
IsIn-append u v ((a, b) ∷ xs) ys (inl e) = inl (inl e)
IsIn-append u v ((a, b) ∷ xs) ys (inr m) = elim (IsIn-append u v xs ys m) [
  | inl l ↦ inl (inr l)
  | inr r ↦ inr r
]

module _ {N : Type 0} (nodes : Dict (Node N)) where
  arcs_to_known :
      (nid : ℕ) (deps : List ℕ) (u v : ℕ)
      → IsIn (u, v) (arcs_to nodes nid deps)
      → (is_some (lookup u nodes) ≡ true) × (v ≡ nid)
  arcs_to_known nid [] u v m = absurd m
  arcs_to_known nid (dep ∷ deps) u v m = elim (Bool-cases (is_some (lookup dep nodes))) [
    | inl e ↦ elim (rw e at m) as (λ _. (is_some (lookup u nodes) ≡ true) × (v ≡ nid)) [
      | inl (a, b) ↦ (ap (λ k. is_some (lookup k nodes)) a ∙ e, b)
      | inr r ↦ arcs_to_known nid deps u v r
    ]
    | inr e ↦ arcs_to_known nid deps u v (rw e at m)
  ]

  pub arcs_within_known :
      (rest : Dict (Node N)) (u v : ℕ)
      → IsIn (u, v) (arcs_within nodes rest)
      → (is_some (lookup u nodes) ≡ true) × (is_some (lookup v rest) ≡ true)
  arcs_within_known [] u v m = absurd m
  arcs_within_known ((nid, ndef) ∷ rest) u v m =
      elim (IsIn-append u v (arcs_to nodes nid ndef.depends_on) _ m) [
        | inl here ↦
            let (a, b) = arcs_to_known nid ndef.depends_on u v here in (a, ground (arith, b))
        | inr there ↦ let (a, b) = arcs_within_known rest u v there in (a, ground (arith, b))
      ]

pub lookup_of_count-keys :
    {V : Type 0} (v : ℕ) (d : Dict V) → 1 ≤ count v (keys d) → is_some (lookup v d) ≡ true
lookup_of_count-keys v [] h = absurd (omega (arith, h))
lookup_of_count-keys v ((k, x) ∷ d) h = ground (arith, lookup_of_count-keys v d, h)

-- If every node is done, as many are scheduled as there are.
pub all_scheduled :
    {N : Type 0} (g : Graph N)
    → HasKeys g
    → (layers : List (Layer N))
    → ((v : ℕ) → is_some (lookup v g.nodes) ≡ true → 1 ≤ count v (settled layers []))
    → length g.nodes ≤ total_scheduled layers
all_scheduled g dict layers h =
    let covered = length-le_of_count (keys g.nodes) (settled layers []) (λ v. covers v) in
    omega (arith, covered, length-keys g.nodes, length-settled layers [])
  where
    covers : (v : ℕ) → count v (keys g.nodes) ≤ count v (settled layers [])
    covers v = elim (Bool-cases (count v (keys g.nodes) == 0)) [
      | inl e ↦ ground (arith, e)
      | inr e ↦
          let in_ : 1 ≤ count v (keys g.nodes) = ground (arith, e) in
          omega (arith, dict v, h v (lookup_of_count-keys v g.nodes in_))
    ]

pub count-le-length : (v : ℕ) (xs : List ℕ) → count v xs ≤ length xs
count-le-length v [] = omega arith
count-le-length v (x ∷ xs) = ground (arith, count-le-length v xs)

pub count-unvisited :
    {N : Type 0} (v : ℕ) (rest : Dict (Node N)) (deg : Dict ℤ)
    → count v (unvisited rest deg)
      ≡ (if ltb_ℤ (pos 0) (get_or_zero (lookup v deg)) then count v (keys rest) else 0)
unfolding unvisited
count-unvisited v [] deg = ground arith
count-unvisited v ((k, n) ∷ rest) deg = elim (Bool-cases (v == k)) [
  | inl e ↦
      subst
        (λ w. count w (unvisited ((k, n) ∷ rest) deg) ≡ (
          if ltb_ℤ (pos 0) (get_or_zero (lookup w deg)) then count w (keys ((k, n) ∷ rest)) else 0))
        (sym (==→eq v k e)) (ground (arith, count-unvisited k rest deg))
  | inr e ↦ ground (arith, e, count-unvisited v rest deg)
]
