-- ===== src/Workflow/Waiting.antt =====
-- The degrees and the dependents that the sort starts from, as counts of the graph's arcs.
use agentchains.Base.{
  ℕ, suc, ◌+◌, ◌≤◌, ◌≡◌, refl, sym, ap, ◌∙◌, Bool, false, ◌&&◌, ◌||◌, Option, none, some, List, [],
  ◌∷◌, ◌++◌, inl, inr, arith, ◌==◌, ltb, if◌then◌else◌, Bool-cases, count, ==→eq, append_end,
  append_nil,
}
use agentchains.Base.Int.{ℤ, pos, ◌+ℤ◌}
use agentchains.Base.Dict.{Dict, lookup, insert, lookup-insert}
use agentchains.Workflow.Graph.{
  Node, keys, is_some, get_or_zero, get_or_empty, no_degrees, count_degrees, collect_dependents,
  is_zero, sources,
}

-- Where the arcs from a node lead.
abbrev pub targets : ℕ → List (ℕ × ℕ) → List ℕ
targets u [] = []
targets u ((src, dst) ∷ arcs) = let rest = targets u arcs in if u == src then dst ∷ rest else rest

-- How many arcs lead to a node from outside a list.
abbrev pub waiting : List ℕ → ℕ → List (ℕ × ℕ) → ℕ
waiting done v [] = 0
waiting done v ((src, dst) ∷ arcs) =
    let rest = waiting done v arcs in if v == dst && count src done == 0 then suc rest else rest

pub waiting-cons :
    (u : ℕ) (done : List ℕ) (v : ℕ) (arcs : List (ℕ × ℕ))
    → count u done ≡ 0
    → waiting done v arcs ≡ count v (targets u arcs) + waiting (u ∷ done) v arcs
waiting-cons u done v [] h = omega arith
waiting-cons u done v ((src, dst) ∷ arcs) h = ground (arith, waiting-cons u done v arcs h)

abbrev pub is_some_zero : Option ℤ → Bool
is_some_zero none = false
is_some_zero (some n) = is_zero n

-- A table of degrees: which keys it has, and their values.
abbrev pub Tracks : Dict ℤ → (ℕ → Bool) → (ℕ → ℕ) → Type 0
Tracks deg present f = (v : ℕ) → lookup v deg ≡ (if present v then some (pos (f v)) else none)

bump : (n : ℕ) → pos n +ℤ pos 1 ≡ pos (suc n)
unfolding ◌+ℤ◌
bump n = ground arith

raise_degree :
    (deg : Dict ℤ) (present : ℕ → Bool) (f : ℕ → ℕ)
    → Tracks deg present f
    → ((v : ℕ) → present v ≡ false → f v ≡ 0)
    → (dst : ℕ)
    → Tracks
        (insert dst (get_or_zero (lookup dst deg) +ℤ pos 1) deg)
        (λ w. present w || w == dst)
        (λ w. if w == dst then suc (f w) else f w)
raise_degree deg present f h z dst w =
    let value : get_or_zero (lookup dst deg) +ℤ pos 1 ≡ pos (suc (f dst)) =
      elim (Bool-cases (present dst)) [
        | inl e ↦ rw (h dst, e) (bump (f dst))
        | inr e ↦ rw (h dst, e, z dst e) (bump 0)
      ] in
    rw value (ground (arith, h w, lookup-insert w dst (pos (suc (f dst))) deg))

pub count_degrees-Tracks :
    (arcs : List (ℕ × ℕ)) (deg : Dict ℤ) (present : ℕ → Bool) (f : ℕ → ℕ)
    → Tracks deg present f
    → ((v : ℕ) → present v ≡ false → f v ≡ 0)
    → Tracks
        (count_degrees arcs deg)
        (λ v. present v || ltb 0 (waiting [] v arcs))
        (λ v. f v + waiting [] v arcs)
unfolding count_degrees
count_degrees-Tracks [] deg present f h z v = ground (arith, h v)
count_degrees-Tracks ((src, dst) ∷ arcs) deg present f h z v =
    count_degrees-Tracks arcs _ (λ w. present w || w == dst)
      (λ w. if w == dst then suc (f w) else f w) (raise_degree deg present f h z dst)
      (λ w e. ground (arith, e, z w)) v
    ∙ ground arith

pub collect_dependents_lem :
    (arcs : List (ℕ × ℕ)) (dependents : Dict (List ℕ)) (u : ℕ)
    → get_or_empty (lookup u (collect_dependents arcs dependents))
      ≡ get_or_empty (lookup u dependents) ++ targets u arcs
unfolding collect_dependents
collect_dependents_lem [] dependents u = append_nil (get_or_empty (lookup u dependents))
collect_dependents_lem ((src, dst) ∷ arcs) dependents u =
    let end = append_end (get_or_empty (lookup src dependents)) dst (targets u arcs) in
    let added = lookup-insert u src (get_or_empty (lookup src dependents) ++ dst ∷ []) dependents in
    collect_dependents_lem arcs _ u ∙ elim (Bool-cases (u == src)) [
      | inl same ↦
          let e : u ≡ src = ==→eq u src same in
          rw (added, same)
            (end ∙ ap (λ k. get_or_empty (lookup k dependents) ++ dst ∷ targets u arcs) (sym e))
      | inr other ↦ rw (added, other)
    ]

count-sources-le : (deg : Dict ℤ) (v : ℕ) → count v (sources deg) ≤ count v (keys deg)
unfolding sources
count-sources-le [] v = omega arith
count-sources-le ((k, n) ∷ deg) v = ground (arith, count-sources-le deg v)

-- The queue that the sort starts from has the nodes of degree zero, each once.
pub count-sources :
    (deg : Dict ℤ) (v : ℕ)
    → count v (keys deg) ≤ 1
    → count v (sources deg) ≡ (if is_some_zero (lookup v deg) then 1 else 0)
unfolding sources
count-sources [] v h = refl
count-sources ((k, n) ∷ deg) v h = ground (arith, count-sources deg v, count-sources-le deg v)

-- A key that is set twice stays one key.
count-keys-insert :
    {V : Type 0} (k : ℕ) (x : V) (d : Dict V) (v : ℕ)
    → count v (keys (insert k x d))
      ≡ (if v == k && count v (keys d) == 0 then 1 else count v (keys d))
count-keys-insert k x [] v = ground arith
count-keys-insert k x ((j, y) ∷ d) v = ground (arith, count-keys-insert k x d v)

pub count_degrees-keys :
    (arcs : List (ℕ × ℕ)) (deg : Dict ℤ)
    → ((v : ℕ) → count v (keys deg) ≤ 1)
    → (v : ℕ) → count v (keys (count_degrees arcs deg)) ≤ 1
unfolding count_degrees
count_degrees-keys [] deg h = h
count_degrees-keys ((src, dst) ∷ arcs) deg h =
    count_degrees-keys arcs _ (λ v.
      ground (arith, h v, count-keys-insert dst (get_or_zero (lookup dst deg) +ℤ pos 1) deg v))

pub no_degrees-Tracks :
    {N : Type 0} (nodes : Dict (Node N))
    → Tracks (no_degrees nodes) (λ v. is_some (lookup v nodes)) (λ v. 0)
no_degrees-Tracks [] v = refl
no_degrees-Tracks ((k, n) ∷ nodes) v = ground (arith, no_degrees-Tracks nodes v)

pub keys-no_degrees : {N : Type 0} (nodes : Dict (Node N)) → keys (no_degrees nodes) ≡ keys nodes
keys-no_degrees [] = refl
keys-no_degrees ((k, n) ∷ nodes) = ap (λ r. k ∷ r) (keys-no_degrees nodes)
