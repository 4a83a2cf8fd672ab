-- ===== src/Workflow/Layers.antt =====
-- The invariant of the two outer loops: the degrees count the arcs from nodes that are not done, and the
-- nodes without such arcs are those that are done or queued, each once.
use mathlib.Core.Path.{subst}
use agentchains.Base.{
  ℕ, zero, suc, ◌+◌, ◌≤◌, ◌<◌, ◌≡◌, refl, sym, ap, ◌∙◌, Bool, true, ◌&&◌, none, some, List, [], ◌∷◌,
  ◌++◌, ◌⊎◌, inl, inr, arith, ◌==◌, if◌then◌else◌, Bool-cases, Option-cases, count, count-append,
  ==→eq, length-le_of_count, ok, err, length,
}
use agentchains.Base.Int.{ℤ, pos}
use agentchains.Base.Dict.{Dict, lookup}
use agentchains.Workflow.Graph.{
  Node, Layer, key_error, get_or_empty, keys, is_some, release, run_layer, run_layers,
}
use agentchains.Workflow.Waiting.{Tracks, targets, waiting, waiting-cons}
use agentchains.Workflow.Release.{fresh, count-fresh, release_lem}

-- The nodes of a layer, onto those that are done.
abbrev pub onto : List ℕ → List ℕ → List ℕ
onto [] done = done
onto (x ∷ xs) done = onto xs (x ∷ done)

pub count-onto : (v : ℕ) (xs done : List ℕ) → count v (onto xs done) ≡ count v xs + count v done
count-onto v [] done = omega arith
count-onto v (x ∷ xs) done = ground (arith, count-onto v xs (x ∷ done))

pub count-keys_of_lookup :
    {V : Type 0} (v : ℕ) (d : Dict V) → is_some (lookup v d) ≡ true → 1 ≤ count v (keys d)
count-keys_of_lookup v [] h = absurd (ground (arith, h))
count-keys_of_lookup v ((k, x) ∷ d) h = ground (arith, count-keys_of_lookup v d, h)

pub length-keys : {V : Type 0} (d : Dict V) → length (keys d) ≡ length d
length-keys [] = refl
length-keys ((k, x) ∷ d) = ap suc (length-keys d)

pub length-onto : (xs done : List ℕ) → length (onto xs done) ≡ length xs + length done
length-onto [] done = omega arith
length-onto (x ∷ xs) done = omega (arith, length-onto xs (x ∷ done))

module _ {N : Type 0} where
  abbrev pub ids : Layer N → List ℕ
  ids [] = []
  ids ((nid, ndef) ∷ layer) = nid ∷ ids layer

  abbrev pub settled : List (Layer N) → List ℕ → List ℕ
  settled [] done = done
  settled (layer ∷ layers) done = settled layers (onto (ids layer) done)

  -- Every node of a layer waits for nothing but the nodes of the layers before it.
  abbrev pub AreOrdered : List (ℕ × ℕ) → List ℕ → List (Layer N) → Type 0
  AreOrdered arcs done [] = Unit
  AreOrdered arcs done (layer ∷ layers) =
      ((v : ℕ) → 1 ≤ count v (ids layer) → waiting done v arcs ≡ 0)
      × AreOrdered arcs (onto (ids layer) done) layers

module _ {N : Type 0} (nodes : Dict (Node N)) (dependents : Dict (List ℕ)) (arcs : List (ℕ × ℕ))
    (present : ℕ → Bool) where
  -- What the tables are, before the loops and through them.
  pub record AreBuilt : Type 0 where
    pub listed : (u : ℕ) → get_or_empty (lookup u dependents) ≡ targets u arcs
    pub known : (v : ℕ) → 1 ≤ waiting [] v arcs → present v ≡ true
    pub nodes_known : (v : ℕ) → is_some (lookup v nodes) ≡ true → present v ≡ true

  -- Done, pending in this layer, or queued for the next: exactly who waits for nothing.
  pub record Inv (done pending queue : List ℕ) (deg : Dict ℤ) : Type 0 where
    pub degrees : Tracks deg present (λ v. waiting done v arcs)
    pub free :
        (v : ℕ)
        → count v done + count v pending + count v queue
          ≡ (if present v && waiting done v arcs == 0 then 1 else 0)
    pub are_nodes : (v : ℕ) → 1 ≤ count v done → is_some (lookup v nodes) ≡ true

  waiting_mono :
      (done : List ℕ) (v : ℕ) (rest : List (ℕ × ℕ)) → waiting done v rest ≤ waiting [] v rest
  waiting_mono done v [] = omega arith
  waiting_mono done v ((src, dst) ∷ rest) = ground (arith, waiting_mono done v rest)

  -- One node of the layer.
  step-Inv :
      (b : AreBuilt) (nid : ℕ) (done pending queue : List ℕ) (deg : Dict ℤ)
      → is_some (lookup nid nodes) ≡ true
      → Inv done (nid ∷ pending) queue deg
      → (deg' : Dict ℤ) × (queue' : List ℕ) × (release
            (get_or_empty (lookup nid dependents))
            deg
            queue
          ≡ ok (deg', queue'))
        × Inv (nid ∷ done) pending queue' deg'
  step-Inv b nid done pending queue deg node inv =
      let ts = targets nid arcs in
      let f = λ (v : ℕ). waiting (nid ∷ done) v arcs in
      let new : count nid done ≡ 0 = ground (arith, inv.free nid) in
      let split = λ (v : ℕ). waiting-cons nid done v arcs new in
      let known = λ (v : ℕ) (c : 1 ≤ count v ts).
        b.known v (omega (arith, c, split v, waiting_mono done v arcs)) in
      let tracks =
        λ (v : ℕ). inv.degrees v ∙ ap (λ n. if present v then some (pos n) else none) (split v) in
      let (deg', runs, tracks') = release_lem ts deg queue present f known tracks in
      (
        deg',
        queue ++ fresh ts f,
        ap (λ l. release l deg queue) (b.listed nid) ∙ runs,
        record {
          degrees = tracks';
          free = λ v. ground (
            arith,
            inv.free v,
            count-append v queue (fresh ts f),
            count-fresh ts f v,
            split v,
            known v,
          );
          are_nodes = λ v c. elim (Bool-cases (v == nid)) [
            | inl e ↦ rw (==→eq v nid e) node
            | inr e ↦ inv.are_nodes v (ground (arith, c, e))
          ];
        },
      )

  -- A node that an arc leads to and that the graph does not define.
  abbrev pub Ghost : Type 0
  Ghost = (v : ℕ) × (present v ≡ true) × (lookup v nodes ≡ none)

  -- A layer: it raises a missing key, or its nodes are done.
  run_layer-Inv :
      (b : AreBuilt) (pending done queue : List ℕ) (deg : Dict ℤ)
      → Inv done pending queue deg
      → ((run_layer nodes dependents pending deg queue ≡ err key_error) × Ghost)
        ⊎ ((layer : Layer N) × (deg' : Dict ℤ) × (queue' : List ℕ) × (run_layer nodes dependents
                pending deg queue
              ≡ ok (layer, deg', queue'))
            × (ids layer ≡ pending)
            × Inv (onto pending done) [] queue' deg')
  unfolding run_layer
  run_layer-Inv b [] done queue deg inv = inr ([], deg, queue, refl, refl, inv)
  run_layer-Inv b (nid ∷ pending) done queue deg inv = elim (Option-cases (lookup nid nodes)) [
    | inl missing ↦ inl (rw (missing, run_layer), (nid, ground (arith, inv.free nid), missing))
    | inr (ndef, found) ↦
        let (deg1, queue1, runs, inv1) =
          step-Inv b nid done pending queue deg (ap is_some found) inv in
        elim (run_layer-Inv b pending (nid ∷ done) queue1 deg1 inv1) [
          | inl (fails, ghost) ↦
              inl (rw (found, run_layer) (rw (runs, run_layer) (rw fails)), ghost)
          | inr (layer, deg', queue', more, same, inv') ↦ inr (
            (nid, ndef) ∷ layer,
            deg',
            queue',
            rw (found, run_layer) (rw (runs, run_layer) (rw more)),
            ap (λ l. nid ∷ l) same,
            inv',
          )
        ]
  ]

  pub done-le-nodes :
      (done pending queue : List ℕ) (deg : Dict ℤ)
      → Inv done pending queue deg
      → (v : ℕ) → count v done ≤ count v (keys nodes)
  done-le-nodes done pending queue deg inv v = elim (Bool-cases (count v done == 0)) [
    | inl e ↦ ground (arith, e)
    | inr e ↦
        ground
          (arith, e, inv.free v, count-keys_of_lookup v nodes (inv.are_nodes v (ground (arith, e))))
  ]

  -- All layers: a missing key is raised, or nobody is queued any more.
  pub run_layers-Inv :
      (b : AreBuilt) (fuel : ℕ) (done queue : List ℕ) (deg : Dict ℤ)
      → Inv done [] queue deg
      → length nodes < fuel + length done
      → ((run_layers nodes dependents fuel deg queue ≡ err key_error) × Ghost)
        ⊎ ((layers : List (Layer N)) × (deg' : Dict ℤ) × (run_layers nodes dependents fuel deg queue
              ≡ ok (layers, deg'))
            × AreOrdered arcs done layers
            × Inv (settled layers done) [] [] deg')
  unfolding run_layers
  run_layers-Inv b fuel done [] deg inv h = inr ([], deg, refl, tt, inv)
  run_layers-Inv b zero done (nid ∷ queue) deg inv h = absurd (
      omega (
        arith,
        h,
        length-le_of_count done (keys nodes) (done-le-nodes done _ _ deg inv),
        length-keys nodes,
      ))
  run_layers-Inv b (suc fuel) done (nid ∷ queue) deg inv h =
      elim (run_layer-Inv b (nid ∷ queue) done [] deg (starts (nid ∷ queue) inv)) [
        | inl (fails, ghost) ↦ inl (rw (fails, run_layers), ghost)
        | inr (layer, deg1, queue1, runs, same, inv1) ↦
            let free : (v : ℕ) → 1 ≤ count v (ids layer) → waiting done v arcs ≡ 0 =
              λ v c. ground (arith, inv.free v, c, ap (count v) same) in
            elim (run_layers-Inv b fuel (onto (ids layer) done) queue1 deg1
              (subst (λ l. Inv (onto l done) [] queue1 deg1) (sym same) inv1)
              (omega (arith, h, length-onto (ids layer) done, ap length same))) [
                | inl (fails, ghost) ↦ inl (rw (runs, run_layers) (rw fails), ghost)
                | inr (layers, deg', more, ordered, inv') ↦
                    inr
                      (layer ∷ layers, deg', rw (runs, run_layers) (rw more), (free, ordered), inv')
              ]
      ]
    where
      starts : (queue : List ℕ) → Inv done [] queue deg → Inv done queue [] deg
      starts queue i = record {
        degrees = i.degrees;
        free = λ v. omega (arith, i.free v);
        are_nodes = i.are_nodes;
      }
