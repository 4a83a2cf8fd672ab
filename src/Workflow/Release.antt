-- ===== src/Workflow/Release.antt =====
-- One node's dependents are released: the degrees fall, and who waits for nothing more is queued.
use agentchains.Base.{
  ℕ, zero, suc, ◌+◌, ◌≤◌, ◌≡◌, refl, ap, ◌∙◌, Bool, true, ◌&&◌, some, List, [], ◌∷◌, ◌++◌, inl, inr,
  arith, ◌==◌, ltb, if◌then◌else◌, Bool-cases, count, ok, append_end, append_nil, ==→eq,
}
use agentchains.Base.Int.{ℤ, pos, ◌-ℤ◌}
use agentchains.Base.Dict.{Dict, lookup, insert, lookup-insert}
use agentchains.Workflow.Graph.{is_zero, release}
use agentchains.Workflow.Waiting.{Tracks}

-- Those of a list for whom nothing else counts, each at its last place.
abbrev pub fresh : List ℕ → (ℕ → ℕ) → List ℕ
fresh [] f = []
fresh (d ∷ ds) f = let rest = fresh ds f in if count d ds == 0 && f d == 0 then d ∷ rest else rest

pub count-fresh :
    (ds : List ℕ) (f : ℕ → ℕ) (v : ℕ)
    → count v (fresh ds f) ≡ (if ltb 0 (count v ds) && f v == 0 then 1 else 0)
count-fresh [] f v = refl
count-fresh (d ∷ ds) f v = elim (Bool-cases (v == d)) [
  | inl e ↦ rw (==→eq v d e) (ground (arith, count-fresh ds f d))
  | inr e ↦ ground (arith, e, count-fresh ds f v)
]

lower : (n : ℕ) → pos (suc n) -ℤ pos 1 ≡ pos n
unfolding ◌-ℤ◌
lower n = ground arith

pub is_zero-pos : (n : ℕ) → is_zero (pos n) ≡ (n == 0)
is_zero-pos zero = refl
is_zero-pos (suc n) = ground arith

is_zero_sum : (a b : ℕ) → is_zero (pos (a + b)) ≡ (a == 0 && b == 0)
is_zero_sum a b = is_zero-pos (a + b) ∙ ground arith

lower_degree :
    (deg : Dict ℤ) (present : ℕ → Bool) (ds : List ℕ) (f : ℕ → ℕ) (d : ℕ)
    → Tracks deg present (λ v. count v (d ∷ ds) + f v)
    → present d ≡ true
    → Tracks (insert d (pos (count d ds + f d)) deg) present (λ v. count v ds + f v)
lower_degree deg present ds f d h p v =
    ground (arith, h v, lookup-insert v d (pos (count d ds + f d)) deg)

-- The call returns; every degree falls by the number of arcs, and `fresh` is queued.
pub release_lem :
    (ds : List ℕ) (deg : Dict ℤ) (queue : List ℕ) (present : ℕ → Bool) (f : ℕ → ℕ)
    → ((v : ℕ) → 1 ≤ count v ds → present v ≡ true)
    → Tracks deg present (λ v. count v ds + f v)
    → (deg' : Dict ℤ) × (release ds deg queue ≡ ok (deg', queue ++ fresh ds f))
      × Tracks deg' present f
unfolding release
release_lem [] deg queue present f known h =
    (deg, ap (λ q. ok (deg, q)) (append_nil queue), λ v. ground (arith, h v))
release_lem (d ∷ ds) deg queue present f known h =
    let there : present d ≡ true = known d (ground arith) in
    let k = count d ds + f d in
    let found : lookup d deg ≡ some (pos (suc k)) = rw (h d, there) (ground arith) in
    let deg' = insert d (pos k) deg in
    let queue' = if is_zero (pos k) then queue ++ d ∷ [] else queue in
    let (last, runs, tracks) =
      release_lem ds deg' queue' present f (λ v c. known v (ground (arith, c)))
        (lower_degree deg present ds f d h there) in
    (
      last,
      rw (found, lower k, release) (runs ∙ ap (λ q. ok (last, q)) (requeued (fresh ds f))),
      tracks,
    )
  where
    requeued :
        (rest : List ℕ)
        → (if is_zero (pos (count d ds + f d)) then queue ++ d ∷ [] else queue) ++ rest
          ≡ queue ++ (if count d ds == 0 && f d == 0 then d ∷ rest else rest)
    requeued rest = elim (Bool-cases (count d ds == 0 && f d == 0)) [
      | inl e ↦ rw (e, is_zero_sum (count d ds) (f d) ∙ e) (append_end queue d rest)
      | inr e ↦ rw (e, is_zero_sum (count d ds) (f d) ∙ e)
    ]
