-- ===== src/Proof/Depth.antt =====
-- The Merkle tree is built for every content, and its depth is the logarithm of its leaves.
use native.Mathlib.Nat.{pow-succ'}
use agentchains.Base.{
  ℕ, zero, suc, ◌+◌, ◌*◌, ◌/◌, ◌^◌, ◌≤◌, ◌<◌, ◌≡◌, refl, ap, ◌∙◌, some, List, [], ◌∷◌, length,
  arith,
}
use agentchains.Proof.Merkle.{
  Hash, chunks_of, leaves_of, next_level, climb, MerkleTree, tree_of, build_merkle_tree, deepen,
}
use agentchains.Proof.Binding.{length-next_level_even}

-- A tree of a depth holds as many leaves, and half as many would do with one level less.
abbrev pub Fits : ℕ → ℕ → Type 0
Fits leaves depth = (leaves ≤ 2 ^ depth) × (2 ^ depth < 2 * leaves)

double : (d : ℕ) → 2 ^ (d + 1) ≡ 2 * 2 ^ d
double d = ap (λ k. 2 ^ k) (omega arith) ∙ pow-succ' 2 d

Fits-deeper : (n m d : ℕ) → 2 ≤ n → m ≡ (n + 1) / 2 → Fits m d → Fits n (d + 1)
Fits-deeper n m zero big half fits = (omega (arith, fits.0, half), omega (arith, fits.1, half))
Fits-deeper n m (suc d) big half fits =
    let step = double (suc d) in
    let even = pow-succ' 2 d in
    (omega (arith, fits.0, step, half), omega (arith, fits.1, step, half, even))

climb-Fits :
    (h : Hash) (fuel : ℕ) (xs : List (List ℕ))
    → 1 ≤ length xs
    → length xs ≤ suc fuel
    → (r : List ℕ) × (d : ℕ) × (climb h fuel xs ≡ some (r, d)) × Fits (length xs) d
unfolding climb
climb-Fits h fuel [] some_ enough = absurd (omega (arith, some_))
climb-Fits h fuel (x ∷ []) some_ enough = (x, 0, refl, (omega arith, omega arith))
climb-Fits h zero (x ∷ y ∷ xs) some_ enough = absurd (omega (arith, enough))
climb-Fits h (suc fuel) (x ∷ y ∷ xs) some_ enough =
    let size = length-next_level_even h (x ∷ y ∷ xs) in
    let below =
      climb-Fits h fuel (next_level h (x ∷ y ∷ xs)) (omega (arith, size))
        (omega (arith, size, enough)) in
    (below.0, below.1 + 1, ap deepen below.2, Fits-deeper _ _ below.1 (omega arith) size below.3)

leaves_of_some : (h : Hash) (c : List ℕ) → 1 ≤ length (leaves_of h c)
unfolding leaves_of chunks_of
leaves_of_some h [] = omega arith
leaves_of_some h (b ∷ c) = omega arith

-- For every content a tree is built, with at least one leaf; its depth is the least number of levels
-- that its leaves need.
pub merkle_depth :
    (h : Hash) (c : List ℕ)
    → (t : MerkleTree) × (build_merkle_tree h c ≡ some t)
      × (1 ≤ t.leaf_count)
      × (t.leaf_count ≤ 2 ^ t.depth)
      × (2 ^ t.depth < 2 * t.leaf_count)
unfolding build_merkle_tree
merkle_depth h c =
    let leaves = leaves_of h c in
    let one = leaves_of_some h c in
    let top = climb-Fits h (length leaves) leaves one (omega arith) in
    (_, ap (tree_of leaves) top.2, one, top.3.0, top.3.1)
