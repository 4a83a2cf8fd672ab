-- ===== src/Proof/Merkle.antt =====
-- `build_merkle_tree` of marketplace/services/zkp_service.py. Bytes and characters are numbers; a hash
-- is the text of its hexadecimal digits, which encodes to itself.
use agentchains.Base.{
  ℕ, zero, suc, ◌+◌, Option, none, some, List, [], ◌∷◌, ◌++◌, map, length, take, drop,
}

-- `hashlib.sha256(data).hexdigest()`
abbrev pub Hash : Type 0
Hash = List ℕ → List ℕ

abbrev pub chunk_size : ℕ
chunk_size = 1024

-- `[content[i:i + n] for i in range(0, len(content), n)]`; the fuel is the length.
unfoldable pub chunks_of : ℕ → ℕ → List ℕ → List (List ℕ)
chunks_of zero n content = []
chunks_of (suc fuel) n [] = []
chunks_of (suc fuel) n (b ∷ content) =
    take n (b ∷ content) ∷ chunks_of fuel n (drop n (b ∷ content))

-- `if not chunks: chunks = [b""]`
abbrev pub or_empty : List (List ℕ) → List (List ℕ)
or_empty [] = [] ∷ []
or_empty (c ∷ cs) = c ∷ cs

unfoldable pub leaves_of : Hash → List ℕ → List (List ℕ)
leaves_of h content = map h (or_empty (chunks_of (length content) chunk_size content))

-- The body of the inner loop: neighbours are hashed together, and an odd last one with itself.
unfoldable pub next_level : Hash → List (List ℕ) → List (List ℕ)
next_level h [] = []
next_level h (left ∷ []) = h (left ++ left) ∷ []
next_level h (left ∷ right ∷ rest) = h (left ++ right) ∷ next_level h rest

abbrev pub deepen : Option (List ℕ × ℕ) → Option (List ℕ × ℕ)
deepen none = none
deepen (some (root, depth)) = some (root, depth + 1)

-- The levels up to the root: its hash and the depth. The fuel is the number of leaves.
unfoldable pub climb : Hash → ℕ → List (List ℕ) → Option (List ℕ × ℕ)
unfolding next_level
climb h fuel [] = none
climb h fuel (root ∷ []) = some (root, 0)
climb h zero (a ∷ b ∷ rest) = none
climb h (suc fuel) (a ∷ b ∷ rest) = deepen (climb h fuel (next_level h (a ∷ b ∷ rest)))

pub record MerkleTree : Type 0 where
  pub root : List ℕ
  pub leaf_count : ℕ
  pub depth : ℕ
  pub leaves : List (List ℕ)

abbrev pub tree_of : List (List ℕ) → Option (List ℕ × ℕ) → Option MerkleTree
tree_of leaves none = none
tree_of leaves (some (root, depth)) =
    some (record { root = root; leaf_count = length leaves; depth = depth; leaves = leaves })

unfoldable pub build_merkle_tree : Hash → List ℕ → Option MerkleTree
unfolding leaves_of climb
build_merkle_tree h content =
    let leaves = leaves_of h content in tree_of leaves (climb h (length leaves) leaves)
