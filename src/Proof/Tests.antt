-- ===== src/Proof/Tests.antt =====
-- The theorems on the published proofs at concrete contents, with a small hash function.
use agentchains.Base.{
  ℕ, ◌+◌, ◌*◌, ◌%◌, ◌≡◌, ◌≢◌, ◌≤◌, ◌<◌, ◌^◌, refl, true, false, map, ◌&&◌, if◌then◌else◌, some,
  List, [], ◌∷◌, ◌++◌, ◌⊎◌, ltb, arith,
}
use agentchains.Proof.Merkle.{Hash, MerkleTree, build_merkle_tree, chunks_of}
use agentchains.Proof.Binding.{Collision, HasDigits, merkle_binds}
use agentchains.Proof.Depth.{merkle_depth}
use agentchains.Proof.Bloom.{
  Builtins, replicate, bit_at, mark_seeds, mark, bloom_hash, build_bloom_filter, check_bloom,
}
use agentchains.Proof.Membership.{bloom_never_misses}

abbrev mixed : ℕ → List ℕ → ℕ
mixed acc [] = acc
mixed acc (b ∷ bytes) = mixed ((acc * 3 + b) % 251) bytes

-- A hash of two digits.
abbrev toy : Hash
toy x = mixed 1 x ∷ mixed 2 x ∷ []

toy-HasDigits : HasDigits 2 toy
toy-HasDigits x = refl

-- Two chunks and two bytes more, in two versions whose last chunks collide.
abbrev long : ℕ → List ℕ
long last = replicate 2049 7 ++ last ∷ []

abbrev long_tree : MerkleTree
long_tree = record {
  root = 167 ∷ 248 ∷ [];
  leaf_count = 3;
  depth = 2;
  leaves = (166 ∷ 120 ∷ []) ∷ (166 ∷ 120 ∷ []) ∷ (32 ∷ 41 ∷ []) ∷ [];
}

tree_of_long : build_merkle_tree toy (long 2) ≡ some long_tree
unfolding build_merkle_tree chunks_of
tree_of_long = refl

tree_of_other : build_merkle_tree toy (long 253) ≡ some long_tree
unfolding build_merkle_tree chunks_of
tree_of_other = refl

merkle_binds_example : (long 2 ≡ long 253) ⊎ Collision toy
merkle_binds_example =
    merkle_binds toy 2 (long 2) (long 253) long_tree long_tree toy-HasDigits tree_of_long
      tree_of_other refl refl

merkle_depth_example :
    (t : MerkleTree) × (build_merkle_tree toy (long 2) ≡ some t)
    × (1 ≤ t.leaf_count)
    × (t.leaf_count ≤ 2 ^ t.depth)
    × (2 ^ t.depth < 2 * t.leaf_count)
merkle_depth_example = merkle_depth toy (long 2)

abbrev lower_letter : ℕ → ℕ
lower_letter c = if ltb 64 c && ltb c 91 then c + 32 else c

-- Letters only, and a digest by the seed.
abbrev ascii : Builtins
ascii = record {
  decode = λ bytes. bytes;
  lower = map lower_letter;
  is_alnum = λ c. ltb 96 c && ltb c 123;
  digest = λ seed word. 5 ∷ 6 ∷ seed ∷ mixed seed word ∷ 7 ∷ [];
}

-- "a Big c" and "BIG".
abbrev content : List ℕ
content = 97 ∷ 32 ∷ 66 ∷ 105 ∷ 103 ∷ 32 ∷ 99 ∷ []

abbrev asked : List ℕ
asked = 66 ∷ 73 ∷ 71 ∷ []

asked_some : ascii.lower asked ≢ []
asked_some e = ground (arith, e)

bloom_never_misses_example : check_bloom ascii (build_bloom_filter ascii content) asked ≡ some true
bloom_never_misses_example =
    bloom_never_misses ascii content asked (97 ∷ 32 ∷ []) (32 ∷ 99 ∷ []) refl asked_some refl refl
      refl

-- A word that the content does not have.
check_bloom_missing : check_bloom ascii (build_bloom_filter ascii content) (98 ∷ []) ≡ some false
unfolding check_bloom build_bloom_filter bit_at mark_seeds mark bloom_hash
check_bloom_missing = refl
