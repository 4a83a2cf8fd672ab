-- ===== src/Proof/Bloom.antt =====
-- The Bloom filter of marketplace/services/zkp_service.py. A byte of the filter is the list of its eight
-- bits, the lowest first, so that `|= 1 << i` sets the bit `i`; reading past the end is `none`.
use agentchains.Base.{
  ℕ, zero, suc, ◌+◌, ◌*◌, ◌/◌, ◌%◌, Bool, true, false, Option, none, some, List, [], ◌∷◌, ◌++◌,
  take, get_elem?,
}

-- `decode`, `str.lower`, `str.isalnum`, and the SHA-256 digest of the text `"{seed}:{word}"`.
pub record Builtins : Type 0 where
  pub decode : List ℕ → List ℕ
  pub lower : List ℕ → List ℕ
  pub is_alnum : ℕ → Bool
  pub digest : ℕ → List ℕ → List ℕ

abbrev pub bloom_size : ℕ
bloom_size = 256

-- `range(BLOOM_HASHES)`
abbrev pub seeds : List ℕ
seeds = 0 ∷ 1 ∷ 2 ∷ []

abbrev pub Bloom : Type 0
Bloom = List (List Bool)

-- `int.from_bytes(bytes, "big")` after the bytes of `acc`.
abbrev pub from_bytes : ℕ → List ℕ → ℕ
from_bytes acc [] = acc
from_bytes acc (b ∷ bytes) = from_bytes (acc * 256 + b) bytes

unfoldable pub bloom_hash : Builtins → List ℕ → ℕ → ℕ
bloom_hash py word seed = from_bytes 0 (take 4 (py.digest seed word)) % (bloom_size * 8)

abbrev pub flush : List ℕ → List (List ℕ) → List (List ℕ)
flush [] words = words
flush (c ∷ current) words = (c ∷ current) ∷ words

-- The loop over the characters: the word read so far, and the words from here on.
unfoldable pub scan : (ℕ → Bool) → List ℕ → List ℕ → List (List ℕ)
scan alnum current [] = flush current []
scan alnum current (ch ∷ text) = elim (alnum ch) [
  | true ↦ scan alnum (current ++ ch ∷ []) text
  | false ↦ flush current (scan alnum [] text)
]

abbrev pub modify_elem {ℓ} : {A : Type ℓ} → (A → A) → ℕ → List A → List A
modify_elem f i [] = []
modify_elem f zero (x ∷ xs) = f x ∷ xs
modify_elem f (suc i) (x ∷ xs) = x ∷ modify_elem f i xs

-- `bloom[pos // 8] |= (1 << pos % 8)`
unfoldable pub mark : ℕ → Bloom → Bloom
mark pos bloom = modify_elem (modify_elem (λ bit. true) (pos % 8)) (pos / 8) bloom

abbrev pub bit_of : ℕ → Option (List Bool) → Option Bool
bit_of i none = none
bit_of i (some byte) = get_elem? byte i

unfoldable pub bit_at : ℕ → Bloom → Option Bool
bit_at pos bloom = bit_of (pos % 8) (get_elem? bloom (pos / 8))

unfoldable pub mark_seeds : Builtins → List ℕ → List ℕ → Bloom → Bloom
mark_seeds py word [] bloom = bloom
mark_seeds py word (seed ∷ rest) bloom =
    mark_seeds py word rest (mark (bloom_hash py word seed) bloom)

unfoldable pub mark_words : Builtins → List (List ℕ) → Bloom → Bloom
mark_words py [] bloom = bloom
mark_words py (word ∷ words) bloom = mark_words py words (mark_seeds py word seeds bloom)

abbrev pub replicate {ℓ} : {A : Type ℓ} → ℕ → A → List A
replicate zero x = []
replicate (suc n) x = x ∷ replicate n x

unfoldable pub build_bloom_filter : Builtins → List ℕ → Bloom
unfolding scan mark_words
build_bloom_filter py content =
    mark_words py (scan py.is_alnum [] (py.lower (py.decode content)))
      (replicate bloom_size (replicate 8 false))

unfoldable pub check_seeds : Builtins → Bloom → List ℕ → List ℕ → Option Bool
check_seeds py bloom word [] = some true
check_seeds py bloom word (seed ∷ rest) = elim (bit_at (bloom_hash py word seed) bloom) [
  | none ↦ none
  | some false ↦ some false
  | some true ↦ check_seeds py bloom word rest
]

unfoldable pub check_bloom : Builtins → Bloom → List ℕ → Option Bool
unfolding check_seeds
check_bloom py bloom word = check_seeds py bloom (py.lower word) seeds
