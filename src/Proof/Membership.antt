-- ===== src/Proof/Membership.antt =====
-- The Bloom filter never misses a word of the content.
use mathlib.Core.Path.{subst}
use agentchains.Base.{
  ℕ, zero, suc, ◌<◌, ◌≡◌, ◌≢◌, refl, sym, ap, ◌∙◌, true, false, some, List, [], ◌∷◌, ◌++◌, length,
  all, All, arith,
}
use agentchains.Proof.Bloom.{
  Builtins, Bloom, bloom_size, seeds, bloom_hash, scan, bit_at, mark_seeds, mark_words, replicate,
  build_bloom_filter, check_seeds, check_bloom,
}
use agentchains.Proof.Words.{ends_free, starts_free, scan-word}
use agentchains.Proof.Marks.{IsFilter, mark-IsFilter, bit_at-mark_self, bit_at-mark}

-- The bits of a word are set, for each of the seeds.
abbrev pub Marked : Builtins → List ℕ → Bloom → List ℕ → Type 0
Marked py word bloom [] = Unit
Marked py word bloom (seed ∷ rest) =
    (bit_at (bloom_hash py word seed) bloom ≡ some true) × Marked py word bloom rest

mark_seeds-IsFilter :
    (py : Builtins) (word : List ℕ) (ss : List ℕ) (bloom : Bloom)
    → IsFilter bloom
    → IsFilter (mark_seeds py word ss bloom)
unfolding mark_seeds
mark_seeds-IsFilter py word [] bloom h = h
mark_seeds-IsFilter py word (s ∷ ss) bloom h =
    mark_seeds-IsFilter py word ss _ (mark-IsFilter (bloom_hash py word s) bloom h)

bit_at-mark_seeds :
    (py : Builtins) (word : List ℕ) (ss : List ℕ) (q : ℕ) (bloom : Bloom)
    → bit_at q bloom ≡ some true
    → bit_at q (mark_seeds py word ss bloom) ≡ some true
unfolding mark_seeds
bit_at-mark_seeds py word [] q bloom h = h
bit_at-mark_seeds py word (s ∷ ss) q bloom h =
    bit_at-mark_seeds py word ss q _ (bit_at-mark (bloom_hash py word s) q bloom h)

mark_seeds-Marked :
    (py : Builtins) (word : List ℕ) (ss : List ℕ) (bloom : Bloom)
    → IsFilter bloom
    → Marked py word (mark_seeds py word ss bloom) ss
unfolding mark_seeds bloom_hash
mark_seeds-Marked py word [] bloom h = tt
mark_seeds-Marked py word (s ∷ ss) bloom h = (
  bit_at-mark_seeds py word ss (bloom_hash py word s) _
      (bit_at-mark_self (bloom_hash py word s) bloom h (bloom_hash_lt py word s)),
  mark_seeds-Marked py word ss _ (mark-IsFilter (bloom_hash py word s) bloom h),
)
  where
    bloom_hash_lt : (py : Builtins) (word : List ℕ) (seed : ℕ) → bloom_hash py word seed < 2048
    bloom_hash_lt py word seed = omega arith

mark_words-keeps :
    (py : Builtins) (words : List (List ℕ)) (q : ℕ) (bloom : Bloom)
    → bit_at q bloom ≡ some true
    → bit_at q (mark_words py words bloom) ≡ some true
unfolding mark_words
mark_words-keeps py [] q bloom h = h
mark_words-keeps py (w ∷ words) q bloom h =
    mark_words-keeps py words q _ (bit_at-mark_seeds py w seeds q bloom h)

Marked-mark_words :
    (py : Builtins) (words : List (List ℕ)) (word : List ℕ) (bloom : Bloom) (ss : List ℕ)
    → Marked py word bloom ss
    → Marked py word (mark_words py words bloom) ss
Marked-mark_words py words word bloom [] h = tt
Marked-mark_words py words word bloom (s ∷ ss) h =
    (mark_words-keeps py words _ bloom h.0, Marked-mark_words py words word bloom ss h.1)

mark_words-Marked :
    (py : Builtins) (ws : List (List ℕ)) (word : List ℕ) (ws' : List (List ℕ)) (bloom : Bloom)
    → IsFilter bloom
    → Marked py word (mark_words py (ws ++ word ∷ ws') bloom) seeds
unfolding mark_words
mark_words-Marked py [] word ws' bloom h =
    Marked-mark_words py ws' word _ seeds (mark_seeds-Marked py word seeds bloom h)
mark_words-Marked py (w ∷ ws) word ws' bloom h =
    mark_words-Marked py ws word ws' _ (mark_seeds-IsFilter py w seeds bloom h)

check_seeds-Marked :
    (py : Builtins) (word : List ℕ) (bloom : Bloom) (ss : List ℕ)
    → Marked py word bloom ss
    → check_seeds py bloom word ss ≡ some true
unfolding check_seeds
check_seeds-Marked py word bloom [] h = refl
check_seeds-Marked py word bloom (s ∷ ss) h =
    rw (h.0, check_seeds) (check_seeds-Marked py word bloom ss h.1)

empty-IsFilter : IsFilter (replicate bloom_size (replicate 8 false))
empty-IsFilter = (refl, filled 256)
  where
    filled : (n : ℕ) → All (λ byte. length byte ≡ 8) (replicate n (replicate 8 false))
    filled zero = tt
    filled (suc n) = (refl, filled n)

-- A word that stands in the lower-cased content as a run of alphanumeric characters, between separators
-- or at an end, is reported as present by the filter that is built from the content, in whatever case
-- the word is asked for.
pub bloom_never_misses :
    (py : Builtins) (content asked before after : List ℕ)
    → py.lower (py.decode content) ≡ before ++ (py.lower asked ++ after)
    → py.lower asked ≢ []
    → all py.is_alnum (py.lower asked) ≡ true
    → ends_free py.is_alnum before ≡ true
    → starts_free py.is_alnum after ≡ true
    → check_bloom py (build_bloom_filter py content) asked ≡ some true
unfolding check_bloom build_bloom_filter
bloom_never_misses py content asked before after text some_ run free free' =
    let found = scan-word py.is_alnum before (py.lower asked) after some_ run free free' in
    let words = ap (scan py.is_alnum []) text ∙ found.2 in
    check_seeds-Marked py (py.lower asked) _ seeds (
      subst
        (λ ws.
          Marked py (py.lower asked) (mark_words py ws (replicate bloom_size (replicate 8 false)))
            seeds)
        (sym words) (mark_words-Marked py found.0 (py.lower asked) found.1 _ empty-IsFilter))
