-- ===== src/Proof/Binding.antt =====
-- The Merkle root binds the content: two contents of one root and one number of leaves are equal, or a
-- collision of the hash function can be read off them.
use agentchains.Base.{
  ℕ, zero, suc, ◌+◌, ◌/◌, ◌≤◌, ◌≡◌, ◌≢◌, refl, sym, ap, ◌∙◌, Option, none, some, List, [], ◌∷◌,
  ◌++◌, map, length, take, drop, ◌⊎◌, inl, inr, arith, All, ◌==◌, ==→eq, Bool-cases,
}
use agentchains.Proof.Merkle.{
  Hash, chunk_size, chunks_of, or_empty, leaves_of, next_level, climb, MerkleTree, tree_of,
  build_merkle_tree, deepen,
}

-- Two different inputs of one hash.
abbrev pub Collision : Hash → Type 0
Collision h = (x : List ℕ) × (y : List ℕ) × (x ≢ y) × (h x ≡ h y)

-- Every hash has this many digits.
abbrev pub HasDigits : ℕ → Hash → Type 0
HasDigits w h = (x : List ℕ) → length (h x) ≡ w

nat_or : (a b : ℕ) → (a ≡ b) ⊎ (a ≢ b)
nat_or a b = elim (Bool-cases (a == b)) [
  | inl e ↦ inl (==→eq a b e)
  | inr e ↦ inr (λ p. ground (arith, p, e))
]

list_or : (xs ys : List ℕ) → (xs ≡ ys) ⊎ (xs ≢ ys)
list_or [] [] = inl refl
list_or [] (y ∷ ys) = inr (λ p. cc)
list_or (x ∷ xs) [] = inr (λ p. cc)
list_or (x ∷ xs) (y ∷ ys) = elim (nat_or x y) [
  | inr no_ ↦ inr (λ p. no_ cc)
  | inl e ↦ elim (list_or xs ys) [ inl es ↦ inl cc | inr no_ ↦ inr (λ p. no_ cc) ]
]

pub hash_or : (h : Hash) (x y : List ℕ) → h x ≡ h y → (x ≡ y) ⊎ Collision h
hash_or h x y e = elim (list_or x y) [ inl same ↦ inl same | inr no_ ↦ inr (x, y, no_, e) ]

-- A pair of texts of one length is read off their concatenation.
append_split : (a b c d : List ℕ) → length a ≡ length c → a ++ b ≡ c ++ d → (a ≡ c) × (b ≡ d)
append_split [] b [] d len e = (refl, e)
append_split [] b (y ∷ c) d len e = absurd (omega (arith, len))
append_split (x ∷ a) b [] d len e = absurd (omega (arith, len))
append_split (x ∷ a) b (y ∷ c) d len e =
    let rest = append_split a b c d (omega (arith, len)) cc in (let top = rest.0 in cc, rest.1)

level_or :
    (h : Hash) (w : ℕ)
    → HasDigits w h
    → (xs ys : List (List ℕ)) → All (λ x. length x ≡ w) xs
    → All (λ y. length y ≡ w) ys
    → length xs ≡ length ys
    → next_level h xs ≡ next_level h ys
    → (xs ≡ ys) ⊎ Collision h
unfolding next_level
level_or h w digits [] [] hx hy len e = inl refl
level_or h w digits [] (y ∷ ys) hx hy len e = absurd (omega (arith, len))
level_or h w digits (x ∷ xs) [] hx hy len e = absurd (omega (arith, len))
level_or h w digits (x ∷ []) (y ∷ []) hx hy len e = elim (hash_or h (x ++ x) (y ++ y) cc) [
  | inr c ↦ inr c
  | inl same ↦ let top = (append_split x x y y (hx.0 ∙ sym hy.0) same).0 in inl cc
]
level_or h w digits (x ∷ []) (y ∷ y' ∷ ys) hx hy len e = absurd (omega (arith, len))
level_or h w digits (x ∷ x' ∷ xs) (y ∷ []) hx hy len e = absurd (omega (arith, len))
level_or h w digits (x ∷ x' ∷ xs) (y ∷ y' ∷ ys) hx hy len e =
    elim (hash_or h (x ++ x') (y ++ y') cc) [
      | inr c ↦ inr c
      | inl same ↦ elim (level_or h w digits xs ys hx.1.1 hy.1.1 (omega (arith, len)) cc) [
        | inr c ↦ inr c
        | inl rest ↦
            let both = append_split x x' y y' (hx.0 ∙ sym hy.0) same in
            let top = both.0 in let next = both.1 in inl cc
      ]
    ]

pub length-next_level_even :
    (h : Hash) (xs : List (List ℕ)) → length (next_level h xs) ≡ (length xs + 1) / 2
unfolding next_level
length-next_level_even h [] = omega arith
length-next_level_even h (x ∷ []) = omega arith
length-next_level_even h (x ∷ y ∷ xs) = let rest = length-next_level_even h xs in omega arith

next_level-All :
    (h : Hash) (w : ℕ)
    → HasDigits w h
    → (xs : List (List ℕ)) → All (λ x. length x ≡ w) (next_level h xs)
unfolding next_level
next_level-All h w digits [] = tt
next_level-All h w digits (x ∷ []) = (digits (x ++ x), tt)
next_level-All h w digits (x ∷ y ∷ xs) = (digits (x ++ y), next_level-All h w digits xs)

pub deepen-some :
    (o : Option (List ℕ × ℕ)) (r : List ℕ) (d : ℕ)
    → deepen o ≡ some (r, d)
    → (d' : ℕ) × (o ≡ some (r, d')) × (d ≡ d' + 1)
deepen-some none r d e = absurd (ground (arith, e))
deepen-some (some (r', d')) r d e = (d', cc, cc)

climb_or :
    (h : Hash) (w : ℕ)
    → HasDigits w h
    → (fuel : ℕ) (xs ys : List (List ℕ)) (r : List ℕ) (d d' : ℕ) → All (λ x. length x ≡ w) xs
    → All (λ y. length y ≡ w) ys
    → length xs ≡ length ys
    → climb h fuel xs ≡ some (r, d)
    → climb h fuel ys ≡ some (r, d')
    → (xs ≡ ys) ⊎ Collision h
unfolding climb
climb_or h w digits fuel [] ys r d d' hx hy len e e' = absurd (ground (arith, e))
climb_or h w digits fuel (x ∷ []) [] r d d' hx hy len e e' = absurd (omega (arith, len))
climb_or h w digits fuel (x ∷ []) (y ∷ []) r d d' hx hy len e e' = inl cc
climb_or h w digits fuel (x ∷ []) (y ∷ y' ∷ ys) r d d' hx hy len e e' = absurd (omega (arith, len))
climb_or h w digits fuel (x ∷ x' ∷ xs) [] r d d' hx hy len e e' = absurd (omega (arith, len))
climb_or h w digits fuel (x ∷ x' ∷ xs) (y ∷ []) r d d' hx hy len e e' = absurd (omega (arith, len))
climb_or h w digits zero (x ∷ x' ∷ xs) (y ∷ y' ∷ ys) r d d' hx hy len e e' =
    absurd (ground (arith, e))
climb_or h w digits (suc fuel) (x ∷ x' ∷ xs) (y ∷ y' ∷ ys) r d d' hx hy len e e' =
    let below = deepen-some _ r d e in
    let below' = deepen-some _ r d' e' in
    let size = length-next_level_even h (x ∷ x' ∷ xs) in
    let size' = length-next_level_even h (y ∷ y' ∷ ys) in
    elim (climb_or h w digits fuel _ _ r below.0 below'.0 (next_level-All h w digits (x ∷ x' ∷ xs))
      (next_level-All h w digits (y ∷ y' ∷ ys)) (size ∙ ap (λ n. (n + 1) / 2) len ∙ sym size')
      below.1 below'.1) [
        | inr c ↦ inr c
        | inl same ↦ level_or h w digits (x ∷ x' ∷ xs) (y ∷ y' ∷ ys) hx hy len same
      ]

map-All :
    (h : Hash) (w : ℕ) → HasDigits w h → (cs : List (List ℕ)) → All (λ x. length x ≡ w) (map h cs)
map-All h w digits [] = tt
map-All h w digits (c ∷ cs) = (digits c, map-All h w digits cs)

map_or : (h : Hash) (cs cs' : List (List ℕ)) → map h cs ≡ map h cs' → (cs ≡ cs') ⊎ Collision h
map_or h [] [] e = inl refl
map_or h [] (c' ∷ cs') e = absurd (ground (arith, e))
map_or h (c ∷ cs) [] e = absurd (ground (arith, e))
map_or h (c ∷ cs) (c' ∷ cs') e = elim (hash_or h c c' cc) [
  | inr x ↦ inr x
  | inl same ↦ elim (map_or h cs cs' cc) [ inr x ↦ inr x | inl rest ↦ inl cc ]
]

joined : List (List ℕ) → List ℕ
joined [] = []
joined (c ∷ cs) = c ++ joined cs

joined-or_empty : (cs : List (List ℕ)) → joined (or_empty cs) ≡ joined cs
unfolding joined
joined-or_empty [] = refl
joined-or_empty (c ∷ cs) = refl

take-drop : (n : ℕ) (xs : List ℕ) → take n xs ++ drop n xs ≡ xs
take-drop zero xs = refl
take-drop (suc n) [] = refl
take-drop (suc n) (x ∷ xs) = ap (λ r. x ∷ r) (take-drop n xs)

length-drop_le : (n : ℕ) (xs : List ℕ) → length (drop n xs) ≤ length xs
length-drop_le zero xs = omega arith
length-drop_le (suc n) [] = omega arith
length-drop_le (suc n) (x ∷ xs) = omega (arith, length-drop_le n xs)

-- The chunks of a content, one after another, are the content.
joined-chunks_of :
    (fuel k : ℕ) (content : List ℕ)
    → length content ≤ fuel
    → joined (chunks_of fuel (suc k) content) ≡ content
unfolding joined chunks_of
joined-chunks_of zero k [] h = refl
joined-chunks_of zero k (b ∷ content) h = absurd (omega (arith, h))
joined-chunks_of (suc fuel) k [] h = refl
joined-chunks_of (suc fuel) k (b ∷ content) h =
    let short = length-drop_le k content in
    let rest = joined-chunks_of fuel k (drop k content) (omega (arith, h, short)) in
    ap (λ r. b ∷ (take k content ++ r)) rest ∙ ap (λ r. b ∷ r) (take-drop k content)

leaves_or : (h : Hash) (c c' : List ℕ) → leaves_of h c ≡ leaves_of h c' → (c ≡ c') ⊎ Collision h
unfolding leaves_of
leaves_or h c c' e = elim (map_or h _ _ e) [
  | inr x ↦ inr x
  | inl same ↦ inl (sym (whole c) ∙ ap joined same ∙ whole c')
]
  where
    whole : (c : List ℕ) → joined (or_empty (chunks_of (length c) chunk_size c)) ≡ c
    whole c =
        joined-or_empty (chunks_of (length c) chunk_size c)
        ∙ joined-chunks_of (length c) 1023 c (omega arith)

pub tree_of-some :
    (leaves : List (List ℕ)) (o : Option (List ℕ × ℕ)) (t : MerkleTree)
    → tree_of leaves o ≡ some t
    → (o ≡ some (t.root, t.depth)) × (length leaves ≡ t.leaf_count)
tree_of-some leaves none t e = absurd (ground (arith, e))
tree_of-some leaves (some (r, d)) t e = (cc, cc)

leaves_of-All :
    (h : Hash) (w : ℕ) → HasDigits w h → (c : List ℕ) → All (λ x. length x ≡ w) (leaves_of h c)
unfolding leaves_of
leaves_of-All h w digits c = map-All h w digits (or_empty (chunks_of (length c) chunk_size c))

-- Two contents whose trees have the same root and the same number of leaves are equal, or two different
-- inputs of the hash function with one hash are at hand; every hash has the same number of digits.
pub merkle_binds :
    (h : Hash) (w : ℕ) (c c' : List ℕ) (t t' : MerkleTree)
    → HasDigits w h
    → build_merkle_tree h c ≡ some t
    → build_merkle_tree h c' ≡ some t'
    → t.root ≡ t'.root
    → t.leaf_count ≡ t'.leaf_count
    → (c ≡ c') ⊎ Collision h
unfolding build_merkle_tree
merkle_binds h w c c' t t' digits e e' same_root same_count =
    let of_c = tree_of-some _ _ t e in
    let of_c' = tree_of-some _ _ t' e' in
    let len = of_c.1 ∙ same_count ∙ sym of_c'.1 in
    elim (climb_or h w digits (length (leaves_of h c)) _ _ t.root t.depth t'.depth
      (leaves_of-All h w digits c) (leaves_of-All h w digits c') len of_c.0 (cc)) [
        | inr x ↦ inr x
        | inl same ↦ leaves_or h c c' same
      ]
