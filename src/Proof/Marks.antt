-- ===== src/Proof/Marks.antt =====
-- The marks that a Bloom filter of marketplace/services/zkp_service.py keeps.
use mathlib.Core.Path.{subst}
use agentchains.Base.{
  ℕ, zero, suc, ◌/◌, ◌%◌, ◌<◌, ◌≡◌, ◌≢◌, refl, sym, ap, ◌∙◌, Bool, true, Option, none, some, List,
  [], ◌∷◌, length, get_elem?, All, inl, inr, arith, ◌==◌, ==→eq, Bool-cases, Option-cases,
}
use agentchains.Proof.Bloom.{Bloom, bloom_size, modify_elem, mark, bit_at, bit_of}

module _ {ℓ} {A : Type ℓ} where
  get_elem?-modify_elem_self :
      (f : A → A) (i : ℕ) (xs : List A) (x : A)
      → get_elem? xs i ≡ some x
      → get_elem? (modify_elem f i xs) i ≡ some (f x)
  get_elem?-modify_elem_self f i [] x h = absurd (ground (arith, h))
  get_elem?-modify_elem_self f zero (y ∷ xs) x h = cc
  get_elem?-modify_elem_self f (suc i) (y ∷ xs) x h = get_elem?-modify_elem_self f i xs x h

  get_elem?-modify_elem_ne :
      (f : A → A) (i j : ℕ) (xs : List A)
      → i ≢ j
      → get_elem? (modify_elem f i xs) j ≡ get_elem? xs j
  get_elem?-modify_elem_ne f i j [] h = refl
  get_elem?-modify_elem_ne f zero zero (y ∷ xs) h = absurd (h refl)
  get_elem?-modify_elem_ne f zero (suc j) (y ∷ xs) h = refl
  get_elem?-modify_elem_ne f (suc i) zero (y ∷ xs) h = refl
  get_elem?-modify_elem_ne f (suc i) (suc j) (y ∷ xs) h =
      get_elem?-modify_elem_ne f i j xs (λ e. h (ap suc e))

  length-modify_elem : (f : A → A) (i : ℕ) (xs : List A) → length (modify_elem f i xs) ≡ length xs
  length-modify_elem f i [] = refl
  length-modify_elem f zero (x ∷ xs) = refl
  length-modify_elem f (suc i) (x ∷ xs) = ap suc (length-modify_elem f i xs)

  get_elem?-some : (i : ℕ) (xs : List A) → i < length xs → (x : A) × (get_elem? xs i ≡ some x)
  get_elem?-some i [] h = absurd (omega (arith, h))
  get_elem?-some zero (x ∷ xs) h = (x, refl)
  get_elem?-some (suc i) (x ∷ xs) h = get_elem?-some i xs (omega (arith, h))

  All-get_elem? :
      (P : A → Type 0) (i : ℕ) (xs : List A) (x : A) → All P xs → get_elem? xs i ≡ some x → P x
  All-get_elem? P i [] x hs h = absurd (ground (arith, h))
  All-get_elem? P zero (y ∷ xs) x hs h = let e : y ≡ x = cc in subst P e hs.0
  All-get_elem? P (suc i) (y ∷ xs) x hs h = All-get_elem? P i xs x hs.1 h

  All-modify_elem :
      (P : A → Type 0) (f : A → A)
      → ((x : A) → P x → P (f x))
      → (i : ℕ) (xs : List A) → All P xs
      → All P (modify_elem f i xs)
  All-modify_elem P f keeps i [] hs = tt
  All-modify_elem P f keeps zero (x ∷ xs) hs = (keeps x hs.0, hs.1)
  All-modify_elem P f keeps (suc i) (x ∷ xs) hs = (hs.0, All-modify_elem P f keeps i xs hs.1)

-- A filter of 256 bytes of eight bits.
abbrev pub IsFilter : Bloom → Type 0
IsFilter bloom = (length bloom ≡ bloom_size) × All (λ byte. length byte ≡ 8) bloom

pub mark-IsFilter : (pos : ℕ) (bloom : Bloom) → IsFilter bloom → IsFilter (mark pos bloom)
unfolding mark
mark-IsFilter pos bloom h = (
  length-modify_elem _ _ bloom ∙ h.0,
  All-modify_elem (λ byte. length byte ≡ 8) _
      (λ byte size. length-modify_elem (λ bit. true) (pos % 8) byte ∙ size) _ bloom h.1,
)

pub bit_at-mark_self :
    (pos : ℕ) (bloom : Bloom)
    → IsFilter bloom
    → pos < 2048
    → bit_at pos (mark pos bloom) ≡ some true
unfolding mark bit_at
bit_at-mark_self pos bloom h small =
    let byte = get_elem?-some (pos / 8) bloom (omega (arith, h.0, small)) in
    let size = All-get_elem? (λ b. length b ≡ 8) (pos / 8) bloom byte.0 h.1 byte.1 in
    let bit = get_elem?-some (pos % 8) byte.0 (omega (arith, size)) in
    ap (bit_of (pos % 8)) (
      get_elem?-modify_elem_self (modify_elem (λ bit. true) (pos % 8)) (pos / 8) bloom byte.0
        byte.1)
    ∙ get_elem?-modify_elem_self (λ bit. true) (pos % 8) byte.0 bit.0 bit.1

bit_of-modify_elem :
    (i j : ℕ) (o : Option (List Bool)) (byte : List Bool)
    → o ≡ some byte
    → bit_of j o ≡ some true
    → bit_of j (some (modify_elem (λ bit. true) i byte)) ≡ some true
bit_of-modify_elem i j o byte e h =
    let here : get_elem? byte j ≡ some true = sym (ap (bit_of j) e) ∙ h in
    elim (Bool-cases (i == j)) [
      | inl same ↦
          subst (λ k. get_elem? (modify_elem (λ bit. true) i byte) k ≡ some true) (==→eq i j same)
            (get_elem?-modify_elem_self (λ bit. true) i byte true
              (subst (λ k. get_elem? byte k ≡ some true) (sym (==→eq i j same)) here))
      | inr other ↦
          get_elem?-modify_elem_ne (λ bit. true) i j byte (λ p. ground (arith, p, other)) ∙ here
    ]

-- A mark leaves the marks before it.
pub bit_at-mark :
    (p q : ℕ) (bloom : Bloom) → bit_at q bloom ≡ some true → bit_at q (mark p bloom) ≡ some true
unfolding mark bit_at
bit_at-mark p q bloom h = elim (Bool-cases (p / 8 == q / 8)) [
  | inr other ↦
      ap (bit_of (q % 8))
        (get_elem?-modify_elem_ne _ (p / 8) (q / 8) bloom (λ e. ground (arith, e, other)))
      ∙ h
  | inl same ↦ elim (Option-cases (get_elem? bloom (q / 8))) [
    | inl missing ↦ absurd (none_ (sym (ap (bit_of (q % 8)) missing) ∙ h))
    | inr (byte, e) ↦
        let at = ==→eq (p / 8) (q / 8) same in
        ap (bit_of (q % 8)) (
          subst
            (λ k.
              get_elem? (modify_elem (modify_elem (λ bit. true) (p % 8)) (p / 8) bloom) k
              ≡ some (modify_elem (λ bit. true) (p % 8) byte))
            at
            (get_elem?-modify_elem_self (modify_elem (λ bit. true) (p % 8)) (p / 8) bloom byte
              (subst (λ k. get_elem? bloom k ≡ some byte) (sym at) e)))
        ∙ bit_of-modify_elem (p % 8) (q % 8) _ byte e h
  ]
]
  where
    none_ : ¬ (none ≡ some true)
    none_ e = ground (arith, e)
