-- ===== src/Base/Counts.antt =====
-- How often a number stands in a list; membership without repetition, as arithmetic.
use Prim.Native.Nat.{ℕ, suc, ◌+◌, ◌≤◌}
use mathlib.Core.Path.{◌≡◌}
use mathlib.Core.Logic.{inl, inr}
use mathlib.Core.List.{List, [], ◌∷◌, ◌++◌}
use native.Mathlib.Omega.{arith}
use agentchains.Base.Tests.{ltb, ◌==◌, if◌then◌else◌, Bool-cases}
use agentchains.Base.Lists.{length}

abbrev pub count : ℕ → List ℕ → ℕ
count v [] = 0
count v (x ∷ xs) = let rest = count v xs in if v == x then suc rest else rest

pub count-append : (v : ℕ) (xs ys : List ℕ) → count v (xs ++ ys) ≡ count v xs + count v ys
count-append v [] ys = omega arith
count-append v (x ∷ xs) ys = ground (arith, count-append v xs ys)

-- The list without the first occurrence.
remove : ℕ → List ℕ → List ℕ
remove v [] = []
remove v (x ∷ xs) = let rest = remove v xs in if v == x then xs else x ∷ rest

count-remove :
    (v w : ℕ) (xs : List ℕ)
    → 1 ≤ count w xs
    → count v (remove w xs) + (if v == w then 1 else 0) ≡ count v xs
unfolding remove
count-remove v w [] h = absurd (omega (arith, h))
count-remove v w (x ∷ xs) h = ground (arith, count-remove v w xs)

length-remove : (w : ℕ) (xs : List ℕ) → 1 ≤ count w xs → suc (length (remove w xs)) ≡ length xs
unfolding remove
length-remove w [] h = absurd (omega (arith, h))
length-remove w (x ∷ xs) h = ground (arith, length-remove w xs)

-- A list whose every member another has as often is no longer than it.
pub length-le_of_count :
    (xs ys : List ℕ) → ((v : ℕ) → count v xs ≤ count v ys) → length xs ≤ length ys
length-le_of_count [] ys h = omega arith
length-le_of_count (x ∷ xs) ys h =
    let there : 1 ≤ count x ys = ground (arith, h x) in
    let rest =
      length-le_of_count xs (remove x ys) (λ v. ground (arith, h v, h x, count-remove v x ys)) in
    omega (arith, rest, length-remove x ys there)

-- If it is as long, it has every member of the other.
pub count-le_of_length :
    (xs ys : List ℕ)
    → ((v : ℕ) → count v xs ≤ count v ys)
    → length ys ≤ length xs
    → (v : ℕ) → count v ys ≤ count v xs
count-le_of_length xs ys h long v = elim (Bool-cases (ltb (count v xs) (count v ys))) [
  | inl more ↦
      let short = length-le_of_count (v ∷ xs) ys (λ w. ground (arith, h w, more)) in
      absurd (omega (arith, short, long))
  | inr fine ↦ ground (arith, fine)
]
