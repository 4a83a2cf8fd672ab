-- ===== src/Base/Table.antt =====
-- A database table as a list of rows: queries that expect one row, and updates by primary key.
use agentchains.Base.Tests.{◌==◌, if◌then◌else◌, Bool-cases}
use agentchains.Base.Lists.{select, All}
use agentchains.Base.Results.{Result, ok, err, Action, reads, ◌>>=◌, Ensures, reads_bind}
use agentchains.Base.Int.{ℤ, pos, pos_part, neg_part, ◌+ℤ◌, int_laws}
use Prim.Native.Nat.{ℕ}
use mathlib.Core.Path.{◌≡◌, refl, subst, ap, ◌∙◌}
use mathlib.Core.Logic.{◌≢◌, inl, inr}
use mathlib.Core.Bool.{Bool, true, false, not, ◌&&◌, ◌||◌}
use mathlib.Core.Option.{Option, none, some}
use mathlib.Core.List.{List, [], ◌∷◌}
use native.Mathlib.Omega.{arith}

-- SQLAlchemy's `scalar_one_or_none`: more than one row raises the given error.
abbrev pub scalar_one_or_none : {E A : Type 0} → E → List A → Result E (Option A)
scalar_one_or_none e [] = ok none
scalar_one_or_none e (a ∷ []) = ok (some a)
scalar_one_or_none e (a ∷ b ∷ rest) = err e

module _ {A : Type 0} where
  abbrev pub find : (A → Bool) → List A → Option A
  find p [] = none
  find p (x ∷ xs) = let rest = find p xs in if p x then some x else rest

  -- A query that returns one row returns the first row that fits.
  pub find_of_scalar :
      {E : Type 0} (e : E) (p : A → Bool) (xs : List A) (a : A)
      → scalar_one_or_none e (select p xs) ≡ ok (some a)
      → find p xs ≡ some a
  find_of_scalar e p [] a h = ground arith
  find_of_scalar e p (x ∷ xs) a h = ground (arith, find_of_scalar e p xs a)

  pub find-none_of_scalar :
      {E : Type 0} (e : E) (p : A → Bool) (xs : List A)
      → scalar_one_or_none e (select p xs) ≡ ok none
      → find p xs ≡ none
  find-none_of_scalar e p [] h = ground arith
  find-none_of_scalar e p (x ∷ xs) h = ground (arith, find-none_of_scalar e p xs)

  -- The row that a query finds passes its test.
  pub find_holds : (p : A → Bool) (xs : List A) (a : A) → find p xs ≡ some a → p a ≡ true
  find_holds p [] a h = cc
  find_holds p (x ∷ xs) a h = ground (arith, find_holds p xs a)

  pub All-find :
      (P : A → Type 0) (p : A → Bool) (xs : List A) (a : A) → All P xs → find p xs ≡ some a → P a
  All-find P p [] a hs h = cc
  All-find P p (x ∷ xs) a hs h = elim (Bool-cases (p x)) [
    | inl e ↦ let same : x ≡ a = ground arith in subst P same hs.0
    | inr e ↦ All-find P p xs a hs.1 (rw e at h)
  ]

-- A unique constraint: no two rows are the same in a column that has a value.
module _ {A : Type 0} (same : A → A → Bool) where
  abbrev pub taken : A → List A → Bool
  taken x [] = false
  taken x (y ∷ ys) = same x y || taken x ys

  abbrev pub distinct : List A → Bool
  distinct [] = true
  distinct (x ∷ xs) = not (taken x xs) && distinct xs

-- Rows with a numeric primary key.
module _ {A : Type 0} (key : A → ℕ) where
  abbrev pub find_key : ℕ → List A → Option A
  find_key k = find (λ x. key x == k)

  -- `UPDATE ... WHERE key = k`, or the mutation of the one object that stands for the row.
  abbrev pub update : ℕ → (A → A) → List A → List A
  update k f [] = []
  update k f (x ∷ xs) = if key x == k then f x ∷ xs else x ∷ update k f xs

  pub All-update :
      (P : A → Type 0) (k : ℕ) (f : A → A) (xs : List A)
      → ((x : A) → find_key k xs ≡ some x → P x → P (f x))
      → All P xs
      → All P (update k f xs)
  All-update P k f [] keep hs = tt
  All-update P k f (x ∷ xs) keep hs = elim (Bool-cases (key x == k)) [
    | inl e ↦ rw e (keep x (rw e refl) hs.0, hs.1)
    | inr e ↦ rw e (hs.0, All-update P k f xs (λ y hy. keep y (rw e hy)) hs.1)
  ]

-- An update that leaves a constraint's columns alone keeps the constraint.
module _ {A : Type 0} (key : A → ℕ) (k : ℕ) (f : A → A) (same : A → A → Bool) where
  taken-update :
      ((x y : A) → same y (f x) ≡ same y x)
      → (y : A) (xs : List A) → taken same y (update key k f xs) ≡ taken same y xs
  taken-update right y [] = refl
  taken-update right y (x ∷ xs) = elim (Bool-cases (key x == k)) [
    | inl e ↦ rw (e, right x y)
    | inr e ↦ rw (e, taken-update right y xs)
  ]

  pub distinct-update :
      ((x y : A) → same (f x) y ≡ same x y)
      → ((x y : A) → same y (f x) ≡ same y x)
      → (xs : List A) → distinct same (update key k f xs) ≡ distinct same xs
  distinct-update left right [] = refl
  distinct-update left right (x ∷ xs) = elim (Bool-cases (key x == k)) [
    | inl e ↦ rw e (ground (arith, taken_left xs))
    | inr e ↦ rw (e, taken-update right x xs, distinct-update left right xs)
  ]
    where
      taken_left : (ys : List A) → taken same (f x) ys ≡ taken same x ys
      taken_left [] = refl
      taken_left (y ∷ ys) = rw (left x y, taken_left ys)

module _ {A : Type 0} (key : A → ℕ) (j k : ℕ) (f : A → A) where
  pub find_key-update_self :
      ((x : A) → key (f x) ≡ key x)
      → (xs : List A) (a : A) → find_key key k xs ≡ some a
      → find_key key k (update key k f xs) ≡ some (f a)
  find_key-update_self same [] a h = cc
  find_key-update_self same (x ∷ xs) a h = ground (arith, same x, find_key-update_self same xs a)

  pub find_key-update_ne :
      ((x : A) → key (f x) ≡ key x)
      → (xs : List A) → j ≢ k
      → find_key key j (update key k f xs) ≡ find_key key j xs
  find_key-update_ne same [] ne = refl
  find_key-update_ne same (x ∷ xs) ne = ground (arith, same x, find_key-update_ne same xs)

-- A unique column: the query for a value finds one row or none, and a row whose value no row has is free.
module _ {A : Type 0} (key : A → ℕ) (k : ℕ) where
  select_of_taken :
      (x : A) (xs : List A)
      → (key x == k) ≡ true
      → taken (λ y z. key y == key z) x xs ≡ false
      → select (λ y. key y == k) xs ≡ []
  select_of_taken x [] e h = refl
  select_of_taken x (y ∷ xs) e h = ground (arith, select_of_taken x xs)

  pub scalar-find_key :
      {E : Type 0} (e : E) (xs : List A)
      → distinct (λ y z. key y == key z) xs ≡ true
      → scalar_one_or_none e (select (λ x. key x == k) xs) ≡ ok (find_key key k xs)
  scalar-find_key e [] h = refl
  scalar-find_key e (x ∷ xs) h = elim (Bool-cases (key x == k)) [
    | inl q ↦ rw (q, select_of_taken x xs q (ground (arith, h))) refl
    | inr q ↦ rw (q, scalar-find_key e xs (ground (arith, h))) refl
  ]

  pub taken_of_none :
      (x : A) (xs : List A)
      → key x ≡ k
      → find_key key k xs ≡ none
      → taken (λ y z. key y == key z) x xs ≡ false
  taken_of_none x [] same h = refl
  taken_of_none x (y ∷ xs) same h = ground (arith, same, taken_of_none x xs)

-- A query for one row inside a `do` block hands on a row that the table holds, or tells that none is.
pub scalar_bind :
    {E S A B : Type 0} (R : B → S → Type 0) (f : Option A → Action E S B) (s : S) (e : E)
    (table : S → List A) (p : A → Bool)
    → ((o : Option A)
        → ((a : A) → o ≡ some a → find p (table s) ≡ some a)
        → (o ≡ none → find p (table s) ≡ none)
        → Ensures R (f o s))
    → Ensures R ((reads (λ t. scalar_one_or_none e (select p (table t))) >>= f) s)
scalar_bind R f s e table p k =
    reads_bind R f s (λ t. scalar_one_or_none e (select p (table t)))
      λ o q.
        k o (λ a found. find_of_scalar e p (table s) a (q ∙ ap ok found))
          (λ lost. find-none_of_scalar e p (table s) (q ∙ ap ok lost))

-- Where the primary key is unique, a row that some query finds is the row of its key.
module _ {A : Type 0} (key : A → ℕ) (p : A → Bool) where
  taken-find :
      (x : A) (xs : List A) (a : A)
      → find p xs ≡ some a
      → taken (λ y z. key y == key z) x xs ≡ false
      → (key x == key a) ≡ false
  taken-find x [] a h t = cc
  taken-find x (y ∷ ys) a h t = ground (arith, taken-find x ys a)

  pub find_key_of_find-distinct :
      (xs : List A) (a : A)
      → distinct (λ y z. key y == key z) xs ≡ true
      → find p xs ≡ some a
      → find_key key (key a) xs ≡ some a
  find_key_of_find-distinct [] a d h = cc
  find_key_of_find-distinct (x ∷ xs) a d h =
      ground (arith, taken-find x xs a, find_key_of_find-distinct xs a)

add_left : (x u a v b : ℤ) → u +ℤ a ≡ v +ℤ b → x +ℤ u +ℤ a ≡ x +ℤ v +ℤ b
add_left x u a v b h = omega (int_laws, ap pos_part h, ap neg_part h)

-- The sum of a column.
module _ {A : Type 0} (w : A → ℤ) where
  unfoldable pub sum_by : List A → ℤ
  sum_by [] = pos 0
  sum_by (x ∷ xs) = w x +ℤ sum_by xs

  pub sum_by-update :
      (key : A → ℕ) (k : ℕ) (f : A → A) (xs : List A) (a : A)
      → find_key key k xs ≡ some a
      → sum_by (update key k f xs) +ℤ w a ≡ sum_by xs +ℤ w (f a)
  unfolding sum_by
  sum_by-update key k f [] a h = cc
  sum_by-update key k f (x ∷ xs) a h = elim (Bool-cases (key x == k)) [
    | inl e ↦ let same : x ≡ a = ground arith in rw e (rw same (omega int_laws))
    | inr e ↦ rw e (add_left (w x) _ (w a) _ (w (f a)) (sum_by-update key k f xs a (rw e at h)))
  ]
