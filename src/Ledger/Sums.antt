-- ===== src/Ledger/Sums.antt =====
-- The sum of all balances, and how a change of one account moves it.
use agentchains.Base.{ℕ, ◌≡◌, Bool, true, some, List, [], ◌∷◌, inl, inr, arith, ◌==◌, Bool-cases}
use agentchains.Base.Int.{ℤ, pos, ◌+ℤ◌, int_laws}
use agentchains.Base.Table.{find, find_key, update}
use agentchains.Ledger.Model.{TokenAccount}

abbrev pub account_id : TokenAccount → ℕ
account_id a = a.id

unfoldable pub total : List TokenAccount → ℤ
total [] = pos 0
total (a ∷ rows) = a.balance +ℤ total rows

-- A change by `d` of the balance of an account that exists moves the sum by `d`.
pub total-update :
    (k : ℕ) (f : TokenAccount → TokenAccount) (d : ℤ)
    → ((a : TokenAccount) → (f a).balance ≡ a.balance +ℤ d)
    → (rows : List TokenAccount) (a : TokenAccount) → find_key account_id k rows ≡ some a
    → total (update account_id k f rows) ≡ total rows +ℤ d
unfolding total
total-update k f d shift [] a h = cc
total-update k f d shift (x ∷ rows) a h = elim (Bool-cases (x.id == k)) [
  | inl e ↦ rw (e, shift x) (omega int_laws)
  | inr e ↦ rw (e, total-update k f d shift rows a (rw e at h)) (omega int_laws)
]

-- A row that some query finds is there under its id.
pub find_key_of_find :
    (p : TokenAccount → Bool) (rows : List TokenAccount) (a : TokenAccount)
    → find p rows ≡ some a
    → (b : TokenAccount) × (find_key account_id a.id rows ≡ some b)
find_key_of_find p [] a h = cc
find_key_of_find p (x ∷ rows) a h = elim (Bool-cases (x.id == a.id)) [
  | inl e ↦ (x, rw e)
  | inr e ↦ elim (Bool-cases (p x)) [
    | inl t ↦ absurd (cc (e, same_id t))
    | inr t ↦ (let rest = find_key_of_find p rows a (rw t at h) in (rest.0, rw e rest.1))
  ]
]
  where
    same_id : p x ≡ true → (x.id == a.id) ≡ true
    same_id t = ground arith

-- A change of one row takes no row away.
pub find_key-update-some :
    (j k : ℕ) (f : TokenAccount → TokenAccount)
    → ((a : TokenAccount) → (f a).id ≡ a.id)
    → (rows : List TokenAccount) (a : TokenAccount) → find_key account_id j rows ≡ some a
    → (b : TokenAccount) × (find_key account_id j (update account_id k f rows) ≡ some b)
find_key-update-some j k f same [] a h = cc
find_key-update-some j k f same (x ∷ rows) a h = elim (Bool-cases (x.id == k)) [
  | inl e ↦ elim (Bool-cases (x.id == j)) [
    | inl t ↦ (f x, rw (e, same x, t))
    | inr t ↦ (a, rw (e, same x, t) (rw t at h))
  ]
  | inr e ↦ elim (Bool-cases (x.id == j)) [
    | inl t ↦ (x, rw (e, t))
    | inr t ↦
        (let rest = find_key-update-some j k f same rows a (rw t at h) in
          (rest.0, rw (e, t) rest.1))
  ]
]

abbrev pub Exists : ℕ → List TokenAccount → Type 0
Exists k rows = (b : TokenAccount) × (find_key account_id k rows ≡ some b)

-- A change of a row that moves its balance by `d` and keeps its id.
pub record Shifts (f : TokenAccount → TokenAccount) (d : ℤ) : Type 0 where
  pub moved : (a : TokenAccount) → (f a).balance ≡ a.balance +ℤ d
  pub same_id : (a : TokenAccount) → (f a).id ≡ a.id

module _ {f : TokenAccount → TokenAccount} {d : ℤ} (s : Shifts f d) (k : ℕ) where
  pub total-Shifts :
      (rows : List TokenAccount)
      → Exists k rows
      → total (update account_id k f rows) ≡ total rows +ℤ d
  total-Shifts rows e = total-update k f d s.moved rows e.0 e.1

  pub Exists-Shifts :
      (j : ℕ) (rows : List TokenAccount) → Exists j rows → Exists j (update account_id k f rows)
  Exists-Shifts j rows e = find_key-update-some j k f s.same_id rows e.0 e.1

-- Two changes in turn, possibly of one account.
module _ {f g : TokenAccount → TokenAccount} {d e : ℤ} (s : Shifts f d) (t : Shifts g e) (j k : ℕ)
    (rows : List TokenAccount) (hj : Exists j rows) (hk : Exists k rows) where
  pub total-two : total (update account_id k g (update account_id j f rows)) ≡ total rows +ℤ d +ℤ e
  total-two = rw (total-Shifts t k _ (Exists-Shifts s j k rows hk)) (rw (total-Shifts s j rows hj))

  pub Exists-two :
      (i : ℕ) → Exists i rows → Exists i (update account_id k g (update account_id j f rows))
  Exists-two i hi = Exists-Shifts t k i _ (Exists-Shifts s j i rows hi)
