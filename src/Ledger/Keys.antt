-- ===== src/Ledger/Keys.antt =====
-- Entries of the ledger by their idempotency key: of distinct keys one entry has the given one.
use agentchains.Base.{
  ℕ, ◌≡◌, refl, sym, ap, ◌∙◌, Bool, true, false, not, Option, none, some, List, [], ◌∷◌, ◌⊎◌, inl,
  inr, arith, ◌==◌, Bool-cases, and_left, and_right, ==_self, select,
}
use agentchains.Base.Table.{taken, distinct}
use agentchains.Ledger.Model.{TokenLedger, Key, key_eq, same_key}
use agentchains.Ledger.Transfer.{has_key}

abbrev pub Among : TokenLedger → List TokenLedger → Type 0
Among e [] = ⊥
Among e (x ∷ rows) = (x ≡ e) ⊎ Among e rows

pub key_eq_self : (k : Key) → key_eq k k ≡ true
key_eq_self (Key.purchase a) = ==_self a
key_eq_self (Key.deposit a) = ==_self a
key_eq_self (Key.royalty a) = ==_self a
key_eq_self (Key.custom a) = ==_self a

==_comm : (a b : ℕ) → (a == b) ≡ (b == a)
==_comm a b = ground arith

key_eq_comm : (a b : Key) → key_eq a b ≡ key_eq b a
key_eq_comm (Key.purchase a) (Key.purchase b) = ==_comm a b
key_eq_comm (Key.purchase a) (Key.deposit b) = refl
key_eq_comm (Key.purchase a) (Key.royalty b) = refl
key_eq_comm (Key.purchase a) (Key.custom b) = refl
key_eq_comm (Key.deposit a) (Key.purchase b) = refl
key_eq_comm (Key.deposit a) (Key.deposit b) = ==_comm a b
key_eq_comm (Key.deposit a) (Key.royalty b) = refl
key_eq_comm (Key.deposit a) (Key.custom b) = refl
key_eq_comm (Key.royalty a) (Key.purchase b) = refl
key_eq_comm (Key.royalty a) (Key.deposit b) = refl
key_eq_comm (Key.royalty a) (Key.royalty b) = ==_comm a b
key_eq_comm (Key.royalty a) (Key.custom b) = refl
key_eq_comm (Key.custom a) (Key.purchase b) = refl
key_eq_comm (Key.custom a) (Key.deposit b) = refl
key_eq_comm (Key.custom a) (Key.royalty b) = refl
key_eq_comm (Key.custom a) (Key.custom b) = ==_comm a b

not_elim : (b : Bool) → not b ≡ true → b ≡ false
not_elim true h = sym h
not_elim false h = refl

same_key-has_key :
    (k : Key) (x y : TokenLedger) → x.idempotency_key ≡ some k → same_key x y ≡ has_key k y
same_key-has_key k x y h = rw h (compared y.idempotency_key)
  where
    compared :
        (o : Option Key)
        → elim o as (λ _. Bool) [ none ↦ false | some j ↦ key_eq k j ]
          ≡ elim o as (λ _. Bool) [ none ↦ false | some j ↦ key_eq j k ]
    compared none = refl
    compared (some j) = key_eq_comm k j

select_none :
    (k : Key) (x : TokenLedger) (rows : List TokenLedger)
    → x.idempotency_key ≡ some k
    → taken same_key x rows ≡ false
    → select (has_key k) rows ≡ []
select_none k x [] h free = refl
select_none k x (y ∷ rows) h free =
    let here = same_key-has_key k x y h in
    elim (Bool-cases (same_key x y)) [
      | inl e ↦ absurd (ground (arith, e, free))
      | inr e ↦ rw (sym here ∙ e) (select_none k x rows h (ground (arith, e, free)))
    ]

against :
    (k : Key) (o p : Option Key)
    → p ≡ some k
    → elim o as (λ _. Bool) [
      | none ↦ false
      | some j ↦ elim p as (λ _. Bool) [ none ↦ false | some i ↦ key_eq j i ]
    ]
      ≡ elim o as (λ _. Bool) [ none ↦ false | some j ↦ key_eq j k ]
against k none p e = refl
against k (some j) p e = rw e refl

pub taken_of_Among :
    (k : Key) (e x : TokenLedger) (rows : List TokenLedger)
    → e.idempotency_key ≡ some k
    → has_key k x ≡ true
    → Among e rows
    → taken same_key x rows ≡ true
taken_of_Among k e x [] h hx a = absurd a
taken_of_Among k e x (y ∷ rows) h hx (inl same) =
    let named : y.idempotency_key ≡ some k = ap (λ (z : TokenLedger). z.idempotency_key) same ∙ h in
    let alike : same_key x y ≡ has_key k x = against k x.idempotency_key y.idempotency_key named in
    rw (alike ∙ hx) refl
taken_of_Among k e x (y ∷ rows) h hx (inr a) =
    let later = taken_of_Among k e x rows h hx a in ground (arith, later)

-- Of distinct keys one entry has the given one.
pub select_one :
    (k : Key) (e : TokenLedger) (rows : List TokenLedger)
    → e.idempotency_key ≡ some k
    → distinct same_key rows ≡ true
    → Among e rows
    → select (has_key k) rows ≡ e ∷ []
select_one k e [] h d a = absurd a
select_one k e (x ∷ rows) h d (inl same) =
    let named : x.idempotency_key ≡ some k = ap (λ (y : TokenLedger). y.idempotency_key) same ∙ h in
    let held : has_key k x ≡ true = rw named (key_eq_self k) in
    rw held (
      ap (λ r. x ∷ r) (select_none k x rows named (not_elim _ (and_left _ _ d)))
      ∙ ap (λ y. y ∷ []) same)
select_one k e (x ∷ rows) h d (inr a) = elim (Bool-cases (has_key k x)) [
  | inl hx ↦ absurd (ground (arith, d, taken_of_Among k e x rows h hx a))
  | inr other ↦ rw other (select_one k e rows h (and_right _ _ d) a)
]
