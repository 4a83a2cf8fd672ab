-- ===== src/Redemption/Value.antt =====
-- Where the money of a redemption is: in the creator's balance, or held by a request that is neither paid
-- out nor rejected.
use mathlib.Core.Path.{subst}
use agentchains.Base.{
  ℕ, ◌≡◌, ◌≢◌, ◌==◌, sym, ap, ◌∙◌, and_left, refl, Bool, true, some, ◌∷◌, inl, inr, ◌==?◌,
  Bool-cases, ok, Ensures, or_raise_bind, raise_if_bind, ◌>>=◌, pure,
}
use agentchains.Ledger.Decimal.{Decimal, micros}
use agentchains.Redemption.Amount.{less, minus-micros}
use agentchains.Base.Int.{ℤ, pos, ◌+ℤ◌, ◌-ℤ◌, int_laws}
use agentchains.Base.Table.{
  find, find_key, find_key-update_self, find_key-update_ne, find_key_of_find-distinct, distinct,
  distinct-update, update, scalar_bind, sum_by,
}
use agentchains.Ledger.Model.{TokenAccount, accounts_hold, constraints_hold}
use agentchains.Ledger.Sums.{account_id, total, Shifts, Exists, total-Shifts, find_key_of_find}
use agentchains.Redemption.Store.{
  RedemptionType, Status, RedemptionRequest, Store, Fresh, commit, store_holds, multiple_results,
  invalid_type, below_minimum, no_token_account, insufficient_balance, pending, processing,
}
use agentchains.Redemption.Service.{hold, refund, hold_entry, new_redemption, min_threshold}
use agentchains.Redemption.Requests.{hold_redemption}

-- What a request holds: its amount, while it is pending or processing.
abbrev pub held_by : Status → ℤ → ℤ
held_by pending amount = amount
held_by processing amount = amount
held_by _ amount = pos 0

abbrev pub held : RedemptionRequest → ℤ
held r = held_by r.status r.amount_usd

-- All balances and all that is held.
unfoldable pub value : Store → ℤ
value s = total s.db.accounts +ℤ sum_by held s.redemptions

-- A column of six places stores an amount of six places as it is.
abbrev pub KeepsSix : Fresh → Type 0
KeepsSix fresh = (n : ℤ) → fresh.column (micros n) ≡ n

hold-Shifts :
    (fresh : Fresh) (amount : ℤ)
    → KeepsSix fresh
    → Shifts (hold fresh (micros amount)) (pos 0 -ℤ amount)
hold-Shifts fresh amount kept = record {
  moved = λ a.
      ap fresh.column (minus-micros a.balance amount) ∙ kept (a.balance -ℤ amount) ∙ omega int_laws;
  same_id = λ a. refl;
}

pub refund-Shifts : (amount : ℤ) (now : ℕ) → Shifts (refund amount now) amount
refund-Shifts amount now = record { moved = λ a. refl; same_id = λ a. refl }

-- A call that ends with a commit: what holds of the committed state, whose constraints hold.
pub commit_ends :
    {A : Type 0} (R : A → Store → Type 0) (a : A) (s : Store)
    → (store_holds s ≡ true → R a s)
    → Ensures R ((commit >>= λ _. pure a) s)
unfolding commit
commit_ends R a s k = elim (Bool-cases (store_holds s)) [
  | inl e ↦ rw (e, Ensures, ◌>>=◌) (k e)
  | inr e ↦ rw (e, Ensures, ◌>>=◌) tt
]

-- The account of a creator.
abbrev pub is_creators : ℕ → TokenAccount → Bool
is_creators c a = a.creator_id ==? some c

-- The creator's account gains the amount, and no other account changes.
pub record Gains (creator : ℕ) (amount : ℤ) (s s' : Store) : Type 0 where
  pub account : TokenAccount
  pub after : TokenAccount
  pub owned : find (is_creators creator) s.db.accounts ≡ some account
  pub own : find_key account_id account.id s'.db.accounts ≡ some after
  pub balance : after.balance ≡ account.balance +ℤ amount
  pub others :
      (k : ℕ)
      → k ≢ account.id
      → find_key account_id k s'.db.accounts ≡ find_key account_id k s.db.accounts

pub update-Gains :
    (creator : ℕ) (amount : ℤ) (f : TokenAccount → TokenAccount) (a : TokenAccount) (s s' : Store)
    → Shifts f amount
    → find (is_creators creator) s.db.accounts ≡ some a
    → s'.db.accounts ≡ update account_id a.id f s.db.accounts
    → store_holds s' ≡ true
    → Gains creator amount s s'
update-Gains creator amount f a s s' shifts found changed holds = record {
  account = a;
  after = f a;
  owned = found;
  own =
      ap (find_key account_id a.id) changed
      ∙ find_key-update_self account_id 0 a.id f shifts.same_id s.db.accounts a
          (find_key_of_find-distinct account_id (is_creators creator) s.db.accounts a ids found);
  balance = shifts.moved a;
  others = λ k ne.
      ap (find_key account_id k) changed
      ∙ find_key-update_ne account_id k a.id f shifts.same_id s.db.accounts ne;
}
  where
    ids : distinct (λ (x y : TokenAccount). x.id == y.id) s.db.accounts ≡ true
    ids =
        sym (
          distinct-update account_id a.id f (λ (x y : TokenAccount). x.id == y.id)
            (λ x y. ap (λ i. i == y.id) (shifts.same_id x))
            (λ x y. ap (λ i. y.id == i) (shifts.same_id x)) s.db.accounts)
        ∙ ap (distinct (λ (x y : TokenAccount). x.id == y.id)) (sym changed)
        ∙ and_left _ _
            (and_left (accounts_hold s'.db.accounts) _ (and_left (constraints_hold s'.db) _ holds))

-- The store when `hold_redemption` commits.
after_hold : Fresh → ℕ → RedemptionType → Decimal → TokenAccount → Store → Store
after_hold fresh creator kind amount account s = record s {
  db = record s.db {
    accounts = update account_id account.id (hold fresh amount) s.db.accounts;
    ledger = hold_entry fresh account amount ∷ s.db.ledger;
  };
  redemptions = new_redemption fresh creator kind amount ∷ s.redemptions;
}

after_hold-value :
    (fresh : Fresh) (creator : ℕ) (kind : RedemptionType) (amount : ℤ) (account : TokenAccount)
    (s : Store)
    → KeepsSix fresh
    → Exists account.id s.db.accounts
    → value (after_hold fresh creator kind (micros amount) account s) ≡ value s
unfolding value after_hold sum_by
after_hold-value fresh creator kind amount account s kept there =
    rw (total-Shifts (hold-Shifts fresh amount kept) account.id s.db.accounts there, kept amount)
      (omega int_laws)

-- The amount has gone from the creator's balance into the hold of a new request.
abbrev pub IsHeld : ℕ → ℤ → Store → RedemptionRequest → Store → Type 0
IsHeld creator amount s r s' =
    (value s' ≡ value s)
    × Gains creator (pos 0 -ℤ amount) s s'
    × (s'.redemptions ≡ r ∷ s.redemptions)
    × (held r ≡ amount)
    × (r.creator_id ≡ creator)

hold_redemption-IsHeld :
    (fresh : Fresh) (creator : ℕ) (kind : RedemptionType) (amount : ℤ) (s : Store)
    → KeepsSix fresh
    → Ensures (IsHeld creator amount s) (hold_redemption fresh creator kind (micros amount) s)
unfolding hold_redemption after_hold
hold_redemption-IsHeld fresh creator kind amount s kept =
    or_raise_bind C _ s (min_threshold kind) invalid_type λ minimum em.
      raise_if_bind C _ s (less (micros amount) (micros minimum)) below_minimum λ enough.
        scalar_bind C _ s multiple_results (λ t. t.db.accounts) (is_creators creator)
          λ row found lost. or_raise_bind C _ s row no_token_account λ account ea.
            raise_if_bind C _ s (less (micros account.balance) (micros amount)) insufficient_balance
              λ funded.
                commit_ends C (new_redemption fresh creator kind (micros amount))
                  (after_hold fresh creator kind (micros amount) account s)
                  λ holds. (
                    after_hold-value fresh creator kind amount account s kept (
                        find_key_of_find (is_creators creator) s.db.accounts account
                          (found account ea)),
                    update-Gains creator (pos 0 -ℤ amount) (hold fresh (micros amount)) account s _
                        (hold-Shifts fresh amount kept) (found account ea) refl holds,
                    refl,
                    kept amount,
                    refl,
                  )
  where
    C : RedemptionRequest → Store → Type 0
    C = IsHeld creator amount s

-- A request for a Decimal of six places that is created takes that amount from the creator's balance and
-- from no other account, and holds it in a new request of the creator; balances and holds together stay the
-- same. A column of six places stores such a Decimal as it is.
pub hold_redemption_conserves :
    (fresh : Fresh) (creator : ℕ) (kind : RedemptionType) (amount : ℤ) (s s' : Store)
    (r : RedemptionRequest)
    → KeepsSix fresh
    → hold_redemption fresh creator kind (micros amount) s ≡ ok (r, s')
    → IsHeld creator amount s r s'
hold_redemption_conserves fresh creator kind amount s s' r kept h =
    subst (Ensures (IsHeld creator amount s)) h
      (hold_redemption-IsHeld fresh creator kind amount s kept)
