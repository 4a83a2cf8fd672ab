-- ===== src/Budget/Limit.antt =====
-- What the tracker promises over a run of operations.
use agentchains.Base.{◌≡◌, ◌↔◌, Bool, true, false, List, [], ◌∷◌, inl, inr, arith, Bool-cases, All}
use agentchains.Budget.Track.{Floats, BudgetTracker, exceeded, record_cost}

-- What Python documents of floats: `>=` is transitive, and adding what is not negative does not lower a
-- sum. Neither holds of nan.
pub record IsOrdered (fl : Floats) (IsCost : fl.Float → Type 0) : Type 0 where
  pub chained :
      (a b c : fl.Float) → fl.at_least a b ≡ true → fl.at_least b c ≡ true → fl.at_least a c ≡ true
  pub grows : (a x : fl.Float) → IsCost x → fl.at_least (fl.plus a x) a ≡ true

module _ (fl : Floats) where
  -- The costs added up in order.
  abbrev pub add_up : fl.Float → List fl.Float → fl.Float
  add_up t [] = t
  add_up t (x ∷ xs) = add_up (fl.plus t x) xs

  -- The costs of the operations in order; the first error ends the run.
  unfoldable pub spend : List fl.Float → BudgetTracker fl.Float → BudgetTracker fl.Float × Bool
  spend [] b = (b, true)
  spend (x ∷ xs) b =
      let rest = spend xs (record_cost fl x b).0 in
      elim (record_cost fl x b).1 [ exceeded ↦ ((record_cost fl x b).0, false) | _ ↦ rest ]

module _ (fl : Floats) (IsCost : fl.Float → Type 0) (ordered : IsOrdered fl IsCost) where
  -- Once the limit is reached, it stays so.
  reached :
      (xs : List fl.Float) (t limit : fl.Float)
      → All IsCost xs
      → fl.at_least t limit ≡ true
      → fl.at_least (add_up fl t xs) limit ≡ true
  reached [] t limit costs h = h
  reached (x ∷ xs) t limit (cost, costs) h =
      reached xs (fl.plus t x) limit costs
        (ordered.chained (fl.plus t x) t limit (ordered.grows t x cost) h)

  -- A run of at least one operation, of costs that are not negative, passes exactly when the float that they
  -- add up to, rounded after each of them, does not reach the hard limit.
  pub spend_iff :
      (x : fl.Float) (xs : List fl.Float) (b : BudgetTracker fl.Float)
      → All IsCost (x ∷ xs)
      → ((spend fl (x ∷ xs) b).1 ≡ true)
        ↔ (fl.at_least (add_up fl b.total_cost (x ∷ xs)) b.cost_budget.hard_limit ≡ false)
  unfolding spend record_cost
  spend_iff x [] b (cost, costs) = ground arith
  spend_iff x (y ∷ ys) b (cost, costs) =
      elim (Bool-cases (fl.at_least (fl.plus b.total_cost x) b.cost_budget.hard_limit)) [
        | inr below ↦ ground (arith, below, spend_iff y ys (record_cost fl x b).0 costs)
        | inl over ↦ ground (
          arith,
          over,
          reached (y ∷ ys) (fl.plus b.total_cost x) b.cost_budget.hard_limit costs over,
        )
      ]
