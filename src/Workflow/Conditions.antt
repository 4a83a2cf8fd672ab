-- ===== src/Workflow/Conditions.antt =====
-- The replies of nodes that test a condition: `_execute_condition` of
-- marketplace/services/orchestration_service.py.
use agentchains.Base.{
  ℕ, Bool, true, false, Text, Option, none, some, List, [], ◌∷◌, Result, ok, err, ◌==◌,
  if◌then◌else◌,
}
use agentchains.Proof.Schema.{Json, Fields}
use agentchains.Workflow.Key
use agentchains.Workflow.Calls.{Raised, raised, Python, get_or}

pub data Operator : Type 0 where
  eq neq gt lt gte lte in_ contains other : Operator

pub record Condition : Type 0 where
  pub field : Text
  pub operator : Operator
  pub value : Json
  pub then_branch : Json
  pub else_branch : Json

abbrev extend : ℕ → List Text → List Text
extend c [] = (c ∷ []) ∷ []
extend c (part ∷ ps) = (c ∷ part) ∷ ps

-- `field_path.split(".")`
abbrev pub split_dots : Text → List Text
split_dots [] = [] ∷ []
split_dots (c ∷ t) = let rest = split_dots t in if c == 46 then [] ∷ rest else extend c rest

-- The value at the path, null where it ends early.
abbrev pub resolve_path : List Text → Json → Json
resolve_path [] j = j
resolve_path (key ∷ keys) (Json.object fs) = resolve_path keys (get_or Json.null key fs)
resolve_path (key ∷ keys) _ = Json.null

abbrev pub is_null : Json → Bool
is_null Json.null = true
is_null _ = false

abbrev pub unless_null : Json → Json → Option Bool → Option Bool
unless_null a b test = if is_null a then some false else if is_null b then some false else test

abbrev pub negated : Bool → Bool
negated true = false
negated false = true

abbrev pub evaluate : Python → Operator → Json → Json → Option Bool
evaluate py Operator.neq a b = some (negated (py.equal a b))
evaluate py Operator.gt a b = unless_null a b (py.less b a)
evaluate py Operator.lt a b = unless_null a b (py.less a b)
evaluate py Operator.gte a b = unless_null a b (py.at_most b a)
evaluate py Operator.lte a b = unless_null a b (py.at_most a b)
evaluate py Operator.in_ a b = if is_null b then some false else py.member a b
evaluate py Operator.contains a b = if is_null a then some false else py.member b a
evaluate py _ a b = some (py.equal a b)

unfoldable pub execute_condition : Python → Condition → Json → Result Raised Json
execute_condition py c input =
    elim (evaluate py c.operator (resolve_path (split_dots c.field) input) c.value) [
      | none ↦ err raised
      | some met ↦ ok (
          Json.object (
            Fields.field Key.condition_met (Json.boolean met) (
              Fields.field Key.field (Json.string c.field) (
                Fields.field Key.actual_value (resolve_path (split_dots c.field) input) (
                  Fields.field Key.selected_branch (if met then c.then_branch else c.else_branch)
                    Fields.end)))))
    ]
