-- ===== src/Workflow/Unnoticed.antt =====
-- What becomes of an execution whose agents cannot be reached, or ask for more than its budget in a loop.
use agentchains.Base.{ℕ, ◌≡◌, Bool, true, false, List, [], ◌∷◌}
use agentchains.Budget.Track.{Floats}
use agentchains.Workflow.Graph.{Graph, Layer}
use agentchains.Workflow.Execution.{NodeType, agent_call, loop, Answer, NodeRow, costs}
use agentchains.Workflow.Calls.{Python, Response}
use agentchains.Workflow.Branches.{Amounts, Config, Surroundings, type_of, answer_of}
use agentchains.Workflow.Ran.{spent}
use agentchains.Workflow.Liveness.{Answers, rows_of, asks_approval}

-- The agent refused the request, or could not be reached.
abbrev pub is_lost : Response → Bool
is_lost Response.http_error = true
is_lost Response.request_error = true
is_lost _ = false

-- A call of an agent that is lost, or a loop, whatever its calls are answered.
abbrev pub is_lost_or_loop : {F : Type 0} → Config → Surroundings F → Bool
is_lost_or_loop (Config.agent_call c) w = is_lost (w.responses 0)
is_lost_or_loop (Config.loop c) w = true
is_lost_or_loop _ w = false

-- Each node of the layer has the type of its configuration, is such a call or loop, and takes less than the
-- limit.
abbrev pub Quiet :
    (fl : Floats) → (ℕ → Config) → (ℕ → Surroundings fl.Float) → fl.Float → Layer NodeType → Type 0
Quiet fl config met limit [] = Unit
Quiet fl config met limit ((nid, ndef) ∷ layer) =
    (ndef.body ≡ type_of (config nid))
    × (is_lost_or_loop (config nid) (met nid) ≡ true)
    × (fl.at_least (met nid).duration limit ≡ false)
    × Quiet fl config met limit layer

abbrev pub AllQuiet :
    (fl : Floats)
    → (ℕ → Config)
    → (ℕ → Surroundings fl.Float)
    → fl.Float
    → List (Layer NodeType)
    → Type 0
AllQuiet fl config met limit [] = Unit
AllQuiet fl config met limit (layer ∷ layers) =
    Quiet fl config met limit layer × AllQuiet fl config met limit layers

module _ (fl : Floats) (amount : Amounts fl) (py : Python) (config : ℕ → Config)
    (met : ℕ → Surroundings fl.Float) (slow limit : fl.Float)
    (positive : fl.at_least fl.zero limit ≡ false) where
  abbrev answer : ℕ → Answer fl.Float
  answer nid = answer_of fl amount py (config nid) (met nid)

  -- The layer answers, costs nothing and asks for no approval.
  abbrev Unnoticed : Layer NodeType → List NodeRow → Type 0
  Unnoticed layer rows =
      Answers fl answer slow limit layer fl.zero
      × (spent fl answer layer fl.zero ≡ fl.zero)
      × (costs (rows_of fl answer layer rows) ≡ costs rows)
      × (asks_approval layer ≡ false)
