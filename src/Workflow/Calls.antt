-- ===== src/Workflow/Calls.antt =====
-- The replies of nodes that call agents: `_execute_agent_call` of marketplace/services/orchestration_service.py.
-- The messages of errors are null here.
use agentchains.Base.{ℕ, Bool, Text, same_text, Option, none, some, Result, ok, err, if◌then◌else◌}
use agentchains.Proof.Schema.{Json, Fields, Items}
use agentchains.Workflow.Key

pub data Raised : Type 0 where
  raised : Raised

-- `json.loads`, the literal of a number, and Python's comparisons, which may raise.
pub record Python : Type 0 where
  pub loads : Text → Option Json
  pub literal : ℕ → Text
  pub equal : Json → Json → Bool
  pub less : Json → Json → Option Bool
  pub at_most : Json → Json → Option Bool
  pub member : Json → Json → Option Bool

abbrev pub value_at : Text → Fields → Option Json
value_at key Fields.end = none
value_at key (Fields.field k v fs) =
    let rest = value_at key fs in if same_text key k then some v else rest

abbrev pub get_or : Json → Text → Fields → Json
get_or default key fs = elim (value_at key fs) [ none ↦ default | some v ↦ v ]

abbrev pub one_field : Text → Json → Json
one_field key v = Json.object (Fields.field key v Fields.end)

abbrev pub error_reply : Json
error_reply = one_field Key.error Json.null

-- The answer to a request: JSON, something else, or an exception of httpx.
pub data Response : Type 0 where
  answered : Json → Response
  not_json http_error request_error : Response

pub record AgentCall : Type 0 where
  pub endpoint : Option ℕ
  pub is_a2a : Bool

-- The branch without A2A catches every exception.
abbrev pub plain_reply : Response → Json
plain_reply (answered j) = j
plain_reply _ = error_reply

-- `value[key]`, `value[0]`, and the literal `json.loads` of a text
abbrev pub at_key : Text → Option Json → Option Json
at_key key (some (Json.object fs)) = value_at key fs
at_key key _ = none

abbrev pub first_item : Option Json → Option Json
first_item (some (Json.array (Items.item x xs))) = some x
first_item _ = none

abbrev pub loads_text : Python → Option Json → Option Json
loads_text py (some (Json.string t)) = py.loads t
loads_text py _ = none

abbrev pub artifact : Python → Json → Option Json
artifact py j = loads_text py (
    at_key Key.text (
      first_item
        (at_key Key.parts_ (first_item (at_key Key.artifacts (at_key Key.result (some j)))))))

-- `result.get("result", result)`
abbrev pub result_of : Json → Result Raised Json
result_of (Json.object fs) = ok (get_or (Json.object fs) Key.result fs)
result_of _ = err raised

abbrev pub a2a_reply : Python → Response → Result Raised Json
a2a_reply py (answered j) = elim (artifact py j) [ some v ↦ ok v | none ↦ result_of j ]
a2a_reply py not_json = err raised
a2a_reply py http_error = ok error_reply
a2a_reply py request_error = ok error_reply

unfoldable pub execute_agent_call : Python → AgentCall → Response → Result Raised Json
execute_agent_call py c response = elim c.endpoint [
  | none ↦ ok error_reply
  | some url ↦ if c.is_a2a then a2a_reply py response else ok (plain_reply response)
]
