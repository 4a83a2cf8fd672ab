-- ===== src/Events/Envelope.antt =====
-- The envelope of an event: the ids of those it is for, the payload that may be seen, and the signature. A
-- text is a number; an id without its surrounding blanks is `some`, and a blank text or no text is `none`.
use agentchains.Base.{
  ℕ, Bool, true, false, ◌&&◌, Option, none, some, List, [], ◌∷◌, ◌++◌, ◌==◌, Result, ok, err,
  if◌then◌else◌,
}
use agentchains.Base.Dict.{Dict, lookup}
use agentchains.Ledger.Queries.{sort_set}
use agentchains.Events.Field
use agentchains.Events.Policy.{Visibility, Topic, Policy, event_policy}

pub data Value : Type 0 where
  text : Option ℕ → Value
  texts : List (Option ℕ) → Value
  other : ℕ → Value

abbrev pub Payload : Type 0
Payload = Dict Value

abbrev pub given : List (Option ℕ) → List ℕ
given [] = []
given (none ∷ items) = given items
given (some id ∷ items) = id ∷ given items

abbrev pub ids_of : Option Value → List ℕ
ids_of none = []
ids_of (some (Value.text t)) = given (t ∷ [])
ids_of (some (Value.texts items)) = given items
ids_of (some (Value.other n)) = []

abbrev pub ids_at : Payload → List ℕ → List ℕ
ids_at payload [] = []
ids_at payload (key ∷ keys) = ids_of (lookup key payload) ++ ids_at payload keys

-- The set of the explicit ids and of those under the keys, `sorted`.
abbrev pub targets : List ℕ → Payload → List (Option ℕ) → List ℕ
targets keys payload explicit = sort_set (given explicit ++ ids_at payload keys)

abbrev pub agent_keys : List ℕ
agent_keys =
    Field.agent_id ∷ Field.buyer_id ∷ Field.seller_id ∷ Field.subscriber_id ∷ Field.from_agent_id
    ∷ Field.to_agent_id ∷ []

unfoldable pub extract_target_agent_ids : Payload → Policy → List (Option ℕ) → List ℕ
extract_target_agent_ids payload policy explicit =
    targets (policy.target_keys ++ agent_keys) payload explicit

unfoldable pub extract_target_creator_ids : Payload → Policy → List (Option ℕ) → List ℕ
extract_target_creator_ids payload policy explicit =
    targets (policy.target_keys ++ (Field.creator_id ∷ Field.target_creator_id ∷ [])) payload
      explicit

unfoldable pub extract_target_user_ids : Payload → Policy → List (Option ℕ) → List ℕ
extract_target_user_ids payload policy explicit =
    targets (policy.target_keys ++ (Field.user_id ∷ Field.target_user_id ∷ [])) payload explicit

-- `{field: payload[field] for field in fields if field in payload}`
abbrev pub picked : Payload → List ℕ → Payload
picked payload [] = []
picked payload (field ∷ fields) = elim (lookup field payload) [
  | none ↦ picked payload fields
  | some v ↦ (field, v) ∷ picked payload fields
]

abbrev pub picked_or_all : Payload → List ℕ → Payload
picked_or_all payload [] = payload
picked_or_all payload (field ∷ fields) = picked payload (field ∷ fields)

unfoldable pub sanitize_payload : Payload → Policy → Visibility → Payload
sanitize_payload payload policy Visibility.private = payload
sanitize_payload payload policy Visibility.public = picked_or_all payload policy.public_fields

-- `_base_event_payload`, the part that is signed.
pub record BaseEvent : Type 0 where
  pub event_id : ℕ
  pub seq : ℕ
  pub event_type : ℕ
  pub occurred_at : ℕ
  pub agent_id : Option ℕ
  pub payload : Payload
  pub visibility : Visibility
  pub topic : Topic
  pub target_agent_ids : List ℕ
  pub target_creator_ids : List ℕ
  pub target_user_ids : List ℕ
  pub delivery_attempt : ℕ

pub record Event : Type 0 where
  pub base : BaseEvent
  pub blocked : Bool
  pub signature : ℕ

-- HMAC-SHA-256 of the canonical JSON text under a secret, the secret of the settings, and what a new event
-- takes from outside: its id, its number and the time.
pub record Stamp : Type 0 where
  pub hmac : ℕ → BaseEvent → ℕ
  pub signing_secret : Option ℕ
  pub event_id : ℕ
  pub seq : ℕ
  pub now : ℕ

pub data Error : Type 0 where
  no_signing_secret : Error

abbrev pub is_empty : List ℕ → Bool
is_empty [] = true
is_empty (x ∷ xs) = false

abbrev pub is_private : Visibility → Bool
is_private Visibility.private = true
is_private Visibility.public = false

abbrev pub lacks_target : Topic → List ℕ → List ℕ → Bool
lacks_target Topic.private_agent agents users = is_empty agents
lacks_target Topic.private_user agents users = is_empty users
lacks_target _ agents users = false

-- `agent_id or (targets[0] if targets else None)`
abbrev pub resolved_agent : Option ℕ → List ℕ → Option ℕ
resolved_agent (some a) targets_ = some a
resolved_agent none [] = none
resolved_agent none (a ∷ targets_) = some a

abbrev pub base_event :
    Stamp
    → ℕ
    → Payload
    → Option ℕ
    → ℕ
    → List (Option ℕ)
    → List (Option ℕ)
    → List (Option ℕ)
    → BaseEvent
base_event stamp event_type payload agent_id attempt agents creators users =
    let policy = event_policy event_type in
    let agent_targets = extract_target_agent_ids payload policy agents in
    record {
      event_id = stamp.event_id;
      seq = stamp.seq;
      event_type = event_type;
      occurred_at = stamp.now;
      agent_id = resolved_agent agent_id agent_targets;
      payload = sanitize_payload payload policy policy.visibility;
      visibility = policy.visibility;
      topic = policy.topic;
      target_agent_ids = agent_targets;
      target_creator_ids = extract_target_creator_ids payload policy creators;
      target_user_ids = extract_target_user_ids payload policy users;
      delivery_attempt = attempt;
    }

abbrev pub signed : Stamp → Option ℕ → BaseEvent → Result Error Event
signed stamp none base = err no_signing_secret
signed stamp (some secret) base = ok (record {
  base = base;
  blocked =
      is_private base.visibility
      && lacks_target base.topic base.target_agent_ids base.target_user_ids;
  signature = stamp.hmac secret base;
})

unfoldable pub build_event_envelope :
    Stamp
    → ℕ
    → Payload
    → Option ℕ
    → ℕ
    → List (Option ℕ)
    → List (Option ℕ)
    → List (Option ℕ)
    → Result Error Event
unfolding event_policy extract_target_agent_ids extract_target_creator_ids extract_target_user_ids
    sanitize_payload
build_event_envelope stamp event_type payload agent_id attempt agents creators users =
    signed stamp stamp.signing_secret
      (base_event stamp event_type payload agent_id attempt agents creators users)

abbrev pub should_dispatch_event : Event → Bool
should_dispatch_event event = if event.blocked then false else true

-- The signature of a text is none where it is empty.
unfoldable pub verify_event_signature :
    (ℕ → BaseEvent → ℕ) → BaseEvent → Option ℕ → ℕ → Option ℕ → Bool
verify_event_signature hmac payload none current previous = false
verify_event_signature hmac payload (some signature) current previous =
    if signature == hmac current payload
    then true
    else elim previous [ none ↦ false | some secret ↦ signature == hmac secret payload ]
