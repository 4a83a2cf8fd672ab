-- ===== src/Events/Reach.antt =====
-- Whom the deliveries of an event reach.
use mathlib.Core.Path.{subst}
use agentchains.Base.{
  ℕ, ◌≡◌, refl, sym, ap, ◌∙◌, true, false, ◌||◌, Option, none, some, List, [], ◌∷◌, ◌++◌, ok,
  IfReturns, All, arith, ◌==◌, inl, inr, Bool-cases, and_left, and_right, ==_self,
}
use agentchains.Base.Dict.{lookup}
use agentchains.Ledger.Queries.{insert_sorted, sort_set}
use agentchains.Events.Policy.{Visibility, Policy, event_policy}
use agentchains.Events.Envelope.{
  Value, picked, picked_or_all, is_empty, sanitize_payload, verify_event_signature, Payload,
  BaseEvent, Event, Stamp, base_event, signed, build_event_envelope, extract_target_agent_ids,
  agent_keys, ids_at, given, is_private, should_dispatch_event,
}
use agentchains.Events.Delivery.{
  Wire, EventSubscription, WebhookDelivery, Subscriptions, is_among, wants, is_for, event_matches,
  is_active, dispatch_event_to_subscriptions,
}
use agentchains.Events.Sent.{IsSent, IsOf, IsMatched, All-mono, fan_out-IsMatched}

is_among-insert_sorted :
    (x a : ℕ) (ids : List ℕ) → is_among x (insert_sorted a ids) ≡ is_among x (a ∷ ids)
is_among-insert_sorted x a [] = refl
is_among-insert_sorted x a (b ∷ ids) = ground (arith, is_among-insert_sorted x a ids)

is_among-sort_set : (x : ℕ) (ids : List ℕ) → is_among x (sort_set ids) ≡ is_among x ids
is_among-sort_set x [] = refl
is_among-sort_set x (a ∷ ids) =
    is_among-insert_sorted x a (sort_set ids) ∙ ap (λ b. (x == a) || b) (is_among-sort_set x ids)

is_for-private :
    (v : Visibility) (a : ℕ) (base : BaseEvent)
    → is_private v ≡ true
    → is_for v a base ≡ true
    → is_among a base.target_agent_ids ≡ true
is_for-private Visibility.private a base e h = h
is_for-private Visibility.public a base e h = absurd (ground (arith, e))

-- The texts that name agents in a request for an event.
abbrev pub named : ℕ → Payload → List (Option ℕ) → List ℕ
named event_type payload agents =
    given agents ++ ids_at payload ((event_policy event_type).target_keys ++ agent_keys)

-- The row is of an active subscription to the event's type, whose agent is named if the event is private.
abbrev pub IsReached :
    Wire → ℕ → Payload → List (Option ℕ) → BaseEvent → Subscriptions → WebhookDelivery → Type 0
IsReached wire event_type payload agents base subs row =
    (sub : EventSubscription) × IsOf sub subs
    × (is_active sub.status ≡ true)
    × (wants sub.event_types event_type ≡ true)
    × (is_private (event_policy event_type).visibility ≡ true
        → is_among sub.agent_id (named event_type payload agents) ≡ true)
    × IsSent wire base sub row

-- Every key of the payload is one of the fields.
abbrev pub HasOnly : List ℕ → Payload → Type 0
HasOnly fields payload = All (λ entry. is_among entry.0 fields ≡ true) payload

picked-HasOnly :
    (payload : Payload) (fields all_ : List ℕ)
    → ((f : ℕ) → is_among f fields ≡ true → is_among f all_ ≡ true)
    → HasOnly all_ (picked payload fields)
picked-HasOnly payload [] all_ k = tt
picked-HasOnly payload (f ∷ fields) all_ k =
    go (lookup f payload) (picked-HasOnly payload fields all_ λ g h. k g (rw h (ground arith)))
  where
    go :
        (o : Option Value)
        → HasOnly all_ (picked payload fields)
        → HasOnly all_ (elim o as (λ _. Payload) [
          | none ↦ picked payload fields
          | some v ↦ (f, v) ∷ picked payload fields
        ])
    go none rest = rest
    go (some v) rest = (k f (rw (==_self f) refl), rest)

sanitize_payload-HasOnly :
    (payload : Payload) (policy : Policy) (v : Visibility) (fields : List ℕ)
    → policy.public_fields ≡ fields
    → is_private v ≡ false
    → is_empty fields ≡ false
    → HasOnly fields (sanitize_payload payload policy v)
unfolding sanitize_payload
sanitize_payload-HasOnly payload policy Visibility.private fields e open_ some_ =
    absurd (ground (arith, open_))
sanitize_payload-HasOnly payload policy Visibility.public [] e open_ some_ =
    absurd (ground (arith, some_))
sanitize_payload-HasOnly payload policy Visibility.public (f ∷ fields) e open_ some_ =
    subst (λ l. HasOnly (f ∷ fields) (picked_or_all payload l)) (sym e)
      (picked-HasOnly payload (f ∷ fields) (f ∷ fields) λ g h. h)

-- What the signed event is.
signed-ok :
    (stamp : Stamp) (secret : ℕ) (base : BaseEvent) (event : Event)
    → signed stamp (some secret) base ≡ ok event
    → (event.base ≡ base) × (event.signature ≡ stamp.hmac secret base)
signed-ok stamp secret base event h = (
  subst (λ r. IfReturns (λ (x : Event). x.base ≡ base) r) h refl,
  subst (λ r. IfReturns (λ (x : Event). x.signature ≡ stamp.hmac secret base) r) h refl,
)

matched-IsReached :
    (wire : Wire) (stamp : Stamp) (event_type : ℕ) (payload : Payload) (agent_id : Option ℕ)
    (attempt : ℕ) (agents creators users : List (Option ℕ)) (subs : Subscriptions)
    (row : WebhookDelivery)
    → IsMatched wire
        (base_event stamp event_type payload agent_id attempt agents creators users)
        subs
        row
    → IsReached wire event_type payload agents
        (base_event stamp event_type payload agent_id attempt agents creators users)
        subs
        row
unfolding event_matches extract_target_agent_ids
matched-IsReached wire stamp event_type payload agent_id attempt agents creators users subs row
      (sub, of_, active, matches, sent) =
    let base = base_event stamp event_type payload agent_id attempt agents creators users in
    (
      sub,
      of_,
      active,
      and_right (is_for base.visibility sub.agent_id base) _ matches,
      λ private_.
          sym (is_among-sort_set sub.agent_id (named event_type payload agents))
          ∙ is_for-private base.visibility sub.agent_id base private_ (and_left _ _ matches),
      sent,
    )

dispatch-IsMatched :
    (wire : Wire) (event : Event) (subs : Subscriptions)
    → All (IsMatched wire event.base subs) (dispatch_event_to_subscriptions wire event subs).1
unfolding dispatch_event_to_subscriptions
dispatch-IsMatched wire event subs = elim (Bool-cases (should_dispatch_event event)) [
  | inl e ↦ rw e (fan_out-IsMatched wire event.base subs)
  | inr e ↦ rw e tt
]

-- Every delivery of an event that is built from a request and dispatched is to an active subscription to its
-- type; of a private event, only to an agent that the request names, in its targets or its payload. What is
-- sent goes to a URL whose host, as it is checked at the attempt, has addresses none of which is special or in
-- a network of the source's list, signed under the subscription's secret. A public event whose policy lists
-- fields carries no other field, and the event's own signature is verified under the secret of the settings.
pub dispatch_reaches :
    (wire : Wire) (stamp : Stamp) (event_type : ℕ) (payload : Payload) (agent_id : Option ℕ)
    (attempt secret : ℕ) (agents creators users : List (Option ℕ)) (event : Event)
    (subs : Subscriptions)
    → stamp.signing_secret ≡ some secret
    → build_event_envelope stamp event_type payload agent_id attempt agents creators users
      ≡ ok event
    → All
        (IsReached wire event_type payload agents event.base subs)
        (dispatch_event_to_subscriptions wire event subs).1
      × (is_private (event_policy event_type).visibility ≡ false
          → is_empty (event_policy event_type).public_fields ≡ false
          → HasOnly (event_policy event_type).public_fields event.base.payload)
      × (verify_event_signature stamp.hmac event.base (some event.signature) secret none ≡ true)
unfolding build_event_envelope verify_event_signature
dispatch_reaches wire stamp event_type payload agent_id attempt secret agents creators users event
      subs keyed built =
    let base = base_event stamp event_type payload agent_id attempt agents creators users in
    let (same, signature) =
      signed-ok stamp secret base event (subst (λ o. signed stamp o base ≡ ok event) keyed built) in
    (
      subst
          (λ b.
            All (IsReached wire event_type payload agents b subs)
              (dispatch_event_to_subscriptions wire event subs).1)
          (sym same)
          (All-mono (IsMatched wire base subs) (IsReached wire event_type payload agents base subs)
            (matched-IsReached wire stamp event_type payload agent_id attempt agents creators users
              subs)
            _
            (subst
              (λ b. All (IsMatched wire b subs) (dispatch_event_to_subscriptions wire event subs).1)
              same (dispatch-IsMatched wire event subs))),
      λ open_ some_.
          subst (λ (b : BaseEvent). HasOnly (event_policy event_type).public_fields b.payload)
            (sym same)
            (sanitize_payload-HasOnly payload (event_policy event_type)
              (event_policy event_type).visibility (event_policy event_type).public_fields refl
              open_ some_),
      rw (same, signature, ==_self (stamp.hmac secret base)) refl,
    )
