-- ===== src/Events/Delivery.antt =====
-- Subscriptions, and the delivery of an event to them, of marketplace/services/event_subscription_service.py,
-- with the rows of models/agent_trust.py. The bodies of requests and responses are left out.
use agentchains.Base.{
  ℕ, zero, suc, Bool, true, false, ◌&&◌, ◌||◌, Option, none, some, List, [], ◌∷◌, ◌++◌, leb, ltb,
  ◌==◌, Result, ok, err, if◌then◌else◌,
}
use agentchains.Events.EventType
use agentchains.Events.Policy.{Visibility}
use agentchains.Events.Envelope.{BaseEvent, Event, should_dispatch_event}
use agentchains.Events.Callback.{
  Site, Resolver, Host, Url, Address, allowed_of, resolve_host_ips, validate_callback_url,
}
use agentchains.Events.Callback

pub data Status : Type 0 where
  active paused : Status

-- `event_types_json`, read: none where it is no list.
pub record EventSubscription : Type 0 where
  pub id : ℕ
  pub agent_id : ℕ
  pub callback_url : Url
  pub event_types : Option (List ℕ)
  pub secret : ℕ
  pub status : Status
  pub failure_count : ℕ
  pub last_delivery_at : Option ℕ

pub data DeliveryStatus : Type 0 where
  blocked failed delivered : DeliveryStatus

pub record WebhookDelivery : Type 0 where
  pub subscription_id : ℕ
  pub event_id : ℕ
  pub event_type : ℕ
  pub signature : Option ℕ
  pub status : DeliveryStatus
  pub response_code : Option ℕ
  pub delivery_attempt : ℕ

-- The settings, the resolver's two answers in an attempt (of the validation, and of the fresh look-up), the
-- status code of the response to an attempt at a URL (none where the request raises), HMAC and the clock.
pub record Wire : Type 0 where
  pub site : Site
  pub max_retries : ℕ
  pub max_failures : ℕ
  pub resolver : ℕ → Resolver
  pub resolver_again : ℕ → Resolver
  pub post : ℕ → Url → Option ℕ
  pub hmac : ℕ → BaseEvent → ℕ
  pub now : ℕ

abbrev pub is_among : ℕ → List ℕ → Bool
is_among x [] = false
is_among x (y ∷ ys) = (x == y) || is_among x ys

-- What an agent has asked for.
abbrev pub wants : Option (List ℕ) → ℕ → Bool
wants none event_type = false
wants (some types) event_type = is_among EventType.star types || is_among event_type types

abbrev pub is_for : Visibility → ℕ → BaseEvent → Bool
is_for Visibility.private agent_id base = is_among agent_id base.target_agent_ids
is_for Visibility.public agent_id base = elim base.agent_id [ none ↦ true | some a ↦ agent_id == a ]

unfoldable pub event_matches : EventSubscription → BaseEvent → Bool
event_matches sub base =
    is_for base.visibility sub.agent_id base && wants sub.event_types base.event_type

-- The fresh look-up of a host that is no address.
abbrev pub host_resolves : Site → Resolver → Option Host → Result Callback.Error (Unit {0})
host_resolves site resolver none = ok tt
host_resolves site resolver (some host) = elim host.literal [
  | some a ↦ ok tt
  | none ↦ allowed_of site (resolve_host_ips resolver host)
]

abbrev pub and_resolves :
    Wire → ℕ → Url → Result Callback.Error Url → Result Callback.Error (Unit {0})
and_resolves wire attempt url (err e) = err e
and_resolves wire attempt url (ok normal) =
    host_resolves wire.site (wire.resolver_again attempt) url.hostname

-- The checks of the URL before an attempt.
unfoldable pub url_passes : Wire → ℕ → Url → Result Callback.Error (Unit {0})
unfolding validate_callback_url resolve_host_ips
url_passes wire attempt url =
    and_resolves wire attempt url (validate_callback_url wire.site (wire.resolver attempt) url)

abbrev pub is_2xx : Option ℕ → Bool
is_2xx none = false
is_2xx (some code) = leb 200 code && ltb code 300

abbrev pub paused_if : Bool → EventSubscription → EventSubscription
paused_if true sub = record sub { status = Status.paused }
paused_if false sub = sub

-- One more failure, and whether it is one too many.
abbrev pub count_failure : EventSubscription → EventSubscription
count_failure sub = record sub { failure_count = suc sub.failure_count }

abbrev pub is_worn : Wire → EventSubscription → Bool
is_worn wire sub = leb wire.max_failures sub.failure_count

abbrev pub reset_failures : Wire → EventSubscription → EventSubscription
reset_failures wire sub = record sub { failure_count = 0; last_delivery_at = some wire.now }

abbrev pub row_of :
    EventSubscription → BaseEvent → ℕ → Option ℕ → DeliveryStatus → Option ℕ → WebhookDelivery
row_of sub base attempt signature status code = record {
  subscription_id = sub.id;
  event_id = base.event_id;
  event_type = base.event_type;
  signature = signature;
  status = status;
  response_code = code;
  delivery_attempt = attempt;
}

-- The signature over the payload with its attempt, under the subscription's own secret.
abbrev pub signature_of : Wire → EventSubscription → BaseEvent → ℕ → Option ℕ
signature_of wire sub base attempt =
    some (wire.hmac sub.secret (record base { delivery_attempt = attempt }))

abbrev pub blocked_row : EventSubscription → BaseEvent → ℕ → WebhookDelivery
blocked_row sub base attempt = row_of sub base attempt none DeliveryStatus.blocked none

abbrev pub sent_row :
    Wire → EventSubscription → BaseEvent → ℕ → DeliveryStatus → Option ℕ → WebhookDelivery
sent_row wire sub base attempt status code =
    row_of sub base attempt (signature_of wire sub base attempt) status code

abbrev pub after_row :
    WebhookDelivery
    → EventSubscription × List WebhookDelivery
    → EventSubscription × List WebhookDelivery
after_row row (sub, rows) = (sub, row ∷ rows)

-- An attempt, with the rest of the loop: `again` is called where the attempt fails and is not one too many.
module _ (wire : Wire) (base : BaseEvent)
    (again : EventSubscription → EventSubscription × List WebhookDelivery) where
  abbrev pub after_failure :
      Bool → ℕ → Option ℕ → EventSubscription → EventSubscription × List WebhookDelivery
  after_failure true attempt code sub = (
    paused_if true (count_failure sub),
    sent_row wire sub base attempt DeliveryStatus.failed code ∷ [],
  )
  after_failure false attempt code sub =
      after_row (sent_row wire sub base attempt DeliveryStatus.failed code)
        (again (count_failure sub))

  abbrev pub after_post :
      Bool → ℕ → Option ℕ → EventSubscription → EventSubscription × List WebhookDelivery
  after_post true attempt code sub =
      (reset_failures wire sub, sent_row wire sub base attempt DeliveryStatus.delivered code ∷ [])
  after_post false attempt code sub =
      after_failure (is_worn wire (count_failure sub)) attempt code sub

  abbrev pub attempt_with :
      Result Callback.Error (Unit {0})
      → ℕ
      → EventSubscription
      → EventSubscription × List WebhookDelivery
  attempt_with (err e) attempt sub = (
    paused_if (is_worn wire (count_failure sub)) (count_failure sub),
    blocked_row sub base attempt ∷ [],
  )
  attempt_with (ok u) attempt sub =
      let code = wire.post attempt sub.callback_url in after_post (is_2xx code) attempt code sub

-- The attempts that are left, from the given one on.
unfoldable pub deliver :
    Wire → BaseEvent → ℕ → ℕ → EventSubscription → EventSubscription × List WebhookDelivery
unfolding url_passes
deliver wire base zero attempt sub = (sub, [])
deliver wire base (suc left) attempt sub =
    attempt_with wire base (deliver wire base left (suc attempt))
      (url_passes wire attempt sub.callback_url) attempt sub

-- `max(1, settings.trust_webhook_max_retries)`
abbrev pub retries : Wire → ℕ
retries wire = elim wire.max_retries [ zero ↦ 1 | suc n ↦ suc n ]

unfoldable pub deliver_to_subscription :
    Wire → BaseEvent → EventSubscription → EventSubscription × List WebhookDelivery
unfolding deliver
deliver_to_subscription wire base sub = deliver wire base (retries wire) 1 sub

abbrev pub is_active : Status → Bool
is_active Status.active = true
is_active Status.paused = false

abbrev pub Subscriptions : Type 0
Subscriptions = List EventSubscription

abbrev pub deliver_if :
    Bool → Wire → BaseEvent → EventSubscription → EventSubscription × List WebhookDelivery
deliver_if true wire base sub = deliver_to_subscription wire base sub
deliver_if false wire base sub = (sub, [])

-- The query selects the active rows that the event is for, and the loop goes on with those that match.
unfoldable pub fan_out : Wire → BaseEvent → Subscriptions → Subscriptions × List WebhookDelivery
unfolding deliver_to_subscription event_matches
fan_out wire base [] = ([], [])
fan_out wire base (sub ∷ subs) =
    let (sub', rows) = deliver_if (is_active sub.status && event_matches sub base) wire base sub in
    let (subs', rest) = fan_out wire base subs in (sub' ∷ subs', rows ++ rest)

unfoldable pub dispatch_event_to_subscriptions :
    Wire → Event → Subscriptions → Subscriptions × List WebhookDelivery
unfolding fan_out
dispatch_event_to_subscriptions wire event subs =
    if should_dispatch_event event then fan_out wire event.base subs else (subs, [])
