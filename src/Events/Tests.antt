-- ===== src/Events/Tests.antt =====
-- A sale that two agents hear of, and the theorems about its delivery.
use agentchains.Base.{
  ℕ, ◌+◌, ◌*◌, ◌≤◌, ◌≡◌, refl, true, false, none, some, [], ◌∷◌, All, length, map, ◌==◌,
  if◌then◌else◌,
}
use agentchains.Events.EventType
use agentchains.Events.Field
use agentchains.Events.Policy.{event_policy}
use agentchains.Events.Envelope.{
  Payload, Value, Event, Stamp, build_event_envelope, base_event, is_private, is_empty,
  verify_event_signature,
}
use agentchains.Events.Callback.{Url, Scheme, Address}
use agentchains.Events.Delivery.{
  Wire, EventSubscription, WebhookDelivery, Status, Subscriptions, deliver_to_subscription,
  dispatch_event_to_subscriptions, retries,
}
use agentchains.Events.Retention.{
  StoredDelivery, PayloadText, BodyText, redact_old_webhook_deliveries, list_subscriptions,
}
use agentchains.Events.Attempts.{Ended, delivery_ends}
use agentchains.Events.Reach.{IsReached, HasOnly, dispatch_reaches}

-- Host 1 is public, host 2 resolves to 10.0.0.1; the first post is refused.
abbrev wire : Wire
wire = record {
  site = record { is_prod = true; is_special = λ a. false };
  max_retries = 3;
  max_failures = 5;
  resolver = λ attempt name. some (Address.v4 134744072 ∷ []);
  resolver_again =
      λ attempt name. some (Address.v4 (if name == 1 then 134744072 else 167772161) ∷ []);
  post = λ attempt url. if attempt == 1 then none else some 200;
  hmac = λ secret base. secret + base.delivery_attempt;
  now = 9;
}

abbrev url : ℕ → Url
url name = record {
  scheme = Scheme.https;
  netloc = some name;
  hostname = some (record { name = name; is_local = false; literal = none });
  path = some 0;
  query = 0;
  fragment = 0;
}

abbrev subscription : ℕ → ℕ → ℕ → EventSubscription
subscription id agent host = record {
  id = id;
  agent_id = agent;
  callback_url = url host;
  event_types = some (EventType.star ∷ []);
  secret = 500;
  status = Status.active;
  failure_count = 1;
  last_delivery_at = none;
}

-- The buyer's, the seller's, and a stranger's.
abbrev subs : Subscriptions
subs = subscription 1 10 1 ∷ subscription 2 20 2 ∷ subscription 3 30 1 ∷ []

abbrev payload : Payload
payload = (Field.buyer_id, Value.text (some 10)) ∷ (Field.seller_id, Value.text (some 20)) ∷ []

abbrev stamp : Stamp
stamp = record {
  hmac = λ secret base. secret + base.seq;
  signing_secret = some 8;
  event_id = 77;
  seq = 4;
  now = 9;
}

event : Event
event = record {
  base = base_event stamp EventType.payment_confirmed payload none 1 [] [] [];
  blocked = false;
  signature = 12;
}

-- The buyer's webhook is reached on the second attempt, the seller's is blocked.
dispatch_runs :
    map
      (λ (r : WebhookDelivery). r.subscription_id * 10 + r.delivery_attempt)
      (dispatch_event_to_subscriptions wire event subs).1
    ≡ 11 ∷ 12 ∷ 21 ∷ []
unfolding dispatch_event_to_subscriptions event build_event_envelope
dispatch_runs = refl

dispatch_reaches_example :
    All
      (IsReached wire EventType.payment_confirmed payload [] event.base subs)
      (dispatch_event_to_subscriptions wire event subs).1
    × (is_private (event_policy EventType.payment_confirmed).visibility ≡ false
        → is_empty (event_policy EventType.payment_confirmed).public_fields ≡ false
        → HasOnly (event_policy EventType.payment_confirmed).public_fields event.base.payload)
    × (verify_event_signature stamp.hmac event.base (some event.signature) 8 none ≡ true)
unfolding event build_event_envelope
dispatch_reaches_example =
    dispatch_reaches wire stamp EventType.payment_confirmed payload none 1 8 [] [] [] event subs
      refl refl

delivery_ends_example :
    (1 ≤ length (deliver_to_subscription wire event.base (subscription 1 10 1)).1)
    × Ended wire
        (retries wire)
        1
        (subscription 1 10 1)
        (deliver_to_subscription wire event.base (subscription 1 10 1))
delivery_ends_example = delivery_ends wire event.base (subscription 1 10 1)

-- A delivery of day 0 is redacted after a day, one of day 2 is not.
abbrev stored : ℕ → StoredDelivery
stored day = record {
  delivery = record {
    subscription_id = 1;
    event_id = 1;
    event_type = EventType.test_event;
    signature = none;
    status = agentchains.Events.Delivery.DeliveryStatus.blocked;
    response_code = none;
    delivery_attempt = 1;
  };
  payload = PayloadText.text 5;
  response_body = BodyText.blank;
  created_at = day * 86400;
}

old_is_redacted :
    redact_old_webhook_deliveries 30 172800 (some 0) (stored 0 ∷ stored 2 ∷ [])
    ≡ (record (stored 0) { payload = PayloadText.empty_object } ∷ stored 2 ∷ [], 1)
unfolding redact_old_webhook_deliveries
old_is_redacted = refl

lists_own : map (λ s. s.id) (list_subscriptions 20 subs) ≡ 2 ∷ []
unfolding list_subscriptions
lists_own = refl
