-- ===== src/Events/Subscriptions.antt =====
-- `register_subscription` and `delete_subscription` of marketplace/services/event_subscription_service.py.
use agentchains.Base.{
  ℕ, Bool, true, false, ◌&&◌, Option, none, some, List, [], ◌∷◌, select, ◌==◌, Result, ok, err,
  if◌then◌else◌,
}
use agentchains.Base.Table.{scalar_one_or_none, update}
use agentchains.Events.EventType
use agentchains.Events.Callback.{Site, Resolver, Url, validate_callback_url}
use agentchains.Events.Callback
use agentchains.Events.Delivery.{EventSubscription, Status, Subscriptions}

pub data Error : Type 0 where
  multiple_results : Error
  bad_url : Callback.Error → Error

-- A fresh id and secret, and the text of a URL, by which URLs are compared.
pub record Fresh : Type 0 where
  pub id : ℕ
  pub secret : ℕ
  pub text_of : Url → ℕ

-- `event_types or ["*"]`
abbrev pub types_or_all : List ℕ → List ℕ
types_or_all [] = EventType.star ∷ []
types_or_all (t ∷ types) = t ∷ types

abbrev pub id_of : EventSubscription → ℕ
id_of sub = sub.id

abbrev pub renewed : Fresh → List ℕ → EventSubscription → EventSubscription
renewed fresh types sub = record sub {
  event_types = some (types_or_all types);
  status = Status.active;
  failure_count = 0;
  secret = fresh.secret;
}

abbrev pub new_subscription : Fresh → ℕ → Url → List ℕ → EventSubscription
new_subscription fresh agent_id url types = record {
  id = fresh.id;
  agent_id = agent_id;
  callback_url = url;
  event_types = some (types_or_all types);
  secret = fresh.secret;
  status = Status.active;
  failure_count = 0;
  last_delivery_at = none;
}

abbrev pub add_or_renew :
    Fresh
    → ℕ
    → Url
    → List ℕ
    → Subscriptions
    → Result Error (Option EventSubscription)
    → Result Error Subscriptions
add_or_renew fresh agent_id url types subs (err e) = err e
add_or_renew fresh agent_id url types subs (ok none) =
    ok (new_subscription fresh agent_id url types ∷ subs)
add_or_renew fresh agent_id url types subs (ok (some row)) =
    ok (update id_of row.id (renewed fresh types) subs)

abbrev pub is_same : Fresh → ℕ → Url → EventSubscription → Bool
is_same fresh agent_id url sub =
    (sub.agent_id == agent_id) && (fresh.text_of sub.callback_url == fresh.text_of url)

abbrev pub register_at :
    Fresh → ℕ → List ℕ → Subscriptions → Result Callback.Error Url → Result Error Subscriptions
register_at fresh agent_id types subs (err e) = err (bad_url e)
register_at fresh agent_id types subs (ok url) =
    add_or_renew fresh agent_id url types subs
      (scalar_one_or_none multiple_results (select (is_same fresh agent_id url) subs))

unfoldable pub register_subscription :
    Site → Resolver → Fresh → ℕ → Url → List ℕ → Subscriptions → Result Error Subscriptions
unfolding validate_callback_url
register_subscription site resolver fresh agent_id callback_url types subs =
    register_at fresh agent_id types subs (validate_callback_url site resolver callback_url)

abbrev pub is_owned : ℕ → ℕ → EventSubscription → Bool
is_owned agent_id subscription_id sub = (sub.id == subscription_id) && (sub.agent_id == agent_id)

-- The rows that are left, and whether there was one to delete.
unfoldable pub delete_subscription : ℕ → ℕ → Subscriptions → Subscriptions × Bool
delete_subscription agent_id subscription_id [] = ([], false)
delete_subscription agent_id subscription_id (sub ∷ subs) =
    let (rest, found) = delete_subscription agent_id subscription_id subs in
    if is_owned agent_id subscription_id sub then (subs, true) else (sub ∷ rest, found)
