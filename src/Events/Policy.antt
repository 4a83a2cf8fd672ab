-- ===== src/Events/Policy.antt =====
-- `_EVENT_POLICY` and `_event_policy` of marketplace/services/event_subscription_service.py.
use agentchains.Base.{ℕ, Option, none, some, List, [], ◌∷◌}
use agentchains.Base.Dict.{Dict, lookup}
use agentchains.Events.EventType
use agentchains.Events.Field

pub data Visibility : Type 0 where
  public private : Visibility

pub data Topic : Type 0 where
  public_market public_market_orders private_agent private_admin private_user : Topic

pub record Policy : Type 0 where
  pub visibility : Visibility
  pub topic : Topic
  pub public_fields : List ℕ
  pub target_keys : List ℕ

abbrev public_policy : Topic → List ℕ → Policy
public_policy topic fields = record {
  visibility = Visibility.public;
  topic = topic;
  public_fields = fields;
  target_keys = [];
}

abbrev private_policy : Topic → List ℕ → Policy
private_policy topic keys = record {
  visibility = Visibility.private;
  topic = topic;
  public_fields = [];
  target_keys = keys;
}

-- A public event has fields that all may see, a private one the keys of those it is for.
unfoldable pub event_policies : Dict Policy
event_policies =
    (
      EventType.demand_spike,
      public_policy Topic.public_market
          (Field.query_pattern ∷ Field.velocity ∷ Field.category ∷ []),
    )
    ∷ (
      EventType.opportunity_created,
      public_policy Topic.public_market
          (Field.id ∷ Field.query_pattern ∷ Field.estimated_revenue_usd ∷ Field.urgency_score ∷ []),
    )
    ∷ (
      EventType.listing_created,
      public_policy Topic.public_market (
          Field.listing_id ∷ Field.title ∷ Field.category ∷ Field.price ∷ Field.price_usd
          ∷ Field.price_usdc ∷ []),
    )
    ∷ (EventType.test_event, public_policy Topic.public_market ([]))
    ∷ (
      EventType.catalog_update,
      private_policy Topic.private_agent (Field.subscriber_id ∷ Field.agent_id ∷ []),
    )
    ∷ (
      EventType.transaction_initiated,
      private_policy Topic.private_agent (Field.buyer_id ∷ Field.seller_id ∷ []),
    )
    ∷ (
      EventType.payment_confirmed,
      private_policy Topic.private_agent (Field.buyer_id ∷ Field.seller_id ∷ []),
    )
    ∷ (
      EventType.content_delivered,
      private_policy Topic.private_agent (Field.buyer_id ∷ Field.seller_id ∷ []),
    )
    ∷ (
      EventType.transaction_completed,
      private_policy Topic.private_agent (Field.buyer_id ∷ Field.seller_id ∷ []),
    )
    ∷ (
      EventType.transaction_disputed,
      private_policy Topic.private_agent (Field.buyer_id ∷ Field.seller_id ∷ []),
    )
    ∷ (
      EventType.express_purchase,
      private_policy Topic.private_agent (Field.buyer_id ∷ Field.seller_id ∷ []),
    )
    ∷ (
      EventType.payment,
      private_policy Topic.private_agent (Field.from_agent_id ∷ Field.to_agent_id ∷ []),
    )
    ∷ (EventType.deposit, private_policy Topic.private_agent (Field.agent_id ∷ []))
    ∷ (EventType.agent_trust_updated, private_policy Topic.private_agent (Field.agent_id ∷ []))
    ∷ (EventType.challenge_failed, private_policy Topic.private_agent (Field.agent_id ∷ []))
    ∷ (EventType.challenge_passed, private_policy Topic.private_agent (Field.agent_id ∷ []))
    ∷ (EventType.memory_snapshot_imported, private_policy Topic.private_agent (Field.agent_id ∷ []))
    ∷ (EventType.memory_snapshot_verified, private_policy Topic.private_agent (Field.agent_id ∷ []))
    ∷ (EventType.admin_payout_pending, private_policy Topic.private_admin (Field.creator_id ∷ []))
    ∷ (EventType.admin_security_alert, private_policy Topic.private_admin (Field.creator_id ∷ []))
    ∷ (
      EventType.admin_dashboard_updated,
      private_policy Topic.private_admin (Field.creator_id ∷ []),
    )
    ∷ (EventType.market_order_created, private_policy Topic.private_user (Field.user_id ∷ []))
    ∷ (
      EventType.market_order_public,
      public_policy Topic.public_market_orders (
          Field.order_id ∷ Field.listing_id ∷ Field.amount_usd ∷ Field.category ∷ Field.trust_status
          ∷ []),
    )
    ∷ []

abbrev pub policy_or : Option Policy → Policy
policy_or (some p) = p
policy_or none = private_policy Topic.private_agent []

unfoldable pub event_policy : ℕ → Policy
unfolding event_policies
event_policy event_type = policy_or (lookup event_type event_policies)
