-- ===== src/Events/EventType.antt =====
-- The types of events of marketplace/services/event_subscription_service.py, a number for each text; a
-- dot of the text is an underscore here, and `star` is the pattern "*" of a subscription.
use Prim.Native.Nat.{ℕ}

abbrev pub star : ℕ
star = 0

abbrev pub demand_spike : ℕ
demand_spike = 1

abbrev pub opportunity_created : ℕ
opportunity_created = 2

abbrev pub listing_created : ℕ
listing_created = 3

abbrev pub test_event : ℕ
test_event = 4

abbrev pub catalog_update : ℕ
catalog_update = 5

abbrev pub transaction_initiated : ℕ
transaction_initiated = 6

abbrev pub payment_confirmed : ℕ
payment_confirmed = 7

abbrev pub content_delivered : ℕ
content_delivered = 8

abbrev pub transaction_completed : ℕ
transaction_completed = 9

abbrev pub transaction_disputed : ℕ
transaction_disputed = 10

abbrev pub express_purchase : ℕ
express_purchase = 11

abbrev pub payment : ℕ
payment = 12

abbrev pub deposit : ℕ
deposit = 13

abbrev pub agent_trust_updated : ℕ
agent_trust_updated = 14

abbrev pub challenge_failed : ℕ
challenge_failed = 15

abbrev pub challenge_passed : ℕ
challenge_passed = 16

abbrev pub memory_snapshot_imported : ℕ
memory_snapshot_imported = 17

abbrev pub memory_snapshot_verified : ℕ
memory_snapshot_verified = 18

abbrev pub admin_payout_pending : ℕ
admin_payout_pending = 19

abbrev pub admin_security_alert : ℕ
admin_security_alert = 20

abbrev pub admin_dashboard_updated : ℕ
admin_dashboard_updated = 21

abbrev pub market_order_created : ℕ
market_order_created = 22

abbrev pub market_order_public : ℕ
market_order_public = 23
