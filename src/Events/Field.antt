-- ===== src/Events/Field.antt =====
-- The keys of the payloads of marketplace/services/event_subscription_service.py, a number for each text.
use Prim.Native.Nat.{ℕ}

abbrev pub query_pattern : ℕ
query_pattern = 0

abbrev pub velocity : ℕ
velocity = 1

abbrev pub category : ℕ
category = 2

abbrev pub id : ℕ
id = 3

abbrev pub estimated_revenue_usd : ℕ
estimated_revenue_usd = 4

abbrev pub urgency_score : ℕ
urgency_score = 5

abbrev pub listing_id : ℕ
listing_id = 6

abbrev pub title : ℕ
title = 7

abbrev pub price : ℕ
price = 8

abbrev pub price_usd : ℕ
price_usd = 9

abbrev pub price_usdc : ℕ
price_usdc = 10

abbrev pub order_id : ℕ
order_id = 11

abbrev pub amount_usd : ℕ
amount_usd = 12

abbrev pub trust_status : ℕ
trust_status = 13

abbrev pub subscriber_id : ℕ
subscriber_id = 14

abbrev pub agent_id : ℕ
agent_id = 15

abbrev pub buyer_id : ℕ
buyer_id = 16

abbrev pub seller_id : ℕ
seller_id = 17

abbrev pub from_agent_id : ℕ
from_agent_id = 18

abbrev pub to_agent_id : ℕ
to_agent_id = 19

abbrev pub creator_id : ℕ
creator_id = 20

abbrev pub target_creator_id : ℕ
target_creator_id = 21

abbrev pub user_id : ℕ
user_id = 22

abbrev pub target_user_id : ℕ
target_user_id = 23
