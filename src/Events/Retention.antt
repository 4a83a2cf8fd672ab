-- ===== src/Events/Retention.antt =====
-- `redact_old_webhook_deliveries` and `list_subscriptions` of marketplace/services/event_subscription_service.py.
-- Here the rows of deliveries have their texts and their time, which the delivery leaves out.
use Prim.Native.Nat.{max}
use agentchains.Base.{
  ℕ, ◌+◌, ◌*◌, ◌≡◌, refl, Bool, true, false, ◌||◌, Option, none, some, List, [], ◌∷◌, ◌==◌, select,
  ltb, Bool-cases, inl, inr, if◌then◌else◌, arith,
}
use agentchains.Events.Delivery.{WebhookDelivery, Subscriptions}

-- "{}", "", and any other text.
pub data PayloadText : Type 0 where
  empty_object blank : PayloadText
  text : ℕ → PayloadText

-- "", "[redacted]", and any other text.
pub data BodyText : Type 0 where
  blank redacted : BodyText
  text : ℕ → BodyText

pub record StoredDelivery : Type 0 where
  pub delivery : WebhookDelivery
  pub payload : PayloadText
  pub response_body : BodyText
  pub created_at : ℕ

abbrev has_payload : PayloadText → Bool
has_payload (PayloadText.text n) = true
has_payload _ = false

abbrev has_body : BodyText → Bool
has_body (BodyText.text n) = true
has_body _ = false

abbrev given_days : Option ℕ → ℕ → ℕ
given_days none days = days
given_days (some d) days = d

-- `created_at < cutoff`, in seconds; the cutoff is at least a day ago.
abbrev is_old : ℕ → ℕ → StoredDelivery → Bool
is_old days now row = ltb (row.created_at + max 1 days * 86400) now

abbrev redact_payload : PayloadText → PayloadText
redact_payload p = if has_payload p then PayloadText.empty_object else p

abbrev redact_body : BodyText → BodyText
redact_body b = if has_body b then BodyText.redacted else b

abbrev needs_update : StoredDelivery → Bool
needs_update row = has_payload row.payload || has_body row.response_body

abbrev redact : StoredDelivery → StoredDelivery
redact row = record row {
  payload = redact_payload row.payload;
  response_body = redact_body row.response_body;
}

abbrev redact_if : Bool → StoredDelivery → StoredDelivery
redact_if true row = redact row
redact_if false row = row

abbrev count_if : Bool → StoredDelivery → ℕ
count_if true row = if needs_update row then 1 else 0
count_if false row = 0

abbrev redact_rows : ℕ → ℕ → List StoredDelivery → List StoredDelivery × ℕ
redact_rows days now [] = ([], 0)
redact_rows days now (row ∷ rows) =
    let (rest, changed) = redact_rows days now rows in
    (redact_if (is_old days now row) row ∷ rest, count_if (is_old days now row) row + changed)

-- The rows that are left, and how many were changed.
unfoldable pub redact_old_webhook_deliveries :
    ℕ → ℕ → Option ℕ → List StoredDelivery → List StoredDelivery × ℕ
redact_old_webhook_deliveries retention_days now days rows =
    redact_rows (given_days days retention_days) now rows

-- The rows; which of their columns are shown is left out.
unfoldable pub list_subscriptions : ℕ → Subscriptions → Subscriptions
list_subscriptions agent_id subs = select (λ s. s.agent_id == agent_id) subs

redact_again : (row : StoredDelivery) → redact (redact row) ≡ redact row
redact_again row = ground arith

redact_clears : (row : StoredDelivery) → needs_update (redact row) ≡ false
redact_clears row = ground arith

-- Of rows that were redacted, none is changed again at that time.
redact_rows_again :
    (days now : ℕ) (rows : List StoredDelivery)
    → redact_rows days now (redact_rows days now rows).0 ≡ ((redact_rows days now rows).0, 0)
redact_rows_again days now [] = refl
redact_rows_again days now (row ∷ rows) = elim (Bool-cases (is_old days now row)) [
  | inl e ↦ rw (e, e, redact_again row, redact_clears row, redact_rows_again days now rows) refl
  | inr e ↦ rw (e, e, redact_rows_again days now rows) refl
]
