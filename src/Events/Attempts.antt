-- ===== src/Events/Attempts.antt =====
-- How a delivery to one subscription ends.
use agentchains.Base.{
  ℕ, zero, suc, ◌+◌, ◌≤◌, ◌≡◌, refl, sym, ap, ◌∙◌, Bool, true, false, not, ◌&&◌, ◌||◌, ◌==◌,
  ==_self, Option, List, [], ◌∷◌, leb, Result, ok, err, length, arith, if◌then◌else◌,
}
use agentchains.Events.Envelope.{BaseEvent}
use agentchains.Events.Callback
use agentchains.Events.Delivery.{
  Wire, EventSubscription, WebhookDelivery, DeliveryStatus, is_active, is_worn, count_failure,
  paused_if, attempt_with, after_post, after_failure, after_row, sent_row, deliver, retries,
  deliver_to_subscription, url_passes, is_2xx,
}

abbrev pub is_delivered : DeliveryStatus → Bool
is_delivered DeliveryStatus.delivered = true
is_delivered _ = false

-- One of the attempts was answered.
abbrev pub got_through : List WebhookDelivery → Bool
got_through [] = false
got_through (r ∷ rows) = if is_delivered r.status then true else got_through rows

abbrev pub is_failed : DeliveryStatus → Bool
is_failed DeliveryStatus.failed = true
is_failed _ = false

-- The attempts are numbered from the given one on, and none follows one that was answered or blocked.
abbrev pub is_run : ℕ → List WebhookDelivery → Bool
is_run attempt [] = true
is_run attempt (r ∷ []) = r.delivery_attempt == attempt
is_run attempt (r ∷ s ∷ rows) =
    (r.delivery_attempt == attempt) && (is_failed r.status && is_run (suc attempt) (s ∷ rows))

-- The subscription and the rows after at most `left` attempts on `sub`.
abbrev pub Ended :
    Wire → ℕ → ℕ → EventSubscription → EventSubscription × List WebhookDelivery → Type 0
Ended wire left attempt sub (sub', rows) =
    (length rows ≤ left)
    × (1 ≤ left → 1 ≤ length rows)
    × (is_run attempt rows ≡ true)
    × (sub'.failure_count ≡ (if got_through rows then 0 else sub.failure_count + length rows))
    × (is_active sub'.status ≡ (
        is_active sub.status
        && (got_through rows || not (leb wire.max_failures sub'.failure_count))))

-- With no attempt left, the failures are not yet too many.
abbrev IsFresh : Wire → ℕ → EventSubscription → Type 0
IsFresh wire left sub = left ≡ 0 → is_worn wire sub ≡ false

-- The same run with one failed attempt before it.
after_row-Ended :
    (wire : Wire) (base : BaseEvent) (left attempt : ℕ) (code : Option ℕ) (sub : EventSubscription)
    (o : EventSubscription × List WebhookDelivery)
    → Ended wire left (suc attempt) (count_failure sub) o
    → Ended wire
        (suc left)
        attempt
        sub
        (after_row (sent_row wire sub base attempt DeliveryStatus.failed code) o)
after_row-Ended wire base left attempt code sub (sub', []) (short, _, run, counted, active) =
    (omega arith, (λ h. omega arith), ==_self attempt, omega (arith, counted), active)
after_row-Ended wire base left attempt code sub (sub', r ∷ rows) (short, _, run, counted, active) =
    (
      omega (arith, short),
      (λ h. omega arith),
      rw (==_self attempt) run,
      rw counted (ground arith),
      active,
    )

paused_if_counts :
    (b : Bool) (sub : EventSubscription) → (paused_if b sub).failure_count ≡ sub.failure_count
paused_if_counts true sub = refl
paused_if_counts false sub = refl

paused_if_stops :
    (b : Bool) (sub : EventSubscription)
    → is_active (paused_if b sub).status ≡ (is_active sub.status && not b)
paused_if_stops true sub = ground arith
paused_if_stops false sub = ground arith

module _ (wire : Wire) (base : BaseEvent) (left : ℕ)
    (again : EventSubscription → EventSubscription × List WebhookDelivery) where
  after_failure-Ended :
      (worn : Bool) (attempt : ℕ) (code : Option ℕ) (sub : EventSubscription)
      → is_worn wire (count_failure sub) ≡ worn
      → (worn ≡ false
          → Ended wire left (suc attempt) (count_failure sub) (again (count_failure sub)))
      → Ended wire (suc left) attempt sub (after_failure wire base again worn attempt code sub)
  after_failure-Ended true attempt code sub e h =
      (omega arith, (λ h. omega arith), ==_self attempt, omega arith, ground (arith, e))
  after_failure-Ended false attempt code sub e h =
      after_row-Ended wire base left attempt code sub (again (count_failure sub)) (h refl)

  attempt_with-Ended :
      (r : Result Callback.Error (Unit {0})) (attempt : ℕ) (sub : EventSubscription)
      → (is_worn wire (count_failure sub) ≡ false
          → Ended wire left (suc attempt) (count_failure sub) (again (count_failure sub)))
      → Ended wire (suc left) attempt sub (attempt_with wire base again r attempt sub)
  attempt_with-Ended (err e) attempt sub h =
      let worn = is_worn wire (count_failure sub) in
      let counted = paused_if_counts worn (count_failure sub) in
      (
        omega arith,
        (λ h. omega arith),
        ==_self attempt,
        counted ∙ omega arith,
        paused_if_stops worn (count_failure sub)
            ∙ ap (λ n. is_active sub.status && not (leb wire.max_failures n)) (sym counted),
      )
  attempt_with-Ended (ok u) attempt sub h = posted (is_2xx (wire.post attempt sub.callback_url))
    where
      posted :
          (b : Bool)
          → Ended wire
              (suc left)
              attempt
              sub
              (after_post wire base again b attempt (wire.post attempt sub.callback_url) sub)
      posted true = (omega arith, (λ h. omega arith), ==_self attempt, refl, ground arith)
      posted false =
          after_failure-Ended (is_worn wire (count_failure sub)) attempt _ sub refl (λ e. h e)

deliver-Ended :
    (wire : Wire) (base : BaseEvent) (left attempt : ℕ) (sub : EventSubscription)
    → IsFresh wire left sub
    → Ended wire left attempt sub (deliver wire base left attempt sub)
unfolding deliver
deliver-Ended wire base zero attempt sub fresh =
    (omega arith, (λ h. absurd (omega (arith, h))), refl, omega arith, ground (arith, fresh refl))
deliver-Ended wire base (suc left) attempt sub fresh =
    attempt_with-Ended wire base left (deliver wire base left (suc attempt))
      (url_passes wire attempt sub.callback_url) attempt sub
      λ open_. deliver-Ended wire base left (suc attempt) (count_failure sub) λ e. open_

retries_some : (wire : Wire) → 1 ≤ retries wire
retries_some wire = counted wire.max_retries
  where
    counted : (n : ℕ) → 1 ≤ elim n as (λ _. ℕ) [ zero ↦ 1 | suc k ↦ suc k ]
    counted zero = omega arith
    counted (suc k) = omega arith

-- A delivery to a subscription makes at least one attempt and at most as many as the settings allow, numbered
-- from one on, and stops at the first that is answered or blocked. The failure count is zero if an attempt was
-- answered, and one more for each attempt if none was; and an active subscription stays active exactly if an
-- attempt was answered or the failures have not reached the settings' limit, and no other becomes active.
pub delivery_ends :
    (wire : Wire) (base : BaseEvent) (sub : EventSubscription)
    → (1 ≤ length (deliver_to_subscription wire base sub).1)
      × Ended wire (retries wire) 1 sub (deliver_to_subscription wire base sub)
unfolding deliver_to_subscription
delivery_ends wire base sub =
    let ended =
      deliver-Ended wire base (retries wire) 1 sub
        λ e. absurd (omega (arith, e, retries_some wire)) in
    (ended.1 (retries_some wire), ended)
