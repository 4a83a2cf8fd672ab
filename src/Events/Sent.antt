-- ===== src/Events/Sent.antt =====
-- The rows of a dispatch: each of an active subscription that matches, sent to a safe URL and signed.
use agentchains.Base.{
  ℕ, zero, suc, ◌≡◌, refl, Bool, true, false, ◌&&◌, Option, List, [], ◌∷◌, Result, ok, err,
  IfReturns, All, All-append, arith, inl, inr, ◌⊎◌, and_left, and_right,
}
use agentchains.Events.Envelope.{BaseEvent}
use agentchains.Events.Callback
use agentchains.Events.Delivery.{
  Wire, EventSubscription, WebhookDelivery, DeliveryStatus, Subscriptions, event_matches, is_active,
  is_worn, is_2xx, count_failure, signature_of, attempt_with, after_post, deliver, retries,
  deliver_to_subscription, deliver_if, fan_out, url_passes,
}
use agentchains.Events.Safe.{IsSafe, url_passes-IsSafe}

abbrev pub is_blocked : DeliveryStatus → Bool
is_blocked DeliveryStatus.blocked = true
is_blocked _ = false

-- A row is the subscription's and the event's; and if it was sent, then to a URL that was safe at the
-- attempt, with the signature of the payload and its attempt under the subscription's secret.
abbrev pub IsSent : Wire → BaseEvent → EventSubscription → WebhookDelivery → Type 0
IsSent wire base sub row =
    (row.subscription_id ≡ sub.id)
    × (row.event_id ≡ base.event_id)
    × (is_blocked row.status ≡ false
        → IsSafe wire row.delivery_attempt sub.callback_url
          × (row.signature ≡ signature_of wire sub base row.delivery_attempt))

module _ (wire : Wire) (base : BaseEvent)
    (again : EventSubscription → EventSubscription × List WebhookDelivery) (attempt : ℕ)
    (sub : EventSubscription)
    (later : All (IsSent wire base sub) (again (count_failure sub)).1) where
  posted-IsSent :
      (b worn : Bool) (code : Option ℕ)
      → IsSafe wire attempt sub.callback_url
      → is_worn wire (count_failure sub) ≡ worn
      → All (IsSent wire base sub) (after_post wire base again b attempt code sub).1
  posted-IsSent true worn code safe e = ((refl, refl, λ h. (safe, refl)), tt)
  posted-IsSent false true code safe e = rw e ((refl, refl, λ h. (safe, refl)), tt)
  posted-IsSent false false code safe e = rw e ((refl, refl, λ h. (safe, refl)), later)

  attempt_with-IsSent :
      (r : Result Callback.Error (Unit {0}))
      → IfReturns (λ _. IsSafe wire attempt sub.callback_url) r
      → All (IsSent wire base sub) (attempt_with wire base again r attempt sub).1
  attempt_with-IsSent (err e) safe = ((refl, refl, λ h. absurd (ground (arith, h))), tt)
  attempt_with-IsSent (ok u) safe =
      let code = wire.post attempt sub.callback_url in posted-IsSent (is_2xx code) _ code safe refl

deliver-IsSent :
    (wire : Wire) (base : BaseEvent) (left attempt : ℕ) (sub : EventSubscription)
    → All (IsSent wire base sub) (deliver wire base left attempt sub).1
unfolding deliver
deliver-IsSent wire base zero attempt sub = tt
deliver-IsSent wire base (suc left) attempt sub =
    attempt_with-IsSent wire base (deliver wire base left (suc attempt)) attempt sub
      (deliver-IsSent wire base left (suc attempt) (count_failure sub))
      (url_passes wire attempt sub.callback_url) (url_passes-IsSafe wire attempt sub.callback_url)

abbrev pub IsOf : EventSubscription → Subscriptions → Type 0
IsOf sub [] = ⊥
IsOf sub (s ∷ subs) = (s ≡ sub) ⊎ IsOf sub subs

-- The row is of an active subscription that matches.
abbrev pub IsMatched : Wire → BaseEvent → Subscriptions → WebhookDelivery → Type 0
IsMatched wire base subs row =
    (sub : EventSubscription) × IsOf sub subs
    × (is_active sub.status ≡ true)
    × (event_matches sub base ≡ true)
    × IsSent wire base sub row

pub All-mono :
    {A : Type 0} (P Q : A → Type 0) → ((a : A) → P a → Q a) → (xs : List A) → All P xs → All Q xs
All-mono P Q k [] h = tt
All-mono P Q k (x ∷ xs) (h, hs) = (k x h, All-mono P Q k xs hs)

deliver_if-IsMatched :
    (b : Bool) (wire : Wire) (base : BaseEvent) (sub : EventSubscription) (subs : Subscriptions)
    → (is_active sub.status && event_matches sub base) ≡ b
    → All (IsMatched wire base (sub ∷ subs)) (deliver_if b wire base sub).1
unfolding deliver_to_subscription
deliver_if-IsMatched false wire base sub subs e = tt
deliver_if-IsMatched true wire base sub subs e =
    All-mono (IsSent wire base sub) (IsMatched wire base (sub ∷ subs))
      (λ row h. (sub, inl refl, and_left _ _ e, and_right (is_active sub.status) _ e, h)) _
      (deliver-IsSent wire base (retries wire) 1 sub)

pub fan_out-IsMatched :
    (wire : Wire) (base : BaseEvent) (subs : Subscriptions)
    → All (IsMatched wire base subs) (fan_out wire base subs).1
unfolding fan_out
fan_out-IsMatched wire base [] = tt
fan_out-IsMatched wire base (sub ∷ subs) =
    All-append (IsMatched wire base (sub ∷ subs)) _ _
      (deliver_if-IsMatched (is_active sub.status && event_matches sub base) wire base sub subs
        refl)
      (All-mono (IsMatched wire base subs) (IsMatched wire base (sub ∷ subs))
        (λ row (s, of_, active, matches, sent). (s, inr of_, active, matches, sent)) _
        (fan_out-IsMatched wire base subs))
