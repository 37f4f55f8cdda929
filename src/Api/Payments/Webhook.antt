-- ===== src/Api/Payments/Webhook.antt =====
-- PaymentsService.handleWebhookEvent (packages/api/src/modules/payments/payments.service.ts): each
-- Stripe event is handled at most once, and what the handlers write.
use marhaba_delivery_v.Prelude.{
  String, ◌≡◌, refl, Bool, true, false, List, [], ◌∷◌, ◌++◌, Option, none, some, ◌==◌, arith,
  string_eq, eq_iff, is_truthy, if◌then◌else◌, Option-cases, inl, inr,
}
use marhaba_delivery_v.Prelude.Rows.{find_first, update_many, find_first-append}
use marhaba_delivery_v.Prelude.Action.{Action, Outcome, ok, throws}
use marhaba_delivery_v.Api.World.{World, Payment, ProcessedWebhookEvent}
use marhaba_delivery_v.Api.Payments.{payment_of_order}
use marhaba_delivery_v.Api.Payments.Events.{
  WebhookEvent, WebhookObject, handle_webhook_with, webhook_with_id, capture, mark_failed,
  mark_refunded,
}

abbrev pub marked : WebhookEvent → World → World
marked event w = record w {
  processed_webhooks = w.processed_webhooks ++ record { id = event.id; type = event.type } ∷ [];
}

abbrev pub handled : Outcome Unit → Outcome Bool
handled (ok r) = ok true
handled (throws e) = throws e

marked_found :
    (event : WebhookEvent) (w : World)
    → (e : ProcessedWebhookEvent) × (find_first
          (webhook_with_id event.id)
          (marked event w).processed_webhooks
        ≡ some e)
marked_found event w =
    let row : ProcessedWebhookEvent = record { id = event.id; type = event.type } in
    let found = find_first-append (webhook_with_id event.id) w.processed_webhooks row in
    elim (Option-cases (find_first (webhook_with_id event.id) w.processed_webhooks)) [
      | inl missing ↦ (row, ground (arith, found, eq_iff event.id event.id))
      | inr (e, there) ↦ (e, ground (arith, found))
    ]

module _ (handler : WebhookEvent → Action World Unit) (event : WebhookEvent) (w : World) where
  -- Once an event has been delivered, with whatever handler and outcome, a second delivery runs
  -- nothing and answers that it was not handled.
  pub second_delivery :
      let w' = (handle_webhook_with handler event w).1 in
      handle_webhook_with handler event w' ≡ (ok false, w')
  unfolding handle_webhook_with
  second_delivery =
      elim (Option-cases (find_first (webhook_with_id event.id) w.processed_webhooks)) [
        | inl fresh ↦
            let (e, found) = marked_found event (handler event w).1 in ground (arith, fresh, found)
        | inr (e, seen) ↦ rw (seen, seen) refl
      ]

-- What an event does to the payments of its order.
abbrev pub paid : String → WebhookObject → String → List Payment → List Payment
paid type object id payments =
    if type == "payment_intent.succeeded"
    then update_many (payment_of_order id) (capture object) payments
    else (if type == "payment_intent.payment_failed"
        then update_many (payment_of_order id) mark_failed payments
        else (if type == "charge.refunded"
            then update_many (payment_of_order id) (mark_refunded object) payments
            else payments))

abbrev pub paid_for : Option String → String → WebhookObject → List Payment → List Payment
paid_for none type object payments = payments
paid_for (some id) type object payments =
    if is_truthy (some id) then paid type object id payments else payments
