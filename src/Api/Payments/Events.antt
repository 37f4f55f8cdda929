-- ===== src/Api/Payments/Events.antt =====
-- packages/api/src/modules/payments/payments.service.ts: the webhook of Stripe, its deduplication and what each
-- type of event does to the payments and the audit log.
use marhaba_delivery_v.Prelude.{
  ℕ, String, Bool, true, false, [], ◌∷◌, Option, none, some, ◌==◌, string_eq, is_truthy,
  if◌then◌else◌,
}
use marhaba_delivery_v.Prelude.Rows.{update_many}
use marhaba_delivery_v.Prelude.Action.{
  Action, Outcome, ok, throws, pure, throw, find, modify, create, ◌>>=◌, ◌>>◌,
}
use marhaba_delivery_v.Shared.Enums.{OrderStatus, OrderEventType, ActorType, PaymentStatus}
use marhaba_delivery_v.Shared.Enums.Equality.{method_eq}
use marhaba_delivery_v.Api.World.{
  World, Payment, ProcessedWebhookEvent, text, number, webhook_table,
}
use marhaba_delivery_v.Api.Events.{record_event}
use marhaba_delivery_v.Api.Realtime.{emit_order_status}
use marhaba_delivery_v.Api.Payments.{payment_args, payment_of_order}

-- A verified Stripe event: its type and the fields of its object that the handlers read.
pub record WebhookObject : Type 0 where
  pub id : String
  pub order_id : Option String
  pub latest_charge : Option String
  pub amount_refunded : Option ℕ

pub record WebhookEvent : Type 0 where
  pub id : String
  pub type : String
  pub object : WebhookObject

-- `updateMany` of the payments of an order: no row is no error.
abbrev pub update_payments : String → (Payment → Payment) → Action World Unit
update_payments order_id f =
    modify λ w. record w { payments = update_many (payment_of_order order_id) f w.payments }

abbrev pub capture : WebhookObject → Payment → Payment
capture intent p = record p {
  status = PaymentStatus.captured;
  stripe_charge_id = intent.latest_charge;
}

abbrev pub mark_failed : Payment → Payment
mark_failed p = record p { status = PaymentStatus.failed }

-- `Number(charge.amount_refunded ?? 0)`.
abbrev pub refunded_amount : Option ℕ → ℕ
refunded_amount none = 0
refunded_amount (some n) = n

abbrev pub mark_refunded : WebhookObject → Payment → Payment
mark_refunded charge p = record p {
  status = PaymentStatus.refunded;
  refunded_minor = refunded_amount charge.amount_refunded;
}

abbrev pub succeeded_for : String → WebhookObject → Action World Unit
succeeded_for order_id intent = do
  update_payments order_id (capture intent)
  record_event (
      payment_args order_id OrderEventType.payment_succeeded ActorType.webhook
        (("paymentIntentId", text intent.id) ∷ []))
  emit_order_status order_id OrderStatus.placed (("paid", text "true") ∷ [])

abbrev pub failed_for : String → WebhookObject → Action World Unit
failed_for order_id intent = do
  update_payments order_id mark_failed
  record_event (
      payment_args order_id OrderEventType.payment_failed ActorType.webhook
        (("paymentIntentId", text intent.id) ∷ []))
  pure tt

abbrev pub refunded_for : String → WebhookObject → Action World Unit
refunded_for order_id charge = do
  update_payments order_id (mark_refunded charge)
  record_event (
      payment_args order_id OrderEventType.refunded ActorType.webhook
        (("amountRefunded", number (refunded_amount charge.amount_refunded)) ∷ []))
  pure tt

-- `if (!orderId) return;`
abbrev pub for_order :
    Option String → (String → WebhookObject → Action World Unit) → WebhookObject → Action World Unit
for_order none handler object = pure tt
for_order (some id) handler object = if is_truthy (some id) then handler id object else pure tt

-- The switch on `event.type`.
unfoldable pub handle_event : WebhookEvent → Action World Unit
handle_event event =
    if event.type == "payment_intent.succeeded"
    then for_order order_id succeeded_for event.object
    else (if event.type == "payment_intent.payment_failed"
        then for_order order_id failed_for event.object
        else (if event.type == "charge.refunded"
            then for_order order_id refunded_for event.object
            else pure tt))
  where
    open event.object use {order_id}

abbrev pub webhook_with_id : String → ProcessedWebhookEvent → Bool
webhook_with_id id e = e.id == id

abbrev pub finish : Outcome Unit → Action World Bool
finish (ok r) = pure true
finish (throws e) = throw e

-- The `finally` block: the event is marked as processed, whether or not its handler threw.
abbrev pub mark_and_finish : WebhookEvent → Outcome Unit × World → Outcome Bool × World
mark_and_finish event (r, w) =
    (do create webhook_table (record { id = event.id; type = event.type }); finish r) w

abbrev pub dedup :
    Option ProcessedWebhookEvent
    → (WebhookEvent → Action World Unit)
    → WebhookEvent
    → Action World Bool
dedup (some e) handler event w = (ok false, w)
dedup none handler event w = mark_and_finish event (handler event w)

-- The answer is the field `handled`. The handler of the event's type is `handle_event`; it is an
-- argument of the first function, which is the deduplication around any handler.
unfoldable pub handle_webhook_with :
    (WebhookEvent → Action World Unit) → WebhookEvent → Action World Bool
handle_webhook_with handler event = do
  already ← find webhook_table (webhook_with_id event.id)
  dedup already handler event

unfoldable pub handle_webhook_event : WebhookEvent → Action World Bool
unfolding handle_webhook_with handle_event
handle_webhook_event event = handle_webhook_with handle_event event
