-- ===== src/Api/Routes/Settling.antt =====
-- What the payments service (packages/api/src/modules/payments) keeps of the link between drivers and
-- orders and of the audit log: its events name no status.
use marhaba_delivery_v.Prelude.{
  ℕ, String, refl, [], ◌∷◌, Option, none, some, ◌==◌, string_eq, is_truthy, Bool,
}
use marhaba_delivery_v.Prelude.Rows.{find_first}
use marhaba_delivery_v.Prelude.Action.{
  Action, Outcome, ok, throws, not_found, bad_request, upsert, upsert_row,
}
use marhaba_delivery_v.Prelude.Keeps.{
  Keeps, bind-Keeps, then-Keeps, pure-Keeps, or_throw-Keeps, either-Keeps, find-Keeps,
  throw_unless-Keeps, state-Keeps,
}
use marhaba_delivery_v.Shared.Enums.{
  OrderStatus, OrderEventType, ActorType, PaymentMethod, PaymentStatus,
}
use marhaba_delivery_v.Shared.Enums.Equality.{method_eq}
use marhaba_delivery_v.Api.World.{
  World, Order, Payment, ProcessedWebhookEvent, order_table, payment_table, webhook_table, with_id,
  text, number,
}
use marhaba_delivery_v.Api.Payments.{
  Stripe, create_payment_intent, confirm_cash, reuse_or_create, call_stripe, payment_of_order,
  card_row, initiated_args, in_flight, reuse, cash_row, payment_args,
}
use marhaba_delivery_v.Api.Payments.Events.{
  WebhookObject, WebhookEvent, handle_webhook_event, handle_webhook_with, handle_event, capture,
  mark_failed, mark_refunded, refunded_amount, succeeded_for, failed_for, refunded_for, for_order,
  update_payments, dedup, finish, webhook_with_id,
}
use marhaba_delivery_v.Api.Routes.Keeping.{IsSound, record_event-Keeps, emit-Keeps}

upsert_payment-Keeps :
    (q : Payment → Bool) (r : Payment) (f : Payment → Payment)
    → Keeps IsSound (upsert payment_table q r f)
upsert_payment-Keeps q r f = state-Keeps (upsert payment_table q r f) λ w s.
    elim (find_first q w.payments) as (λ o. IsSound (upsert_row payment_table o q r f w).1) [
      | none ↦ s
      | some p ↦ s
    ]

call_stripe-Keeps : (stripe : Option Stripe) (o : Order) → Keeps IsSound (call_stripe stripe o)
call_stripe-Keeps none o = state-Keeps (call_stripe none o) (λ w s. s)
call_stripe-Keeps (some stripe) o = state-Keeps (call_stripe (some stripe) o) (λ w s. s)

reuse_or_create-Keeps :
    (p : Option Payment) (stripe : Option Stripe) (o : Order) (user : String)
    → Keeps IsSound (reuse_or_create p stripe o user)
reuse_or_create-Keeps (some p) stripe o user = pure-Keeps (reuse p)
reuse_or_create-Keeps none stripe o user = bind-Keeps (call_stripe-Keeps stripe o) λ intent.
    bind-Keeps
      (upsert_payment-Keeps (payment_of_order o.id) (card_row o intent) (λ p. record p {
        stripe_payment_intent_id = some intent.id;
        status = PaymentStatus.pending;
      }))
      λ payment. then-Keeps (record_event-Keeps (initiated_args o user intent) refl refl) (
        pure-Keeps (record {
          payment_order = payment.order_id;
          client_secret = intent.client_secret;
          status = PaymentStatus.pending;
          amount_minor = o.total_minor;
          currency = o.currency;
        }))

pub create_payment_intent-Keeps :
    (stripe : Option Stripe) (id user : String)
    → Keeps IsSound (create_payment_intent stripe id user)
unfolding create_payment_intent
create_payment_intent-Keeps stripe id user = bind-Keeps (find-Keeps order_table (with_id id)) λ row.
    bind-Keeps (or_throw-Keeps row (not_found "Order not found")) λ order.
      then-Keeps (throw_unless-Keeps (order.client_id == user) (bad_request "Not your order")) (
        then-Keeps
          (throw_unless-Keeps (order.payment_method == PaymentMethod.card)
            (bad_request "Order is not a card order"))
          (bind-Keeps (find-Keeps payment_table (payment_of_order id))
            λ payment. reuse_or_create-Keeps (in_flight payment) stripe order user))

pub confirm_cash-Keeps : (id : String) (collected : ℕ) → Keeps IsSound (confirm_cash id collected)
unfolding confirm_cash
confirm_cash-Keeps id collected = bind-Keeps (find-Keeps order_table (with_id id)) λ row.
    bind-Keeps (or_throw-Keeps row (not_found "Order not found")) λ order.
      then-Keeps
        (throw_unless-Keeps (order.payment_method == PaymentMethod.cash_on_delivery)
          (bad_request "Order is not cash-on-delivery"))
        (bind-Keeps
          (upsert_payment-Keeps (payment_of_order id) (cash_row order collected)
            (λ p. record p { status = PaymentStatus.captured; collected_minor = some collected }))
          λ payment.
            then-Keeps
              (record_event-Keeps
                (payment_args id OrderEventType.payment_succeeded ActorType.driver
                  (("method", text "CASH") ∷ ("collectedMinor", number collected) ∷ []))
                refl refl)
              (pure-Keeps payment))

update_payments-Keeps : (id : String) (f : Payment → Payment) → Keeps IsSound (update_payments id f)
update_payments-Keeps id f = state-Keeps (update_payments id f) (λ w s. s)

succeeded-Keeps : (id : String) (o : WebhookObject) → Keeps IsSound (succeeded_for id o)
succeeded-Keeps id o = then-Keeps (update_payments-Keeps id (capture o)) (
    then-Keeps
      (record_event-Keeps
        (payment_args id OrderEventType.payment_succeeded ActorType.webhook
          (("paymentIntentId", text o.id) ∷ []))
        refl refl)
      (emit-Keeps id OrderStatus.placed (("paid", text "true") ∷ [])))

failed-Keeps : (id : String) (o : WebhookObject) → Keeps IsSound (failed_for id o)
failed-Keeps id o = then-Keeps (update_payments-Keeps id mark_failed) (
    then-Keeps
      (record_event-Keeps
        (payment_args id OrderEventType.payment_failed ActorType.webhook
          (("paymentIntentId", text o.id) ∷ []))
        refl refl)
      (pure-Keeps tt))

refunded-Keeps : (id : String) (o : WebhookObject) → Keeps IsSound (refunded_for id o)
refunded-Keeps id o = then-Keeps (update_payments-Keeps id (mark_refunded o)) (
    then-Keeps
      (record_event-Keeps
        (payment_args id OrderEventType.refunded ActorType.webhook
          (("amountRefunded", number (refunded_amount o.amount_refunded)) ∷ []))
        refl refl)
      (pure-Keeps tt))

for_order-Keeps :
    (id : Option String) (handler : String → WebhookObject → Action World Unit) (o : WebhookObject)
    → ((id : String) → Keeps IsSound (handler id o))
    → Keeps IsSound (for_order id handler o)
for_order-Keeps none handler o h = pure-Keeps tt
for_order-Keeps (some id) handler o h = either-Keeps (is_truthy (some id)) (h id) (pure-Keeps tt)

handle_event-Keeps : (e : WebhookEvent) → Keeps IsSound (handle_event e)
unfolding handle_event
handle_event-Keeps e =
    let id = e.object.order_id in
    either-Keeps (e.type == "payment_intent.succeeded")
      (for_order-Keeps id succeeded_for e.object (λ i. succeeded-Keeps i e.object))
      (either-Keeps (e.type == "payment_intent.payment_failed")
        (for_order-Keeps id failed_for e.object (λ i. failed-Keeps i e.object))
        (either-Keeps (e.type == "charge.refunded")
          (for_order-Keeps id refunded_for e.object (λ i. refunded-Keeps i e.object))
          (pure-Keeps tt)))

finish-IsSound : (r : Outcome Unit) (w : World) → IsSound w → IsSound (finish r w).1
finish-IsSound (ok u) w s = s
finish-IsSound (throws e) w s = s

dedup-Keeps :
    (o : Option ProcessedWebhookEvent) (e : WebhookEvent) → Keeps IsSound (dedup o handle_event e)
dedup-Keeps (some p) e = state-Keeps (dedup (some p) handle_event e) (λ w s. s)
dedup-Keeps none e =
    state-Keeps (dedup none handle_event e)
      λ w s. finish-IsSound (handle_event e w).0 _ ((handle_event-Keeps e).kept w s)

pub handle_webhook_event-Keeps : (e : WebhookEvent) → Keeps IsSound (handle_webhook_event e)
unfolding handle_webhook_event handle_webhook_with
handle_webhook_event-Keeps e =
    bind-Keeps (find-Keeps webhook_table (webhook_with_id e.id)) λ already. dedup-Keeps already e
