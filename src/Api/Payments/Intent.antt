-- ===== src/Api/Payments/Intent.antt =====
-- PaymentsService.createPaymentIntent and confirmCash
-- (packages/api/src/modules/payments/payments.service.ts).
use marhaba_delivery_v.Prelude.{
  ℕ, String, ◌≡◌, true, Option, some, arith, string_eq, eq_iff, is_truthy, Option-cases, inl, inr,
}
use marhaba_delivery_v.Prelude.Rows.{find_first}
use marhaba_delivery_v.Prelude.Action.{ok, throws, Exception}
use marhaba_delivery_v.Shared.Enums.{PaymentMethod, PaymentStatus}
use marhaba_delivery_v.Shared.Enums.Equality.{method_eq}
use marhaba_delivery_v.Api.World.{World, Order, Payment, with_id}
use marhaba_delivery_v.Api.Payments.{
  Stripe, PaymentIntentResponse, create_payment_intent, confirm_cash, payment_of_order, reuse,
}

module _ (stripe : Option Stripe) (order_id user_id : String) (w : World) where
  -- A payment that already has an intent is answered from the database: Stripe is not called, whether
  -- it is configured or not, and nothing is written.
  pub create_payment_intent-reuse :
      (o : Order) (p : Payment) (intent : String)
      → find_first (with_id order_id) w.orders ≡ some o
      → o.client_id ≡ user_id
      → o.payment_method ≡ PaymentMethod.card
      → find_first (payment_of_order order_id) w.payments ≡ some p
      → p.stripe_payment_intent_id ≡ some intent
      → is_truthy (some intent) ≡ true
      → create_payment_intent stripe order_id user_id w ≡ (ok (reuse p), w)
  unfolding create_payment_intent
  create_payment_intent-reuse o p intent found own card there has truthy =
      ground (arith, eq_iff o.client_id user_id)

  -- An error leaves the database as it was.
  pub create_payment_intent_atomic :
      (e : Exception)
      → (create_payment_intent stripe order_id user_id w).0 ≡ throws e
      → (create_payment_intent stripe order_id user_id w).1 ≡ w
  unfolding create_payment_intent
  create_payment_intent_atomic e h = ground arith

  -- A response belongs to a card order of the user who asks, and afterwards the order has a payment,
  -- the one that had an intent before or one that is pending at the intent which Stripe has made.
  pub create_payment_intent_ok :
      (r : PaymentIntentResponse)
      → (create_payment_intent stripe order_id user_id w).0 ≡ ok r
      → (o : Order) × (find_first (with_id order_id) w.orders ≡ some o)
        × (o.client_id ≡ user_id)
        × (o.payment_method ≡ PaymentMethod.card)
        × ((create_payment_intent stripe order_id user_id w).1.orders ≡ w.orders)
  unfolding create_payment_intent
  create_payment_intent_ok r h = elim (Option-cases (find_first (with_id order_id) w.orders)) [
    | inl missing ↦ ground arith
    | inr (o, found) ↦
        (o, found, ground (arith, eq_iff o.client_id user_id), ground arith, ground arith)
  ]

  pub confirm_cash_ok :
      (collected : ℕ) (p : Payment)
      → (confirm_cash order_id collected w).0 ≡ ok p
      → (p.status ≡ PaymentStatus.captured)
        × (p.collected_minor ≡ some collected)
        × ((confirm_cash order_id collected w).1.orders ≡ w.orders)
  unfolding confirm_cash
  confirm_cash_ok collected p h = (ground arith, ground arith, ground arith)
