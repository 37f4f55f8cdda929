-- ===== src/Examples/Payments.antt =====
-- Payments and idempotency keys on concrete values.
use marhaba_delivery_v.Prelude.{ℕ, ◌≡◌, refl, ◌+◌, ◌≤◌, true, false, [], ◌∷◌, none, some, arith}
use marhaba_delivery_v.Prelude.Rows.{find_first, count}
use marhaba_delivery_v.Prelude.Action.{Action, ok, throws, not_found}
use marhaba_delivery_v.Shared.Enums.{OrderStatus, PaymentMethod, PaymentStatus}
use marhaba_delivery_v.Api.World.{World, Payment}
use marhaba_delivery_v.Api.Payments.{create_payment_intent, reuse}
use marhaba_delivery_v.Api.Payments.Events.{WebhookEvent, handle_event, handle_webhook_with}
use marhaba_delivery_v.Api.Payments.Webhook.{second_delivery}
use marhaba_delivery_v.Api.Payments.Intent.{create_payment_intent-reuse}
use marhaba_delivery_v.Api.Idempotency.{KeyMethodPath, Keys, Handler, intercept, in_progress}
use marhaba_delivery_v.Api.Idempotency.Replay.{replays, failure_blocks}
use marhaba_delivery_v.Api.Idempotency.Steps.{
  Request, run, starts, starts_once, resume, wait, arriving,
}
use marhaba_delivery_v.Examples.Data.{order_in, world_of}

abbrev payment : Payment
payment = record {
  order_id = "o1";
  method = PaymentMethod.card;
  status = PaymentStatus.pending;
  amount_minor = 6000;
  currency = "AED";
  stripe_payment_intent_id = some "pi_1";
  stripe_charge_id = none;
  refunded_minor = 0;
  collected_minor = none;
}

abbrev paying : World
paying = record (world_of (order_in OrderStatus.placed none ∷ []) []) { payments = payment ∷ [] }

abbrev succeeded : WebhookEvent
succeeded = record {
  id = "evt_1";
  type = "payment_intent.succeeded";
  object = record {
    id = "pi_1";
    order_id = some "o1";
    latest_charge = some "ch_1";
    amount_refunded = none;
  };
}

-- A handler that fails, as the database may.
abbrev failing : WebhookEvent → Action World Unit
failing event w = (throws (not_found "down"), w)

second_delivery_example :
    handle_webhook_with handle_event succeeded (handle_webhook_with handle_event succeeded paying).1
    ≡ (ok false, (handle_webhook_with handle_event succeeded paying).1)
second_delivery_example = second_delivery handle_event succeeded paying

create_payment_intent-reuse_test :
    create_payment_intent none "o1" "u1" paying ≡ (ok (reuse payment), paying)
unfolding find_first
create_payment_intent-reuse_test =
    create_payment_intent-reuse none "o1" "u1" paying (order_in OrderStatus.placed none) payment
      "pi_1" refl refl refl refl refl refl

abbrev no_keys : Keys
no_keys = record { now = 1000; rows = []; locks = [] }

-- A handler that counts its runs, and one that fails.
abbrev counts : Handler ℕ
counts n = (ok (201, some "order"), n + 1)

abbrev fails : Handler ℕ
fails n = (throws (not_found "Order not found"), n)

replays_example :
    intercept
      (some "k1")
      "POST"
      "/orders"
      "h1"
      none
      fails
      ((intercept (some "k1") "POST" "/orders" "h1" none counts (no_keys, 0)).1.0, 7)
    ≡ (
      ok (record { status = 201; body = some "order"; replayed = true }),
      ((intercept (some "k1") "POST" "/orders" "h1" none counts (no_keys, 0)).1.0, 7),
    )
unfolding find_first
replays_example =
    replays "k1" "POST" "/orders" "h1" none no_keys
      (intercept (some "k1") "POST" "/orders" "h1" none counts (no_keys, 0)).1.0 0 7 counts fails
      refl refl refl refl 201 "order" 1 refl

failure_blocks_example :
    intercept
      (some "k1")
      "POST"
      "/orders"
      "h1"
      none
      counts
      ((intercept (some "k1") "POST" "/orders" "h1" none fails (no_keys, 0)).1.0, 7)
    ≡ (
      throws in_progress,
      ((intercept (some "k1") "POST" "/orders" "h1" none fails (no_keys, 0)).1.0, 7),
    )
unfolding find_first
failure_blocks_example =
    failure_blocks "k1" "POST" "/orders" "h1" none no_keys
      (intercept (some "k1") "POST" "/orders" "h1" none fails (no_keys, 0)).1.0 0 7 fails counts
      refl refl refl refl (not_found "Order not found") 0 refl

abbrev order_key : KeyMethodPath
order_key = record { key = "k1"; method = "POST"; path = "/orders" }

abbrev arrives : Request
arrives = record {
  id = order_key;
  request_hash = "h1";
  user_id = none;
  status_code = 201;
  body = some "order";
  phase = arriving;
}

-- Two requests that look at the table before either has written its row, the second of which locks
-- the key when the lock of the first has expired.
starts_once_example :
    count
      (starts order_key)
      (run
        (resume 0 ∷ resume 1 ∷ resume 0 ∷ wait 90_000_000 ∷ resume 1 ∷ resume 0 ∷ resume 1 ∷ [])
        (arrives ∷ arrives ∷ [])
        (record { keys = no_keys; started = [] })).1.started
    ≤ 1
unfolding count
starts_once_example =
    starts_once order_key
      (resume 0 ∷ resume 1 ∷ resume 0 ∷ wait 90_000_000 ∷ resume 1 ∷ resume 0 ∷ resume 1 ∷ [])
      (arrives ∷ arrives ∷ []) no_keys (omega arith)
