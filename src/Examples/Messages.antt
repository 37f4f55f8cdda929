-- ===== src/Examples/Messages.antt =====
-- Notifications, estimates and idempotent requests on concrete values.
use marhaba_delivery_v.Prelude.{◌≡◌, refl, true, false, [], ◌∷◌, some, nat_eq, string_eq, arith}
use marhaba_delivery_v.Prelude.Rows.{find_first}
use marhaba_delivery_v.Prelude.Action.{Outcome, ok, throws, type_error}
use marhaba_delivery_v.Shared.Enums.{NotificationChannel}
use marhaba_delivery_v.Api.Notifications.{Inbox, SendNotificationInput, send_with}
use marhaba_delivery_v.Api.Notifications.Feed.{final_rows, send_settles}
use marhaba_delivery_v.Api.Eta.{EtaConfig, EtaCache, estimate_seconds, compute_seconds}
use marhaba_delivery_v.Api.Eta.Cache.{at, estimate_is_kept}
use marhaba_delivery_v.Api.Idempotency.{KeyMethodPath}
use marhaba_delivery_v.Api.Idempotency.Steps.{Request, arriving, Store}
use marhaba_delivery_v.Examples.Data.{home, point}

abbrev news : SendNotificationInput
news = record {
  user_id = "u1";
  channels = NotificationChannel.in_app ∷ NotificationChannel.sms ∷ [];
  title = "On its way";
  body = "Your order is on its way";
  order_id = some "o1";
}

abbrev inbox : Inbox
inbox = record { now = 1000; next_id = 1; notifications = []; push_tokens = [] }

-- A text message cannot be sent.
abbrev no_texts : NotificationChannel → SendNotificationInput → Outcome Unit
no_texts NotificationChannel.sms input = throws type_error
no_texts channel input = ok tt

send_settles_example :
    (send_with no_texts news inbox).1.notifications ≡ final_rows no_texts news news.channels 1 1000
send_settles_example = send_settles no_texts news inbox tt

abbrev with_token : EtaConfig
with_token = record {
  has_token = true;
  cache_ttl = 60;
  mapbox = λ from to. some 540;
  great_circle = λ from to. 720;
}

abbrev without_token : EtaConfig
without_token = record with_token { has_token = false }

abbrev nothing_cached : EtaCache
nothing_cached = record { now = 1000; entries = [] }

estimate_is_kept_example :
    (540 ≡ compute_seconds with_token home.point (point 553_000_000))
    × (estimate_seconds without_token home.point
          (point 553_000_000)
          (at 50000 (estimate_seconds with_token home.point (point 553_000_000) nothing_cached).1)
        ≡ (
          540,
          at 50000 (estimate_seconds with_token home.point (point 553_000_000) nothing_cached).1,
        ))
unfolding find_first estimate_seconds
estimate_is_kept_example =
    estimate_is_kept with_token without_token home.point (point 553_000_000) nothing_cached
      home.point (point 553_000_000) 50000 refl refl (omega arith)

abbrev key : KeyMethodPath
key = record { key = "k1"; method = "POST"; path = "/orders" }

abbrev order_request : Request
order_request = record {
  id = key;
  request_hash = "h";
  user_id = some "u1";
  status_code = 201;
  body = some "{}";
  phase = arriving;
}

abbrev no_keys : Store
no_keys = record { keys = record { now = 1000; rows = []; locks = [] }; started = [] }
