-- ===== src/Examples/Apps.antt =====
-- The driver app and the dashboard's client on concrete values.
use marhaba_delivery_v.Prelude.{
  ℕ, String, ◌≡◌, refl, true, false, List, [], ◌∷◌, Option, none, some, arith, if◌then◌else◌,
  length, ◌==◌, nat_eq,
}
use marhaba_delivery_v.Driver.Outbox.{
  Outbox, OutboxRow, Request, cash_confirm, pending, flush_outbox, batch, pending_count,
}
use marhaba_delivery_v.Driver.Outbox.Order.{IsPrefix, flush_outbox-IsPrefix}
use marhaba_delivery_v.Driver.Outbox.Attempts.{IsBounded, flush_outbox-IsBounded}
use marhaba_delivery_v.Driver.Outbox.Lowering.{IsKeyed}
use marhaba_delivery_v.Driver.Outbox.Draining.{flush_all, flush_all_drains}
use marhaba_delivery_v.Prelude.Rows.{count, find_many, update_many}
use marhaba_delivery_v.Prelude.Sorting.{sort_by, insert_by}
use marhaba_delivery_v.Driver.Outbox.{enqueue, flush_rows}
use marhaba_delivery_v.Driver.Location.{Tracker, Fix}
use marhaba_delivery_v.Driver.Location.Throttle.{Wake, IsSpaced, sent_times, location_task-IsSpaced}
use marhaba_delivery_v.Driver.Screen.{
  Platform, Event, typed_order, pressed, flushed, use_app, react, press_transition, installed,
}
use marhaba_delivery_v.Driver.Screen.Queueing.{app_drains}
use marhaba_delivery_v.Shared.Enums.{OrderStatus}
use marhaba_delivery_v.Driver.Client.{Client, Answer, Call, request, refresh, api_fetch, result_of}
use marhaba_delivery_v.Driver.Client.Retry.{api_fetch_refresh}

abbrev row : ℕ → ℕ → OutboxRow
row id tried = record {
  id = id;
  type = cash_confirm;
  payload = record { order_id = "o1"; body = none };
  idempotency_key = none;
  created_at = id;
  attempts = tried;
  last_error = none;
  status = pending;
}

abbrev queue : Outbox
queue = record { next_id = 3; rows = row 1 0 ∷ row 2 7 ∷ []; log = [] }

abbrev no_network : Request → Option String
no_network r = some "Network request failed"

flush_outbox-IsPrefix_example :
    IsPrefix
      (batch queue)
      []
      (flush_outbox (λ s. s) no_network queue).1.log
      0
      (flush_outbox (λ s. s) no_network queue).0
flush_outbox-IsPrefix_example = flush_outbox-IsPrefix (λ s. s) no_network queue

flush_outbox-IsBounded_test : IsBounded (flush_outbox (λ s. s) no_network queue).1
flush_outbox-IsBounded_test =
    flush_outbox-IsBounded (λ s. s) no_network queue (omega arith, (omega arith, tt))

abbrev fix : Fix
fix = record { longitude = "55.27"; latitude = "25.20"; timestamp = 0 }

abbrev tracker : Tracker
tracker = record {
  last_sent_at = 0;
  active_order_id = some "o1";
  connected = true;
  emitted = [];
  outbox = queue;
}

abbrev wakes : List Wake
wakes =
    record { time = 6000; locations = some (fix ∷ []) }
    ∷ record { time = 8000; locations = some (fix ∷ []) }
    ∷ record { time = 11000; locations = some (fix ∷ []) }
    ∷ []

location_task-IsSpaced_example : IsSpaced 0 (sent_times (λ p. "") tracker wakes)
location_task-IsSpaced_example = location_task-IsSpaced (λ p. "") tracker wakes

abbrev phone : Platform
phone = record {
  number_text = λ n. "";
  transition_body = λ to. "";
  otp_body = λ otp position now. "";
  encode = λ ping. "";
  slice = λ s. s;
}

-- The driver picks up an order without a network, and one flush fails.
abbrev trip : List Event
trip = typed_order "o1" ∷ pressed OrderStatus.picked_up 1000 ∷ flushed no_network ∷ []

abbrev dead_zone : List (Request → Option String)
dead_zone =
    no_network ∷ no_network ∷ no_network ∷ no_network ∷ no_network ∷ no_network ∷ no_network
    ∷ no_network ∷ []

app_drains_example :
    pending_count
      (flush_all (λ s. s) dead_zone (use_app phone trip (installed false)).tracker.outbox)
    ≡ 0
unfolding pending_count count use_app react press_transition enqueue flush_outbox flush_rows batch
    find_many sort_by insert_by update_many
app_drains_example = app_drains phone false trip dead_zone (omega arith)

-- The first answer is a 401, every later one is fine.
abbrev server : List Call → Answer
server calls = record { status = if length calls == 1 then 401 else 200; access_token = "new" }

abbrev signed_in : Client
signed_in = record { access = some "old"; refresh_token = some "r"; calls = [] }

abbrev one_row : Outbox
one_row = record { next_id = 2; rows = row 1 7 ∷ []; log = [] }

one_row-IsKeyed : IsKeyed one_row.rows
unfolding count
one_row-IsKeyed id = ground arith

-- Eight flushes without a network.
flush_all_drains_test :
    pending_count (
      flush_all
        (λ s. s)
        (no_network ∷ no_network ∷ no_network ∷ no_network ∷ no_network ∷ no_network ∷ no_network
          ∷ no_network ∷ [])
        one_row)
    ≡ 0
unfolding pending_count count
flush_all_drains_test =
    flush_all_drains (λ s. s)
      (no_network ∷ no_network ∷ no_network ∷ no_network ∷ no_network ∷ no_network ∷ no_network
        ∷ no_network ∷ [])
      one_row one_row-IsKeyed (omega arith, tt) (omega arith)

api_fetch_refresh_example : api_fetch server signed_in ≡ (
  result_of 200,
  record signed_in {
    access = some "new";
    calls = request (some "old") ∷ refresh (some "r") ∷ request (some "new") ∷ [];
  },
)
api_fetch_refresh_example = api_fetch_refresh server signed_in "r" refl refl refl
