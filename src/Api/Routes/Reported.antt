-- ===== src/Api/Routes/Reported.antt =====
-- AnalyticsService.driverPerformance (packages/api/src/modules/analytics/analytics.service.ts) over the
-- audit log that the routes write.
use mathlib.Core.List.{Memᴰ}
use marhaba_delivery_v.Prelude.{
  ℕ, String, ◌≡◌, refl, ap, false, List, [], ◌∷◌, none, some, arith, ◌==◌, inl, inr, Option-cases,
  Bool-cases, Bool,
}
use marhaba_delivery_v.Prelude.Rows.{
  find_first, find_many, find_first_meets, mem_of_find_many, All-mem,
}
use marhaba_delivery_v.Prelude.Sorting.{mem_of_sort_by}
use marhaba_delivery_v.Shared.Enums.{OrderEventType}
use marhaba_delivery_v.Shared.Enums.Equality.{event_type_eq}
use marhaba_delivery_v.Api.World.{World, Order, event_of_order}
use marhaba_delivery_v.Api.Analytics.{events_of, tally_all, driver_performance, in_window, avg}
use marhaba_delivery_v.Api.Routes.{Deployment, Happening, run}
use marhaba_delivery_v.Api.Routes.Acceptance.{IsUnaccepted, is_acceptance}
use marhaba_delivery_v.Api.Routes.Keeping.{IsSound}
use marhaba_delivery_v.Api.Routes.Soundness.{run-IsSound}

find_first-mem :
    {V : Type 0} (p : V → Bool) (rows : List V) (r : V) → find_first p rows ≡ some r → Memᴰ r rows
unfolding find_first
find_first-mem p [] r h = cc
find_first-mem p (x ∷ rows) r h = elim (Bool-cases (p x)) [
  | inl there ↦ Memᴰ.head (ground (arith, there))
  | inr away ↦ Memᴰ.tail (find_first-mem p rows r (ground (arith, away)))
]

never_accepted :
    (w : World) (o : Order)
    → IsUnaccepted w
    → find_first (λ e. e.type == OrderEventType.driver_accepted) (events_of w o) ≡ none
never_accepted w o none_ = elim (Option-cases (find_first is_acceptance (events_of w o))) [
  | inl nothing ↦ nothing
  | inr (e, found) ↦
      let log = find_many (event_of_order o.id) w.order_events in
      let there = mem_of_find_many (event_of_order o.id) w.order_events e (
        mem_of_sort_by (λ x. x.created_at) e log
          (find_first-mem is_acceptance (events_of w o) e found)) in
      let no = All-mem (λ x. is_acceptance x ≡ false) w.order_events e none_ there in
      let yes_ = find_first_meets is_acceptance (events_of w o) e found in ground (arith, no, yes_)
]

nothing_measured :
    (w : World) (orders : List Order)
    → IsUnaccepted w
    → ((tally_all w orders).accept ≡ []) × ((tally_all w orders).pickup ≡ [])
unfolding tally_all
nothing_measured w [] none_ = (refl, refl)
nothing_measured w (o ∷ orders) none_ =
    let rest = nothing_measured w orders none_ in
    let never = never_accepted w o none_ in
    (ground (arith, rest.0, never), ground (arith, rest.1, never))

-- Whatever a server has handled since its tables were sound, as the empty ones are, no report has an
-- average time to accept an order, nor to pick one up.
pub acceptance_unmeasured :
    (d : Deployment) (happenings : List Happening) (w : World) (driver : String) (from to : ℕ)
    → IsSound w
    → let report = driver_performance driver from to (run d happenings w) in
      (report.avg_accept_seconds ≡ none) × (report.avg_pickup_seconds ≡ none)
unfolding driver_performance avg
acceptance_unmeasured d happenings w driver from to sound =
    let after = run d happenings w in
    let (accept, pickup) =
      nothing_measured after (find_many (in_window driver from to) after.orders)
        (run-IsSound d happenings w sound).2 in
    (ap avg accept, ap avg pickup)
