-- ===== src/Api/Routes/Soundness.antt =====
-- The whole of packages/api, as Api.Routes composes it: what holds after any sequence of requests, jobs
-- and webhooks.
use mathlib.Core.List.{Memᴰ}
use marhaba_delivery_v.Prelude.{String, ◌≡◌, List, [], ◌∷◌, some, inl, inr}
use marhaba_delivery_v.Prelude.Rows.{All-mem}
use marhaba_delivery_v.Prelude.Action.{Action, outcome-cases}
use marhaba_delivery_v.Prelude.Keeps.{Keeps, then-Keeps, pure-Keeps, throw_unless-Keeps}
use marhaba_delivery_v.Api.World.{World, Order, DriverProfile}
use marhaba_delivery_v.Api.Orders.{AuthenticatedUser}
use marhaba_delivery_v.Api.Audit.{logged}
use marhaba_delivery_v.Api.Assignment.Outcomes.{active_order_unique}
use marhaba_delivery_v.Api.Guards.{roles_guard}
use marhaba_delivery_v.Api.Routes.{
  Request, create, place_order, unassign_order, transition_order, assign_order, cancel,
  fail_delivery, issue_code, deliver, create_intent, collect_cash, change_status, roles_of,
  actor_of, cancel_input, matches_type, bad_proof, discard, Deployment, handle, serve, Happening,
  requested, job_ran, stripe_called, time_passed, step, run,
}
use marhaba_delivery_v.Api.Routes.Keeping.{
  IsSound, transition-Keeps, unassign-Keeps, assign-Keeps, place-Keeps,
}
use marhaba_delivery_v.Api.Routes.Services.{
  record_failure-Keeps, issue_otp-Keeps, submit_proof-Keeps, set_status-Keeps, process-Keeps,
}
use marhaba_delivery_v.Api.Routes.Settling.{
  create_payment_intent-Keeps, confirm_cash-Keeps, handle_webhook_event-Keeps,
}
use marhaba_delivery_v.Api.Routes.Creating.{create_fresh-Keeps}

discard-Keeps : {A : Type 0} (m : Action World A) → Keeps IsSound m → Keeps IsSound (discard m)
discard-Keeps m h = then-Keeps h (pure-Keeps tt)

module _ (d : Deployment) where
  handle-Keeps :
      (user : AuthenticatedUser) (request : Request) → Keeps IsSound (handle d user request)
  unfolding handle
  handle-Keeps user (create id reference input) =
      discard-Keeps _ (create_fresh-Keeps d id reference user.id input)
  handle-Keeps user (place_order id) = discard-Keeps _ (place-Keeps id user)
  handle-Keeps user (unassign_order id) = discard-Keeps _ (unassign-Keeps id user.id)
  handle-Keeps user (transition_order id input) =
      discard-Keeps _ (transition-Keeps id input (actor_of user))
  handle-Keeps user (assign_order id input) = discard-Keeps _ (assign-Keeps d.site id input user.id)
  handle-Keeps user (cancel id input) =
      discard-Keeps _ (transition-Keeps id (cancel_input input) (actor_of user))
  handle-Keeps user (fail_delivery id input) =
      discard-Keeps _ (record_failure-Keeps id user.id input)
  handle-Keeps user (issue_code id code) = discard-Keeps _ (issue_otp-Keeps id code)
  handle-Keeps user (deliver id input) =
      then-Keeps (throw_unless-Keeps (matches_type input) bad_proof)
        (discard-Keeps _ (submit_proof-Keeps d.public_url id user.id input))
  handle-Keeps user (create_intent id) =
      discard-Keeps _ (create_payment_intent-Keeps d.stripe id user.id)
  handle-Keeps user (collect_cash id collected) = discard-Keeps _ (confirm_cash-Keeps id collected)
  handle-Keeps user (change_status status) = discard-Keeps _ (set_status-Keeps user.id status)

  serve-IsSound :
      (user : AuthenticatedUser) (request : Request) (w : World)
      → IsSound w
      → IsSound (serve d user request w).1
  unfolding serve
  serve-IsSound user request w sound =
      elim (outcome-cases (roles_guard (roles_of request) (some user))) [
        | inl (u, allowed) ↦ rw allowed ((handle-Keeps user request).kept w sound)
        | inr (e, refused) ↦ rw refused sound
      ]

  step-IsSound : (h : Happening) (w : World) → IsSound w → IsSound (step d h w)
  unfolding step
  step-IsSound (requested user request) w sound = serve-IsSound user request w sound
  step-IsSound (job_ran job) w sound = (process-Keeps job).kept w sound
  step-IsSound (stripe_called event) w sound = (handle_webhook_event-Keeps event).kept w sound
  step-IsSound (time_passed ms) w sound = sound

  -- Whatever requests of whatever users, jobs and webhooks a server handles, and however much time
  -- passes between them: if every active order of a driver is assigned to that driver, the audit log
  -- is in step with the orders' statuses and has no event that a driver accepted an order, as in an
  -- empty database, all this is so afterwards.
  pub run-IsSound :
      (happenings : List Happening) (w : World) → IsSound w → IsSound (run d happenings w)
  unfolding run
  run-IsSound [] w sound = sound
  run-IsSound (h ∷ happenings) w sound =
      run-IsSound happenings (step d h w) (step-IsSound h w sound)

  -- So after any run, the status of every order in the table is the last one that the order's audit
  -- log names.
  pub run-logged :
      (happenings : List Happening) (w : World) (o : Order)
      → IsSound w
      → Memᴰ o (run d happenings w).orders
      → logged o.id (run d happenings w).order_events ≡ some o.status
  run-logged happenings w o sound m =
      let after = run d happenings w in
      let kept = run-IsSound happenings w sound in
      All-mem (λ x. logged x.id after.order_events ≡ some x.status) after.orders o kept.1 m

  -- After any run, two drivers in the table with the same active order are the same driver.
  pub run_active_unique :
      (happenings : List Happening) (w : World) (a b : DriverProfile) (order_id : String)
      → IsSound w
      → Memᴰ a (run d happenings w).drivers
      → Memᴰ b (run d happenings w).drivers
      → a.active_order_id ≡ some order_id
      → b.active_order_id ≡ some order_id
      → a.id ≡ b.id
  run_active_unique happenings w a b order_id sound ma mb ha hb =
      active_order_unique (run d happenings w) a b order_id (run-IsSound happenings w sound).0 ma mb
        ha hb
