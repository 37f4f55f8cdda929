-- ===== src/Api/Routes.antt =====
-- The routes that change orders, deliveries, payments and drivers, as the controllers of packages/api
-- compose them: the roles of a route (RolesGuard), then the service with what the route passes on
-- (orders.controller.ts, delivery.controller.ts, payments.controller.ts, drivers.controller.ts in
-- packages/api/src/modules). The user is the one that the JWT guard has put on the request, and a
-- body is one that the schema of its route accepts, but for the checks written out here. Ids, order
-- references and one-time codes, which the server draws, are arguments. Besides requests, a job of the
-- queue may run, Stripe may call the webhook, and time passes.
pub mod Acceptance
pub mod Keeping
pub mod Services
pub mod Creating
pub mod Storing
pub mod Progress
pub mod Reported
pub mod Access
pub mod Soundness
pub mod Settling
use marhaba_delivery_v.Prelude.{
  ℕ, ◌+◌, String, Bool, ◌&&◌, ◌||◌, List, [], ◌∷◌, Option, none, some, ◌==◌, is_truthy,
  if◌then◌else◌,
}
use marhaba_delivery_v.Prelude.Rows.{find_first}
use marhaba_delivery_v.Prelude.Action.{
  Action, Outcome, ok, throws, Exception, bad_request, unique_violation, pure, throw_unless, ◌>>◌,
}
use marhaba_delivery_v.Shared.Enums.{
  UserRole, OrderStatus, ActorType, DriverStatus, ProofOfDeliveryType,
}
use marhaba_delivery_v.Shared.Enums.Equality.{proof_type_eq}
use marhaba_delivery_v.Api.World.{World, Job, Order, with_id}
use marhaba_delivery_v.Api.Zones.{Site, is_some}
use marhaba_delivery_v.Api.Orders.{
  AuthenticatedUser, Actor, TransitionOrderInput, transition, place, staff_roles,
}
use marhaba_delivery_v.Api.Orders.Creation.{CreateOrderInput, create_order}
use marhaba_delivery_v.Api.Assignment.{AssignOrderInput, assign, unassign}
use marhaba_delivery_v.Api.Drivers.{set_status}
use marhaba_delivery_v.Api.Delivery.{RecordDeliveryFailureInput, record_failure}
use marhaba_delivery_v.Api.Delivery.Completion.{SubmitProofInput, issue_otp, submit_proof}
use marhaba_delivery_v.Api.Payments.{Stripe, create_payment_intent, confirm_cash}
use marhaba_delivery_v.Api.Payments.Events.{WebhookEvent, handle_webhook_event}
use marhaba_delivery_v.Api.Scheduler.{process}
use marhaba_delivery_v.Api.Guards.{roles_guard}

-- `{ reason }` of a cancellation.
pub record CancelOrderInput : Type 0 where
  pub reason : String

pub data Request : Type 0 where
  create : String → String → CreateOrderInput → Request
  place_order unassign_order : String → Request
  transition_order : String → TransitionOrderInput → Request
  assign_order : String → AssignOrderInput → Request
  cancel : String → CancelOrderInput → Request
  fail_delivery : String → RecordDeliveryFailureInput → Request
  issue_code : String → String → Request
  deliver : String → SubmitProofInput → Request
  create_intent : String → Request
  collect_cash : String → ℕ → Request
  change_status : DriverStatus → Request

-- `@Roles(…)`; a route without it is open to every user.
unfoldable pub roles_of : Request → List UserRole
roles_of (create id reference input) = UserRole.client ∷ []
roles_of (place_order id) = UserRole.client ∷ []
roles_of (unassign_order id) = staff_roles
roles_of (transition_order id input) =
    UserRole.dispatcher ∷ UserRole.manager ∷ UserRole.admin ∷ UserRole.driver ∷ []
roles_of (assign_order id input) = staff_roles
roles_of (cancel id input) = []
roles_of (fail_delivery id input) =
    UserRole.driver ∷ UserRole.dispatcher ∷ UserRole.manager ∷ UserRole.admin ∷ []
roles_of (issue_code id code) =
    UserRole.driver ∷ UserRole.dispatcher ∷ UserRole.manager ∷ UserRole.admin ∷ []
roles_of (deliver id input) = UserRole.driver ∷ []
roles_of (create_intent id) = UserRole.client ∷ []
roles_of (collect_cash id collected) = UserRole.driver ∷ []
roles_of (change_status status) = UserRole.driver ∷ []

-- `user.role as ActorType`: the member of the same name.
abbrev pub actor_type : UserRole → ActorType
actor_type UserRole.client = ActorType.client
actor_type UserRole.driver = ActorType.driver
actor_type UserRole.dispatcher = ActorType.dispatcher
actor_type UserRole.manager = ActorType.manager
actor_type UserRole.admin = ActorType.admin

abbrev pub actor_of : AuthenticatedUser → Actor
actor_of user = record { type = actor_type user.role; id = some user.id }

abbrev pub cancel_input : CancelOrderInput → TransitionOrderInput
cancel_input input = record {
  to = OrderStatus.cancelled;
  reason = some input.reason;
  metadata = none;
}

-- The refinement of submitProofOfDeliverySchema: the payload matches the type.
abbrev pub matches_type : SubmitProofInput → Bool
matches_type v =
    v.type == ProofOfDeliveryType.photo && is_truthy (some v.photo_key)
    || (v.type == ProofOfDeliveryType.signature && is_truthy (some v.signature_key)
        || v.type == ProofOfDeliveryType.otp_code && is_truthy v.otp_code)

abbrev pub bad_proof : Exception
bad_proof = bad_request "Validation failed"

-- What the routes' answers are is the services' matter; here only whether they threw.
abbrev pub discard : {A : Type 0} → Action World A → Action World Unit
discard m = m >> pure tt

-- What happens to the system.
pub data Happening : Type 0 where
  requested : AuthenticatedUser → Request → Happening
  job_ran : Job → Happening
  stripe_called : WebhookEvent → Happening
  time_passed : ℕ → Happening

pub record Deployment : Type 0 where
  pub site : Site
  pub stripe : Option Stripe
  pub public_url : Option String

module _ (d : Deployment) where
  -- The primary key refuses an id that is taken.
  unfoldable pub create_fresh : String → String → String → CreateOrderInput → Action World Order
  create_fresh id reference client_id input w =
      if is_some (find_first (with_id id) w.orders)
      then (throws unique_violation, w)
      else create_order d.site id reference client_id input w

  -- The body of a route.
  unfoldable pub handle : AuthenticatedUser → Request → Action World Unit
  handle user (create id reference input) = discard (create_fresh id reference user.id input)
  handle user (place_order id) = discard (place id user)
  handle user (unassign_order id) = discard (unassign id user.id)
  handle user (transition_order id input) = discard (transition id input (actor_of user))
  handle user (assign_order id input) = discard (assign d.site id input user.id)
  handle user (cancel id input) = discard (transition id (cancel_input input) (actor_of user))
  handle user (fail_delivery id input) = discard (record_failure id user.id input)
  handle user (issue_code id code) = discard (issue_otp id code)
  handle user (deliver id input) = do
    throw_unless (matches_type input) bad_proof
    discard (submit_proof d.public_url id user.id input)
  handle user (create_intent id) = discard (create_payment_intent d.stripe id user.id)
  handle user (collect_cash id collected) = discard (confirm_cash id collected)
  handle user (change_status status) = discard (set_status user.id status)

  -- A route behind its guard.
  unfoldable pub serve : AuthenticatedUser → Request → Action World Unit
  unfolding handle
  serve user request w = run (roles_guard (roles_of request) (some user))
    where
      run : Outcome Unit → Outcome Unit × World
      run (ok u) = handle user request w
      run (throws e) = (throws e, w)

  unfoldable pub step : Happening → World → World
  unfolding serve
  step (requested user request) w = (serve user request w).1
  step (job_ran job) w = (process job w).1
  step (stripe_called event) w = (handle_webhook_event event w).1
  step (time_passed ms) w = record w { now = w.now + ms }

  unfoldable pub run : List Happening → World → World
  unfolding step
  run [] w = w
  run (h ∷ happenings) w = run happenings (step h w)
