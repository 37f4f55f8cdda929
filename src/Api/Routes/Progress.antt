-- ===== src/Api/Routes/Progress.antt =====
-- The way of an order to its door over the routes of packages/api/src/modules: assignment, pick-up, the
-- one-time code and the proof of delivery.
use marhaba_delivery_v.Prelude.{
  String, ◌≡◌, refl, true, ◌||◌, List, [], ◌∷◌, none, some, arith, string_eq, is_truthy, includes,
}
use marhaba_delivery_v.Prelude.Rows.{find_first}
use marhaba_delivery_v.Prelude.Action.{Action, then_pure}
use marhaba_delivery_v.Shared.Enums.{UserRole, OrderStatus, AssignmentMode, ProofOfDeliveryType}
use marhaba_delivery_v.Shared.Enums.Equality.{role_eq, order_status_eq, mode_eq}
use marhaba_delivery_v.Shared.StateMachine.{can_transition}
use marhaba_delivery_v.Api.World.{World, Order, DriverProfile, with_id, driver_with_id}
use marhaba_delivery_v.Api.Orders.{AuthenticatedUser, TransitionOrderInput, transition}
use marhaba_delivery_v.Api.Assignment.{AssignOrderInput, assign}
use marhaba_delivery_v.Api.Assignment.Linked.{assigned_row}
use marhaba_delivery_v.Api.Delivery.Completion.{SubmitProofInput, submit_proof, issue_otp}
use marhaba_delivery_v.Api.Guards.{is_empty}
use marhaba_delivery_v.Api.Routes.{
  Deployment, Request, serve, handle, roles_of, discard, actor_of, Happening, requested, step, run,
  assign_order, transition_order, issue_code, deliver,
}
use marhaba_delivery_v.Api.Routes.Access.{serve_by_roles}
use marhaba_delivery_v.Api.Routes.Storing.{
  IsStored, moved, transition_stores, assign_stores, deliver_stores,
}

roles_include :
    (roles : List UserRole) (user : AuthenticatedUser) {role : UserRole}
    → user.role ≡ role
    → (is_empty roles || includes roles role) ≡ true
    → (is_empty roles || includes roles user.role) ≡ true
roles_include roles user e h = rw e h

module _ (d : Deployment) where
  step_runs :
      {A : Type 0} (user : AuthenticatedUser) (request : Request) (m : Action World A) (w : World)
      → (is_empty (roles_of request) || includes (roles_of request) user.role) ≡ true
      → handle d user request w ≡ discard m w
      → step d (requested user request) w ≡ (m w).1
  unfolding step
  step_runs user request m w open_ body =
      let served : (serve d user request w).1 ≡ (m w).1 =
        rw (serve_by_roles d w user request, open_, body, then_pure m tt w) refl in
      served

  -- A transition, asked for by a driver.
  abbrev pub drive : AuthenticatedUser → String → OrderStatus → Happening
  drive user id to =
      requested user (transition_order id (record { to = to; reason = none; metadata = none }))

  drive_stores :
      (user : AuthenticatedUser) (o : Order) (to : OrderStatus) (w : World)
      → user.role ≡ UserRole.driver
      → IsStored o w
      → can_transition o.status to ≡ true
      → IsStored (moved o to) (step d (drive user o.id to) w)
  unfolding roles_of handle
  drive_stores user o to w driver found allowed =
      let input : TransitionOrderInput = record { to = to; reason = none; metadata = none } in
      let request = transition_order o.id input in
      let run =
        step_runs user request (transition o.id input (actor_of user)) w
          (roles_include (roles_of request) user driver refl) refl in
      rw run (transition_stores o input (actor_of user) w found allowed)

  abbrev pub hand_over : AuthenticatedUser → String → DriverProfile → Happening
  hand_over user id driver =
      requested user
        (assign_order id (record { driver_id = some driver.id; mode = AssignmentMode.manual }))

  hand_over_stores :
      (user : AuthenticatedUser) (o : Order) (driver : DriverProfile) (w : World)
      → user.role ≡ UserRole.dispatcher
      → IsStored o w
      → o.status ≡ OrderStatus.accepted
      → o.driver_id ≡ none
      → find_first (driver_with_id driver.id) w.drivers ≡ some driver
      → driver.active_order_id ≡ none
      → is_truthy (some driver.id) ≡ true
      → IsStored
          (assigned_row driver.id AssignmentMode.manual o)
          (step d (hand_over user o.id driver) w)
  unfolding roles_of handle
  hand_over_stores user o driver w dispatcher found accepted free there idle named =
      let input : AssignOrderInput = record {
        driver_id = some driver.id;
        mode = AssignmentMode.manual;
      } in
      let request = assign_order o.id input in
      let run =
        step_runs user request (assign d.site o.id input user.id) w
          (roles_include (roles_of request) user dispatcher refl) refl in
      rw run (assign_stores d o driver user.id w found accepted free there idle named)

  abbrev pub complete : AuthenticatedUser → String → String → SubmitProofInput → List Happening
  complete user id code proof =
      requested user (issue_code id code) ∷ requested user (deliver id proof) ∷ []

  complete_stores :
      (user : AuthenticatedUser) (o : Order) (code : String) (proof : SubmitProofInput) (w : World)
      → user.role ≡ UserRole.driver
      → IsStored o w
      → o.status ≡ OrderStatus.out_for_delivery
      → proof.type ≡ ProofOfDeliveryType.otp_code
      → proof.otp_code ≡ some code
      → is_truthy (some code) ≡ true
      → IsStored (moved o OrderStatus.delivered) (run d (complete user o.id code proof) w)
  unfolding run roles_of handle
  complete_stores user o code proof w driver found out otp given named =
      let issued =
        step_runs user (issue_code o.id code) (issue_otp o.id code) w
          (roles_include (roles_of (issue_code o.id code)) user driver refl) refl in
      let w' = (issue_otp o.id code w).1 in
      let delivered =
        step_runs user (deliver o.id proof) (submit_proof d.public_url o.id user.id proof) w'
          (roles_include (roles_of (deliver o.id proof)) user driver refl) (accepts w') in
      rw (issued, delivered) (deliver_stores d o user code proof w found out otp given named)
    where
      accepts :
          (v : World)
          → handle d user (deliver o.id proof) v
            ≡ discard (submit_proof d.public_url o.id user.id proof) v
      accepts v = ground (arith, otp, given, named)

  -- An accepted order without a driver gets to its door: a dispatcher hands it to a driver who has no
  -- order, the driver goes for it, picks it up, sets out and issues the one-time code, and hands in
  -- the code. Where the driver's id and the code are not empty, the order is delivered after these
  -- requests, by that driver.
  pub order_gets_delivered :
      (dispatcher user : AuthenticatedUser) (o : Order) (driver : DriverProfile) (code : String)
      (proof : SubmitProofInput) (w : World)
      → dispatcher.role ≡ UserRole.dispatcher
      → user.role ≡ UserRole.driver
      → find_first (with_id o.id) w.orders ≡ some o
      → o.status ≡ OrderStatus.accepted
      → o.driver_id ≡ none
      → find_first (driver_with_id driver.id) w.drivers ≡ some driver
      → driver.active_order_id ≡ none
      → is_truthy (some driver.id) ≡ true
      → proof.type ≡ ProofOfDeliveryType.otp_code
      → proof.otp_code ≡ some code
      → is_truthy (some code) ≡ true
      → find_first
          (with_id o.id)
          (run d
            (hand_over dispatcher o.id driver
              ∷ drive user o.id OrderStatus.en_route_to_pickup
              ∷ drive user o.id OrderStatus.picked_up
              ∷ drive user o.id OrderStatus.out_for_delivery
              ∷ complete user o.id code proof)
            w).orders
        ≡ some (moved (assigned_row driver.id AssignmentMode.manual o) OrderStatus.delivered)
  unfolding run can_transition
  order_gets_delivered dispatcher user o driver code proof w staff wheels found accepted free there
        idle named otp given secret =
      let o1 = assigned_row driver.id AssignmentMode.manual o in
      let w1 = step d (hand_over dispatcher o.id driver) w in
      let s1 = hand_over_stores dispatcher o driver w staff found accepted free there idle named in
      let w2 = step d (drive user o.id OrderStatus.en_route_to_pickup) w1 in
      let s2 = drive_stores user o1 OrderStatus.en_route_to_pickup w1 wheels s1 refl in
      let w3 = step d (drive user o.id OrderStatus.picked_up) w2 in
      let s3 =
        drive_stores user (moved o1 OrderStatus.en_route_to_pickup) OrderStatus.picked_up w2 wheels
          s2 refl in
      let w4 = step d (drive user o.id OrderStatus.out_for_delivery) w3 in
      let s4 =
        drive_stores user (moved o1 OrderStatus.picked_up) OrderStatus.out_for_delivery w3 wheels s3
          refl in
      complete_stores user (moved o1 OrderStatus.out_for_delivery) code proof w4 wheels s4 refl otp
        given secret
