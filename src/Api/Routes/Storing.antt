-- ===== src/Api/Routes/Storing.antt =====
-- What one step does to an order in the table (packages/api/src/modules/orders/orders.service.ts and
-- assignment.service.ts, packages/api/src/modules/delivery/delivery.service.ts): a transition, an
-- assignment, and a delivery against a one-time code.
use marhaba_delivery_v.Prelude.{
  String, ◌≡◌, refl, true, List, [], ◌∷◌, ◌++◌, none, some, arith, string_eq, eq_iff, is_truthy,
  Option-cases, inl, inr,
}
use marhaba_delivery_v.Prelude.Rows.{find_first, update_many, find_first-update_many}
use marhaba_delivery_v.Prelude.Action.{ok, then_pure, pure, ◌>>◌}
use marhaba_delivery_v.Shared.Enums.{OrderStatus, AssignmentMode, ProofOfDeliveryType}
use marhaba_delivery_v.Shared.Enums.Equality.{role_eq, order_status_eq, mode_eq}
use marhaba_delivery_v.Shared.StateMachine.{can_transition}
use marhaba_delivery_v.Api.World.{World, Order, DriverProfile, with_id, driver_with_id}
use marhaba_delivery_v.Api.Orders.{AuthenticatedUser, TransitionOrderInput, transition, Actor}
use marhaba_delivery_v.Api.Orders.Transitions.{transition_succeeds}
use marhaba_delivery_v.Api.Assignment.{assign, commit_assignment}
use marhaba_delivery_v.Api.Assignment.Linked.{assigned_row, commit_assignment_rows}
use marhaba_delivery_v.Api.Delivery.{driver_actor}
use marhaba_delivery_v.Api.Delivery.Completion.{
  SubmitProofInput, Evidence, submit_proof, issue_otp, deliver as store_proof, delivered_input,
  proof_of_order, proof_row, rewrite_proof, drop_code,
}
use marhaba_delivery_v.Api.Delivery.Proof.{issue_otp-get_code}
use marhaba_delivery_v.Api.Routes.{Deployment}

-- The order `o` is in the table under its id.
abbrev pub IsStored : Order → World → Type 0
IsStored o w = find_first (with_id o.id) w.orders ≡ some o

rewritten :
    (f : Order → Order) (o : Order) (orders : List Order)
    → ((x : Order) → (f x).id ≡ x.id)
    → find_first (with_id o.id) orders ≡ some o
    → find_first (with_id o.id) (update_many (with_id o.id) f orders) ≡ some (f o)
rewritten f o orders keeps found = ground (
  arith,
  eq_iff o.id o.id,
  find_first-update_many (with_id o.id) (with_id o.id) f (λ r. ground (arith, keeps r)) orders,
)

abbrev pub moved : Order → OrderStatus → Order
moved o to = record o { status = to }

pub transition_stores :
    (o : Order) (input : TransitionOrderInput) (actor : Actor) (w : World)
    → IsStored o w
    → can_transition o.status input.to ≡ true
    → IsStored (moved o input.to) (transition o.id input actor w).1
transition_stores o input actor w found allowed =
    rw (transition_succeeds o.id input actor w o found allowed)
      (rewritten (λ x. record x { status = input.to }) o w.orders (λ x. refl) found)

assignment_commits :
    (o : Order) (driver : DriverProfile) (actor : String) (w : World)
    → IsStored o w
    → find_first (driver_with_id driver.id) w.drivers ≡ some driver
    → driver.active_order_id ≡ none
    → (commit_assignment o.id driver.id AssignmentMode.manual actor none w).0
      ≡ ok (assigned_row driver.id AssignmentMode.manual o)
unfolding commit_assignment
assignment_commits o driver actor w found there idle = ground arith

pub assign_stores :
    (d : Deployment) (o : Order) (driver : DriverProfile) (actor : String) (w : World)
    → IsStored o w
    → o.status ≡ OrderStatus.accepted
    → o.driver_id ≡ none
    → find_first (driver_with_id driver.id) w.drivers ≡ some driver
    → driver.active_order_id ≡ none
    → is_truthy (some driver.id) ≡ true
    → IsStored
        (assigned_row driver.id AssignmentMode.manual o)
        (assign d.site o.id
          (record { driver_id = some driver.id; mode = AssignmentMode.manual })
          actor
          w).1
unfolding assign
assign_stores d o driver actor w found accepted free there idle named =
    let manual = AssignmentMode.manual in
    let done = assignment_commits o driver actor w found there idle in
    let rows =
      commit_assignment_rows o.id driver.id manual actor w none (assigned_row driver.id manual o)
        done in
    rw (found, accepted, free, named, rows.0)
      (rewritten (assigned_row driver.id AssignmentMode.manual) o w.orders (λ x. refl) found)

delivered_stores :
    {A : Type 0} (o : Order) (user : String) (type : ProofOfDeliveryType) (a : A) (w : World)
    → IsStored o w
    → o.status ≡ OrderStatus.out_for_delivery
    → IsStored
        (moved o OrderStatus.delivered)
        ((transition o.id (delivered_input type) (driver_actor user) >> pure a) w).1
unfolding can_transition
delivered_stores o user type a w found out =
    rw (then_pure (transition o.id (delivered_input type) (driver_actor user)) a w)
      (transition_stores o (delivered_input type) (driver_actor user) w found (rw out refl))

proof_stores :
    (o : Order) (user : String) (proof : SubmitProofInput) (e : Evidence) (w : World)
    → IsStored o w
    → o.status ≡ OrderStatus.out_for_delivery
    → IsStored (moved o OrderStatus.delivered) (store_proof o.id user proof e w).1
proof_stores o user proof e w found out =
    elim (Option-cases (find_first (proof_of_order o.id) w.proofs)) [
      | inl fresh ↦
          let row = proof_row o.id proof e in
          rw fresh (
            delivered_stores o user proof.type row (record w { proofs = w.proofs ++ row ∷ [] })
              found out)
      | inr (p, there) ↦
          let q = proof_of_order o.id in
          rw there (
            delivered_stores o user proof.type (rewrite_proof proof e p)
              (record w { proofs = update_many q (rewrite_proof proof e) w.proofs }) found out)
    ]

pub deliver_stores :
    (d : Deployment) (o : Order) (user : AuthenticatedUser) (code : String)
    (proof : SubmitProofInput) (w : World)
    → IsStored o w
    → o.status ≡ OrderStatus.out_for_delivery
    → proof.type ≡ ProofOfDeliveryType.otp_code
    → proof.otp_code ≡ some code
    → is_truthy (some code) ≡ true
    → IsStored
        (moved o OrderStatus.delivered)
        (submit_proof d.public_url o.id user.id proof (issue_otp o.id code w).1).1
unfolding submit_proof issue_otp
deliver_stores d o user code proof w found out otp given named =
    let t = issue_otp-get_code o.id code w w.now (omega arith) in
    rw (found, out, otp)
      (rw (t, given, named, (eq_iff code code).1 refl)
        (proof_stores o user.id
          (record proof { type = ProofOfDeliveryType.otp_code; otp_code = some code })
          (record { otp_verified = some true; photo_url = none; signature_url = none })
          (drop_code o.id (issue_otp o.id code w).1) found out))
