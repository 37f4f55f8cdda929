-- ===== src/Api/Routes/Access.antt =====
-- Who may do what over the routes of the orders, delivery, payments and drivers controllers
-- (packages/api/src/modules).
use marhaba_delivery_v.Prelude.{
  String, ◌≡◌, refl, Bool, true, false, ◌||◌, List, [], ◌∷◌, Option, none, some, arith, includes,
  ◌==◌, string_eq, eq_iff, if◌then◌else◌, Bool-cases, Option-cases, inl, inr,
}
use marhaba_delivery_v.Prelude.Rows.{
  find_first, update_many, find_first-append, find_first-update_many, find_first_meets,
}
use marhaba_delivery_v.Prelude.Action.{then_pure, throws, forbidden, outcome-cases}
use marhaba_delivery_v.Shared.Enums.{UserRole, OrderStatus}
use marhaba_delivery_v.Shared.Enums.Equality.{role_eq, order_status_eq}
use marhaba_delivery_v.Api.World.{World, Order, with_id}
use marhaba_delivery_v.Api.Orders.{
  AuthenticatedUser, transition, place, find_for_user, can_view, TransitionOrderInput, Actor,
}
use marhaba_delivery_v.Api.Orders.Transitions.{transition_ok, transition_atomic, place_branches}
use marhaba_delivery_v.Api.Orders.Creation.{CreateOrderInput, create_order}
use marhaba_delivery_v.Api.Orders.Creation.Checkout.{create_order_atomic, create_order-IsCheckedOut}
use marhaba_delivery_v.Api.Payments.{Stripe, create_payment_intent}
use marhaba_delivery_v.Api.Guards.{roles_guard, is_empty}
use marhaba_delivery_v.Api.Routes.{
  Request, create, place_order, cancel, create_intent, roles_of, CancelOrderInput, Deployment,
  handle, serve, create_fresh,
}

module _ (d : Deployment) (w : World) where
  -- A route does its work exactly if it asks for no role or for the role of the user; else it is a 403
  -- that changes nothing.
  pub serve_by_roles :
      (user : AuthenticatedUser) (request : Request)
      → serve d user request w ≡ (
          if is_empty (roles_of request) || includes (roles_of request) user.role
          then handle d user request w
          else (throws (forbidden "Insufficient role"), w))
  unfolding serve roles_guard
  serve_by_roles user request = ground arith

  -- A cancellation does not depend on who asks for it: for any two users, the clients among them whose
  -- order it is not as well, it leaves the same orders.
  pub cancel_by_anyone :
      (user other : AuthenticatedUser) (id : String) (input : CancelOrderInput)
      → (serve d user (cancel id input) w).1.orders ≡ (serve d other (cancel id input) w).1.orders
  unfolding serve roles_guard roles_of handle transition
  cancel_by_anyone user other id input = ground arith

can_view_own :
    (o : Order) (user : AuthenticatedUser)
    → user.role ≡ UserRole.client
    → o.client_id == user.id ≡ false
    → can_view o user ≡ false
unfolding can_view
can_view_own o user role foreign = ground (arith, role)

abbrev pub is_cancel : Request → Bool
is_cancel (cancel id input) = true
is_cancel _ = false

-- An order is still there, as it was, when another one changes.
kept_apart :
    (id other : String) (f : Order → Order) (orders : List Order) (o : Order)
    → ((x : Order) → (f x).id ≡ x.id)
    → other == id ≡ false
    → find_first (with_id id) orders ≡ some o
    → find_first (with_id id) (update_many (with_id other) f orders) ≡ some o
kept_apart id other f orders o keeps distinct found = ground (
  arith,
  find_first-update_many (with_id id) (with_id other) f (λ r. ground (arith, keeps r)) orders,
  find_first_meets (with_id id) orders o found,
  eq_iff o.id id,
  eq_iff o.id other,
  eq_iff other id,
)

module _ (w : World) (user : AuthenticatedUser) (o : Order) (id : String) where
  abbrev IsThere : World → Type 0
  IsThere w' = find_first (with_id id) w'.orders ≡ some o

  transition_apart :
      (other : String) (input : TransitionOrderInput) (actor : Actor)
      → other == id ≡ false
      → IsThere w
      → IsThere (transition other input actor w).1
  transition_apart other input actor distinct there =
      elim (outcome-cases (transition other input actor w).0) [
        | inl (r, done) ↦
            let (p, found, allowed, shape, after) = transition_ok other input actor w r done in
            rw after (
              kept_apart id other (λ x. record x { status = input.to }) w.orders o (λ x. refl)
                distinct there)
        | inr (e, failed) ↦ rw (transition_atomic other input actor w e failed) there
      ]

  place_missing :
      (other : String) → find_first (with_id other) w.orders ≡ none → (place other user w).1 ≡ w
  unfolding place find_for_user
  place_missing other missing = ground arith

  place_apart :
      (other : String) → can_view o user ≡ false → IsThere w → IsThere (place other user w).1
  place_apart other unseen there = elim (Option-cases (find_first (with_id other) w.orders)) [
    | inl missing ↦ rw (place_missing other missing) there
    | inr (p, found) ↦ elim (Bool-cases (other == id)) [
      | inl same ↦
          rw (place_branches other user w p found)
            (ground (arith, unseen, there, found, eq_iff other id))
      | inr distinct ↦
          let moved =
            kept_apart id other (λ x. record x { status = OrderStatus.placed }) w.orders o
              (λ x. refl) distinct there in
          rw (place_branches other user w p found) (ground (arith, moved, there))
    ]
  ]

  create_apart :
      (d : Deployment) (other reference : String) (input : CreateOrderInput)
      → IsThere w
      → IsThere (create_fresh d other reference user.id input w).1
  unfolding create_fresh
  create_apart d other reference input there =
      elim (outcome-cases (create_order d.site other reference user.id input w).0) [
        | inl (r, done) ↦
            let out = create_order-IsCheckedOut d.site other reference user.id input w r done in
            ground (arith, there, out.stored, find_first-append (with_id id) w.orders r)
        | inr (e, failed) ↦
            ground
              (arith, there, create_order_atomic d.site other reference user.id input w e failed)
      ]

  intent_apart :
      (stripe : Option Stripe) (other : String)
      → (create_payment_intent stripe other user.id w).1.orders ≡ w.orders
  unfolding create_payment_intent
  intent_apart stripe other = ground arith

client_role :
    (user : AuthenticatedUser)
    → user.role ≡ UserRole.client
    → includes (UserRole.client ∷ []) user.role ≡ true
client_role user role = ground (arith, role)

-- Whatever a client asks for, but for a cancellation, an order of another client is afterwards what it
-- was.
pub client_leaves_others :
    (d : Deployment) (user : AuthenticatedUser) (request : Request) (w : World) (o : Order)
    (id : String)
    → user.role ≡ UserRole.client
    → o.client_id == user.id ≡ false
    → is_cancel request ≡ false
    → find_first (with_id id) w.orders ≡ some o
    → find_first (with_id id) (serve d user request w).1.orders ≡ some o
unfolding roles_of handle
client_leaves_others d user (create other reference input) w o id role foreign safe there =
    let open_ = client_role user role in
    rw
      (
        serve_by_roles d w user (create other reference input),
        open_,
        then_pure (create_fresh d other reference user.id input) tt w,
      )
      (create_apart w user o id d other reference input there)
client_leaves_others d user (place_order other) w o id role foreign safe there =
    let unseen : can_view o user ≡ false = can_view_own o user role foreign in
    let open_ = client_role user role in
    rw (serve_by_roles d w user (place_order other), open_, then_pure (place other user) tt w)
      (place_apart w user o id other unseen there)
client_leaves_others d user (create_intent other) w o id role foreign safe there =
    let open_ = client_role user role in
    rw
      (
        serve_by_roles d w user (create_intent other),
        open_,
        then_pure (create_payment_intent d.stripe other user.id) tt w,
        intent_apart w user o id d.stripe other,
      )
      there
client_leaves_others d user (cancel other input) w o id role foreign safe there = cc
client_leaves_others d user request w o id role foreign safe there =
    rw (serve_by_roles d w user request, role) there
