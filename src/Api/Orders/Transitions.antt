-- ===== src/Api/Orders/Transitions.antt =====
-- OrdersService.transition and place (packages/api/src/modules/orders/orders.service.ts): what they
-- write on success, and that an error leaves the database and the rooms as they were.
use marhaba_delivery_v.Prelude.{
  String, ◌≡◌, ◌==◌, true, false, [], ◌∷◌, ◌++◌, none, some, arith, if◌then◌else◌, Option-cases,
  inl, inr,
}
use marhaba_delivery_v.Prelude.Rows.{find_first, update_many}
use marhaba_delivery_v.Prelude.Action.{ok, throws, Exception, bad_request, not_found, forbidden}
use marhaba_delivery_v.Shared.Enums.{OrderStatus, ActorType}
use marhaba_delivery_v.Shared.Enums.Equality.{order_status_eq}
use marhaba_delivery_v.Shared.StateMachine.{
  can_transition, assert_transition, transition_message, illegal_transition,
}
use marhaba_delivery_v.Api.World.{
  World, Order, OrderEvent, with_id, order_room, order_status_changed, status_payload,
}
use marhaba_delivery_v.Api.Events.{event_row}
use marhaba_delivery_v.Api.Orders.{
  TransitionOrderInput, Actor, AuthenticatedUser, transition, place, find_for_user, can_view,
  event_type_for_status, transition_metadata, reason_field,
}

-- The audit event of a transition.
abbrev pub transition_event :
    String → OrderStatus → TransitionOrderInput → Actor → World → OrderEvent
transition_event id from input actor = event_row (record {
  order_id = id;
  type = event_type_for_status input.to;
  from_status = some from;
  to_status = some input.to;
  actor_type = some actor.type;
  actor_id = actor.id;
  metadata = transition_metadata input;
})

-- The world after a transition: the order's status, one audit event, and one message to the order's
-- room if the socket server is up.
abbrev pub after_transition : String → OrderStatus → TransitionOrderInput → Actor → World → World
after_transition id from input actor w = record w {
  orders = update_many (with_id id) (λ o. record o { status = input.to }) w.orders;
  order_events = w.order_events ++ transition_event id from input actor w ∷ [];
  messages =
      if w.socket_ready
      then w.messages
        ++ record {
          room = order_room id;
          event = order_status_changed;
          payload = status_payload id input.to (reason_field input.reason);
        }
          ∷ []
      else w.messages;
}

module _ (id : String) (input : TransitionOrderInput) (actor : Actor) (w : World) where
  -- An allowed transition of an order that exists succeeds: it returns the order with its new status
  -- and writes the status, the audit event and the message, and nothing else.
  pub transition_succeeds :
      (o : Order)
      → find_first (with_id id) w.orders ≡ some o
      → can_transition o.status input.to ≡ true
      → transition id input actor w
        ≡ (ok (record o { status = input.to }), after_transition id o.status input actor w)
  unfolding transition assert_transition
  transition_succeeds o found allowed = ground arith

  -- A transition that the state machine does not allow is a 400 that names both statuses.
  pub transition_illegal :
      (o : Order)
      → find_first (with_id id) w.orders ≡ some o
      → can_transition o.status input.to ≡ false
      → transition id input actor w
        ≡ (throws (bad_request (transition_message (illegal_transition o.status input.to))), w)
  unfolding transition assert_transition
  transition_illegal o found refused = ground arith

  pub transition_missing :
      find_first (with_id id) w.orders ≡ none
      → transition id input actor w ≡ (throws (not_found "Order not found"), w)
  unfolding transition
  transition_missing missing = ground arith

  -- A transition that throws has changed nothing: neither the database nor what was sent.
  pub transition_atomic :
      (e : Exception)
      → (transition id input actor w).0 ≡ throws e
      → (transition id input actor w).1 ≡ w
  unfolding transition
  transition_atomic e h = ground arith

  -- What a successful transition shows: the order was there, the state machine allows the step, and
  -- the world is the one described by `after_transition`.
  pub transition_ok :
      (r : Order)
      → (transition id input actor w).0 ≡ ok r
      → (o : Order) × (find_first (with_id id) w.orders ≡ some o)
        × (can_transition o.status input.to ≡ true)
        × (r ≡ record o { status = input.to })
        × ((transition id input actor w).1 ≡ after_transition id o.status input actor w)
  unfolding transition assert_transition
  transition_ok r h = elim (Option-cases (find_first (with_id id) w.orders)) [
    | inl missing ↦ ground arith
    | inr (o, found) ↦ (o, found, ground arith, ground arith, ground arith)
  ]

-- The transition that `place` asks for.
abbrev pub place_input : TransitionOrderInput
place_input = record { to = OrderStatus.placed; reason = none; metadata = none }

module _ (id : String) (user : AuthenticatedUser) (w : World) where
  abbrev pub placing : Actor
  placing = record { type = ActorType.client; id = some user.id }

  -- Of an order that is there, `place` makes the transition to PLACED if the user may see it and
  -- it is a draft; otherwise it throws and changes nothing.
  pub place_branches :
      (o : Order)
      → find_first (with_id id) w.orders ≡ some o
      → place id user w ≡ (
          if can_view o user
          then (if o.status == OrderStatus.draft
              then (
                ok (record o { status = OrderStatus.placed }),
                after_transition id o.status place_input placing w,
              )
              else (throws (bad_request "Only draft orders can be placed"), w))
          else (throws (forbidden "Not allowed to view this order"), w))
  unfolding place find_for_user transition assert_transition
  place_branches o found = ground arith
