-- ===== src/Api/Routes/Keeping.antt =====
-- What every state-changing service of packages/api/src/modules keeps: a driver's active order is
-- assigned to that driver, an order's status is the last one in its audit log, and no event says that a
-- driver accepted an order.
use marhaba_delivery_v.Prelude.{
  String, ◌≡◌, none, some, arith, if◌then◌else◌, inl, inr, Option-cases, ◌==◌, string_eq, true,
  false, Bool, [], ◌∷◌, ◌++◌,
}
use marhaba_delivery_v.Prelude.Rows.{find_first, All-map}
use marhaba_delivery_v.Prelude.Action.{not_found, forbidden, bad_request}
use marhaba_delivery_v.Prelude.Keeps.{
  Keeps, bind-Keeps, then-Keeps, pure-Keeps, or_throw-Keeps, find-Keeps, throw_unless-Keeps,
}
use marhaba_delivery_v.Api.World.{World, with_id, order_table}
use marhaba_delivery_v.Api.Events.{RecordEventArgs, record_event, event_row}
use marhaba_delivery_v.Api.Realtime.{emit_order_status}
use marhaba_delivery_v.Api.Orders.{
  TransitionOrderInput, Actor, AuthenticatedUser, transition, place, find_for_user, can_view,
}
use marhaba_delivery_v.Api.Zones.{Site}
use marhaba_delivery_v.Shared.Enums.Equality.{order_status_eq, event_type_eq}
use marhaba_delivery_v.Api.Orders.Transitions.{place_input}
use marhaba_delivery_v.Shared.Enums.{OrderStatus, ActorType, OrderEventType}
use marhaba_delivery_v.Api.World.{Metadata, order_room, order_status_changed, status_payload}
use marhaba_delivery_v.Api.Assignment.{AssignOrderInput, assign, unassign}
use marhaba_delivery_v.Api.Assignment.Linked.{IsLinked}
use marhaba_delivery_v.Api.Assignment.Outcomes.{
  assign-IsLinked, assign_refused, assign-cases, unassign-IsLinked, transition-IsLinked,
}
use marhaba_delivery_v.Api.Routes.Acceptance.{
  IsUnaccepted, one_more, transition-IsUnaccepted, unassign-IsUnaccepted, commit-IsUnaccepted,
}
use marhaba_delivery_v.Api.Audit.{
  IsAudited, logged, transition-IsAudited, unassign-IsAudited, commit_assignment-IsAudited,
  logged_from-append,
}

abbrev pub IsSound : World → Type 0
IsSound w = IsLinked w × IsAudited w × IsUnaccepted w

pub transition-Keeps :
    (id : String) (input : TransitionOrderInput) (actor : Actor)
    → Keeps IsSound (transition id input actor)
transition-Keeps id input actor = record {
  kept = λ w s. (
    transition-IsLinked id input actor w s.0,
    transition-IsAudited id input actor w s.1,
    transition-IsUnaccepted id input actor w s.2,
  );
}

pub unassign-Keeps : (id actor : String) → Keeps IsSound (unassign id actor)
unassign-Keeps id actor = record {
  kept = λ w s. (
    unassign-IsLinked id actor w s.0,
    unassign-IsAudited id actor w s.1,
    unassign-IsUnaccepted id actor w s.2,
  );
}

module _ (site : Site) (id : String) (input : AssignOrderInput) (actor : String) where
  -- An assignment, whatever its outcome, keeps the status of every order the last one in its log.
  pub assign-IsAudited : (w : World) → IsAudited w → IsAudited (assign site id input actor w).1
  assign-IsAudited w audited = elim (Option-cases (find_first (with_id id) w.orders)) [
    | inl missing ↦ rw (assign_refused site id input actor w missing) audited
    | inr (o, found) ↦ elim (assign-cases site id input actor w o found) [
      | inl same ↦ rw same audited
      | inr (d, truthy, ready, run) ↦
          rw run (commit_assignment-IsAudited id d input.mode actor o.driver_id w audited)
    ]
  ]

  assign-IsUnaccepted : (w : World) → IsUnaccepted w → IsUnaccepted (assign site id input actor w).1
  assign-IsUnaccepted w none_ = elim (Option-cases (find_first (with_id id) w.orders)) [
    | inl missing ↦ rw (assign_refused site id input actor w missing) none_
    | inr (o, found) ↦ elim (assign-cases site id input actor w o found) [
      | inl same ↦ rw same none_
      | inr (d, truthy, ready, run) ↦
          rw run (commit-IsUnaccepted id d input.mode actor o.driver_id w none_)
    ]
  ]

  pub assign-Keeps : Keeps IsSound (assign site id input actor)
  assign-Keeps = record {
    kept = λ w s. (
      assign-IsLinked site id input actor w s.0,
      assign-IsAudited w s.1,
      assign-IsUnaccepted w s.2,
    );
  }

either-IsSound : (b : Bool) (x y : World) → IsSound x → IsSound y → IsSound (if b then x else y)
either-IsSound true x y hx hy = hx
either-IsSound false x y hx hy = hy

-- An event that names no status, and is not an acceptance, leaves the last logged one of every order.
pub record_event-Keeps :
    (args : RecordEventArgs)
    → args.to_status ≡ none
    → (args.type == OrderEventType.driver_accepted) ≡ false
    → Keeps IsSound (record_event args)
record_event-Keeps args quiet other = record {
  kept = λ w s. (
    s.0,
    All-map (λ o. logged o.id w.order_events ≡ some o.status) _
        (λ o h.
          ground (arith, h, quiet, logged_from-append none o.id w.order_events (event_row args w)))
        w.orders s.1,
    one_more w.order_events (event_row args w) other s.2,
  );
}

pub emit-Keeps :
    (id : String) (status : OrderStatus) (extra : Metadata)
    → Keeps IsSound (emit_order_status id status extra)
emit-Keeps id status extra = record {
  kept = λ w s.
      either-IsSound w.socket_ready
        (record w {
          messages =
              w.messages
              ++ record {
                room = order_room id;
                event = order_status_changed;
                payload = status_payload id status extra;
              }
                ∷ [];
        })
        w s s;
}

pub find_for_user-Keeps :
    (id : String) (user : AuthenticatedUser) → Keeps IsSound (find_for_user id user)
unfolding find_for_user
find_for_user-Keeps id user = bind-Keeps (find-Keeps order_table (with_id id)) λ row.
    bind-Keeps (or_throw-Keeps row (not_found "Order not found")) λ order.
      then-Keeps
        (throw_unless-Keeps (can_view order user) (forbidden "Not allowed to view this order"))
        (pure-Keeps order)

pub place-Keeps : (id : String) (user : AuthenticatedUser) → Keeps IsSound (place id user)
unfolding place
place-Keeps id user = bind-Keeps (find_for_user-Keeps id user) λ order.
    then-Keeps
      (throw_unless-Keeps (order.status == OrderStatus.draft)
        (bad_request "Only draft orders can be placed"))
      (transition-Keeps id place_input (record { type = ActorType.client; id = some user.id }))
