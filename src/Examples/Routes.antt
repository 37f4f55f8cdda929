-- ===== src/Examples/Routes.antt =====
-- The routes, jobs and webhooks of the server on concrete values.
use mathlib.Core.List.{Memᴰ}
use marhaba_delivery_v.Prelude.{String, ◌≡◌, refl, List, [], ◌∷◌, none, some, string_eq}
use marhaba_delivery_v.Prelude.Rows.{find_first}
use marhaba_delivery_v.Shared.Enums.{UserRole, OrderStatus, AssignmentMode, ProofOfDeliveryType}
use marhaba_delivery_v.Shared.StateMachine.{is_terminal}
use marhaba_delivery_v.Api.World.{World, Order, with_id}
use marhaba_delivery_v.Api.Orders.{AuthenticatedUser}
use marhaba_delivery_v.Api.Assignment.Linked.{assigned_row}
use marhaba_delivery_v.Api.Delivery.Completion.{SubmitProofInput}
use marhaba_delivery_v.Api.Routes.{
  Deployment, Request, CancelOrderInput, serve, Happening, requested, time_passed, run, create,
  transition_order, cancel, place_order,
}
use marhaba_delivery_v.Api.Routes.Keeping.{IsSound}
use marhaba_delivery_v.Api.Routes.Soundness.{run-IsSound}
use marhaba_delivery_v.Api.Routes.Access.{cancel_by_anyone, client_leaves_others}
use marhaba_delivery_v.Api.Routes.Storing.{moved}
use marhaba_delivery_v.Api.Routes.Progress.{drive, hand_over, complete, order_gets_delivered}
use marhaba_delivery_v.Api.Routes.Reported.{acceptance_unmeasured}
use marhaba_delivery_v.Api.Analytics.{driver_performance, dispatch_board, board_row}
use marhaba_delivery_v.Api.Analytics.Reports.{dispatch_board_complete}
use marhaba_delivery_v.Api.Users.{CreateUserInput, create_user}
use marhaba_delivery_v.Api.Users.Provisioning.{IsProvisioned, create_user-IsProvisioned}
use marhaba_delivery_v.Examples.Data.{
  order_in, driver_with, world_of, home, site, client, two_dishes,
}

abbrev deployment : Deployment
deployment = record { site = site; stripe = none; public_url = none }

abbrev user_of : String → UserRole → AuthenticatedUser
user_of id role = record { id = id; email = "x@b.ae"; role = role }

abbrev staff : AuthenticatedUser
staff = user_of "u9" UserRole.dispatcher

abbrev rider : AuthenticatedUser
rider = user_of "u2" UserRole.driver

abbrev accept : Request
accept =
    transition_order "o1" (record { to = OrderStatus.accepted; reason = none; metadata = none })

-- A client checks out, a dispatcher accepts and hands the order over, and the driver sets out.
abbrev day : List Happening
day =
    requested client (create "o1" "MRH-1" two_dishes)
    ∷ requested staff accept
    ∷ time_passed 60000
    ∷ hand_over deployment staff "o1" (driver_with none)
    ∷ drive deployment rider "o1" OrderStatus.en_route_to_pickup
    ∷ []

abbrev opening : World
opening = world_of [] (driver_with none ∷ [])

opening-IsSound : IsSound opening
opening-IsSound = ((tt, tt), tt, tt)

run-IsSound_example : IsSound (run deployment day opening)
run-IsSound_example = run-IsSound deployment day opening opening-IsSound

acceptance_unmeasured_example :
    ((driver_performance "d1" 0 90000 (run deployment day opening)).avg_accept_seconds ≡ none)
    × ((driver_performance "d1" 0 90000 (run deployment day opening)).avg_pickup_seconds ≡ none)
acceptance_unmeasured_example =
    acceptance_unmeasured deployment day opening "d1" 0 90000 opening-IsSound

abbrev waiting : Order
waiting = order_in OrderStatus.accepted none

abbrev waiting_world : World
waiting_world = world_of (waiting ∷ []) (driver_with none ∷ [])

abbrev proof_by_code : SubmitProofInput
proof_by_code = record {
  type = ProofOfDeliveryType.otp_code;
  photo_key = "";
  signature_key = "";
  otp_code = some "123456";
  lng = home.point.lng;
  lat = home.point.lat;
  captured_at = 1000;
}

order_gets_delivered_example :
    find_first
      (with_id "o1")
      (run deployment
        (hand_over deployment staff "o1" (driver_with none)
          ∷ drive deployment rider "o1" OrderStatus.en_route_to_pickup
          ∷ drive deployment rider "o1" OrderStatus.picked_up
          ∷ drive deployment rider "o1" OrderStatus.out_for_delivery
          ∷ complete deployment rider "o1" "123456" proof_by_code)
        waiting_world).orders
    ≡ some (moved (assigned_row "d1" AssignmentMode.manual waiting) OrderStatus.delivered)
unfolding find_first
order_gets_delivered_example =
    order_gets_delivered deployment staff rider waiting (driver_with none) "123456" proof_by_code
      waiting_world refl refl refl refl refl refl refl refl refl refl refl

-- A client asks to place the order of another one.
client_leaves_others_example :
    find_first
      (with_id "o1")
      (serve deployment (user_of "u5" UserRole.client) (place_order "o1") waiting_world).1.orders
    ≡ some waiting
unfolding find_first
client_leaves_others_example =
    client_leaves_others deployment (user_of "u5" UserRole.client) (place_order "o1") waiting_world
      waiting "o1" refl refl refl refl

abbrev changed_mind : CancelOrderInput
changed_mind = record { reason = "changed my mind" }

cancel_by_anyone_example :
    (serve deployment client (cancel "o1" changed_mind) waiting_world).1.orders
    ≡ (serve deployment
        (user_of "u5" UserRole.client)
        (cancel "o1" changed_mind)
        waiting_world).1.orders
cancel_by_anyone_example =
    cancel_by_anyone deployment waiting_world client (user_of "u5" UserRole.client) "o1"
      changed_mind

dispatch_board_complete_example :
    Memᴰ (board_row waiting_world waiting) (dispatch_board waiting_world)
unfolding is_terminal
dispatch_board_complete_example =
    dispatch_board_complete waiting_world waiting (Memᴰ.head refl) refl refl

abbrev recruit : CreateUserInput
recruit = record {
  email = "n@b.ae";
  full_name = "N";
  phone = none;
  role = UserRole.driver;
  password = "pw";
}

create_user-IsProvisioned_example : IsProvisioned (create_user (λ s. s) "u7" "d7" recruit opening).1
create_user-IsProvisioned_example = create_user-IsProvisioned (λ s. s) "u7" "d7" recruit opening tt
