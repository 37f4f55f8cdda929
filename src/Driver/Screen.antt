-- ===== src/Driver/Screen.antt =====
-- packages/driver-app/src/screens/ActiveDeliveryScreen.tsx: what the driver does on the screen, over the
-- outbox and the location task. JSON.stringify, number formatting, toISOString and the cut of error
-- messages are fields of `Platform`; whether a permission is granted, the position of the phone and
-- the time are arguments. An OTP has digits only, so its characters are counted.
pub mod Queueing
use Prim.Native.String.{◌++◌ as append, count as text_length}
use marhaba_delivery_v.Prelude.{
  ℕ, String, Bool, true, false, not, ◌||◌, List, [], ◌∷◌, Option, none, some, ◌==◌, nat_eq,
  is_truthy, if◌then◌else◌,
}
use marhaba_delivery_v.Shared.Enums.{OrderStatus}
use marhaba_delivery_v.Shared.StateMachine.{status_name}
use marhaba_delivery_v.Driver.Outbox.{
  Outbox, OutboxType, order_transition, proof_of_delivery, enqueue, Request, flush_outbox,
}
use marhaba_delivery_v.Driver.Location.{Tracker, Fix, Ping, set_active_order, location_task}

pub record Platform : Type 0 where
  pub number_text : ℕ → String
  pub transition_body : OrderStatus → String
  pub otp_body : String → Fix → ℕ → String
  pub encode : Ping → String
  pub slice : String → String

-- The state of the component, with what the libraries under it hold, and the last alert.
pub record Screen : Type 0 where
  pub order_id : String
  pub otp : String
  pub tracking : Bool
  pub alert : Option String
  pub tracker : Tracker

-- `orderId || null`.
abbrev pub or_null : String → Option String
or_null id = if is_truthy (some id) then some id else none

abbrev pub with_outbox : (Outbox → Outbox) → Screen → Screen
with_outbox f s = record s { tracker = record s.tracker { outbox = f s.tracker.outbox } }

unfoldable pub toggle_tracking : Bool → Screen → Screen
toggle_tracking granted s =
    if s.tracking
    then record s { tracking = false; tracker = set_active_order none s.tracker }
    else (if granted
        then record s { tracking = true; tracker = set_active_order (or_null s.order_id) s.tracker }
        else record s { alert = some "Location permission required" })

-- What happens on the phone: the driver types, toggles and presses, the location task wakes up, and
-- the outbox is flushed over the network as it then is.
pub data Event : Type 0 where
  typed_order typed_otp : String → Event
  toggled : Bool → Event
  pressed : OrderStatus → ℕ → Event
  confirmed : Fix → ℕ → Event
  woke : Option (List Fix) → ℕ → Event
  flushed : (Request → Option String) → Event

module _ (p : Platform) where
  -- `${orderId}:${to}:${Date.now()}`.
  abbrev pub action_key : String → String → ℕ → String
  action_key order_id action now =
      append order_id (append ":" (append action (append ":" (p.number_text now))))

  unfoldable pub press_transition : OrderStatus → ℕ → Screen → Screen
  press_transition to now s =
      if not (is_truthy (some s.order_id))
      then record s { alert = some "Enter an order id" }
      else with_outbox
          (enqueue order_transition
            (record { order_id = s.order_id; body = some (p.transition_body to) })
            (some (action_key s.order_id (status_name to) now)) now)
          (record s { alert = some "Queued" })

  unfoldable pub complete_with_otp : Fix → ℕ → Screen → Screen
  complete_with_otp position now s =
      if not (is_truthy (some s.order_id)) || not (text_length s.otp == 6)
      then record s { alert = some "Enter the 6-digit OTP" }
      else with_outbox
          (enqueue proof_of_delivery
            (record { order_id = s.order_id; body = some (p.otp_body s.otp position now) })
            (some (action_key s.order_id "pod" now)) now)
          (record s { alert = some "Delivered" })

  unfoldable pub react : Event → Screen → Screen
  react (typed_order id) s = record s { order_id = id }
  react (typed_otp otp) s = record s { otp = otp }
  react (toggled granted) s = toggle_tracking granted s
  react (pressed to now) s = press_transition to now s
  react (confirmed position now) s = complete_with_otp position now s
  react (woke locations now) s = record s {
    tracker = location_task p.encode locations now s.tracker;
  }
  react (flushed network) s = with_outbox (λ o. (flush_outbox p.slice network o).1) s

  unfoldable pub use_app : List Event → Screen → Screen
  use_app [] s = s
  use_app (e ∷ events) s = use_app events (react e s)

-- The app as it is installed: the table is empty.
abbrev pub installed : Bool → Screen
installed connected = record {
  order_id = "";
  otp = "";
  tracking = false;
  alert = none;
  tracker = record {
    last_sent_at = 0;
    active_order_id = none;
    connected = connected;
    emitted = [];
    outbox = record { next_id = 1; rows = []; log = [] };
  };
}
