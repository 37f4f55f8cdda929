-- ===== src/Api/Orders/Creation.antt =====
-- OrdersService.create (packages/api/src/modules/orders/orders.service.ts) and the constants of
-- packages/api/src/modules/orders/orders.constants.ts. The row's id and its random reference are
-- arguments. What is proved of it is in the module below.
pub mod Checkout
use marhaba_delivery_v.Prelude.{
  ℕ, ◌+◌, ◌*◌, String, Bool, true, false, not, ◌&&◌, List, [], ◌∷◌, Option, none, some, ◌==◌,
  string_eq, nat_eq, includes, length, ltb, if◌then◌else◌,
}
use marhaba_delivery_v.Prelude.Rows.{find_first, find_many}
use marhaba_delivery_v.Prelude.Action.{
  Action, Exception, bad_request, type_error, pure, throw, throw_unless, or_throw, gets, create,
  transaction, ◌>>=◌, ◌>>◌,
}
use marhaba_delivery_v.Shared.Enums.{OrderStatus, OrderEventType, ActorType, PaymentMethod}
use marhaba_delivery_v.Shared.Enums.Equality.{order_status_eq}
use marhaba_delivery_v.Shared.Pricing.{PricingSnapshot}
use marhaba_delivery_v.Api.World.{
  World, Order, OrderItem, Address, Coordinate, GeoPoint, Product, Metadata, Json, number, text,
  date, null, order_table,
}
use marhaba_delivery_v.Api.Events.{RecordEventArgs, record_event}
use marhaba_delivery_v.Api.Realtime.{emit_order_status}
use marhaba_delivery_v.Api.Zones.{Site, quote}

pub record OrderLine : Type 0 where
  pub product_id : String
  pub quantity : ℕ

pub record CreateOrderInput : Type 0 where
  pub items : List OrderLine
  pub dropoff_address : Address
  pub payment_method : PaymentMethod
  pub scheduled_for : Option ℕ
  pub notes : Option String
  pub place_now : Bool

-- { lng: 55.2708, lat: 25.2048 }
abbrev pub default_pickup_address : Address
default_pickup_address = record {
  label = some "Marhaba Central Kitchen";
  line1 = "Sheikh Zayed Rd";
  city = "Dubai";
  country = "AE";
  point = record {
    lng = record { negative = false; magnitude = 552_708_000 };
    lat = record { negative = false; magnitude = 252_048_000 };
  };
  notes = none;
}

abbrev pub product_ids : List OrderLine → List String
product_ids [] = []
product_ids (l ∷ lines) = l.product_id ∷ product_ids lines

-- `new Set(ids).size`: each id counts where it occurs last.
unfoldable pub distinct_size : List String → ℕ
distinct_size [] = 0
distinct_size (x ∷ xs) = (if includes xs x then 0 else 1) + distinct_size xs

-- `where: { id: { in: productIds }, isAvailable: true }`.
abbrev pub orderable : List String → Product → Bool
orderable ids p = includes ids p.id && p.is_available

abbrev pub with_product_id : String → Product → Bool
with_product_id id p = p.id == id

-- `products[0]?.currency ?? 'AED'`.
abbrev pub currency_of : List Product → String
currency_of [] = "AED"
currency_of (p ∷ products) = p.currency

abbrev pub item_of : Product → ℕ → OrderItem
item_of product quantity = record {
  product_id = product.id;
  name_snapshot = product.name;
  unit_price_minor = product.price_minor;
  quantity = quantity;
  line_total_minor = product.price_minor * quantity;
}

-- One line: `byId.get(line.productId)!`, whose use fails if the product is missing.
unfoldable pub line_item : Option Product → OrderLine → Option OrderItem
line_item none line = none
line_item (some p) line = some (item_of p line.quantity)

abbrev cons_item : Option OrderItem → Option (List OrderItem) → Option (List OrderItem)
cons_item (some i) (some is) = some (i ∷ is)
cons_item _ _ = none

unfoldable pub order_items : List Product → List OrderLine → Option (List OrderItem)
unfolding line_item
order_items products [] = some []
order_items products (l ∷ lines) =
    cons_item (line_item (find_first (with_product_id l.product_id) products) l)
      (order_items products lines)

-- `items.reduce((sum, i) => sum + i.lineTotalMinor, 0)`.
unfoldable pub subtotal_from : ℕ → List OrderItem → ℕ
subtotal_from sum [] = sum
subtotal_from sum (i ∷ items) = subtotal_from (sum + i.line_total_minor) items

-- `scheduledFor && scheduledFor.getTime() > Date.now()`.
abbrev pub is_scheduled : Option ℕ → ℕ → Bool
is_scheduled none now = false
is_scheduled (some t) now = ltb now t

unfoldable pub initial_status : Bool → Option ℕ → ℕ → OrderStatus
initial_status true scheduled_for now =
    if is_scheduled scheduled_for now then OrderStatus.scheduled else OrderStatus.placed
initial_status false scheduled_for now = OrderStatus.draft

abbrev pub or_now : Option ℕ → ℕ → ℕ
or_now none now = now
or_now (some t) now = t

abbrev pub optional_text : Option String → Json
optional_text none = null
optional_text (some s) = text s

abbrev pub schedule_metadata : Option ℕ → Metadata
schedule_metadata none = []
schedule_metadata (some t) = ("scheduledFor", date t) ∷ []

-- The row that checkout writes.
abbrev pub order_row :
    String
    → String
    → String
    → CreateOrderInput
    → List OrderItem
    → ℕ
    → String
    → PricingSnapshot
    → Option String
    → ℕ
    → Order
order_row id reference client_id input items subtotal currency snapshot zone_id now = record {
  id = id;
  reference = reference;
  client_id = client_id;
  driver_id = none;
  zone_id = zone_id;
  status = initial_status input.place_now input.scheduled_for now;
  payment_method = input.payment_method;
  assignment_mode = none;
  pickup_address = default_pickup_address;
  dropoff_address = input.dropoff_address;
  dropoff_lng = input.dropoff_address.point.lng;
  dropoff_lat = input.dropoff_address.point.lat;
  pricing = snapshot;
  currency = currency;
  subtotal_minor = subtotal;
  total_minor = snapshot.total_minor;
  scheduled_for = input.scheduled_for;
  notes = input.notes;
  items = items;
  created_at = now;
}

abbrev pub created_args : Order → String → RecordEventArgs
created_args order client_id = record {
  order_id = order.id;
  type = OrderEventType.created;
  from_status = none;
  to_status = some order.status;
  actor_type = some ActorType.client;
  actor_id = some client_id;
  metadata = some (
      ("subtotalMinor", number order.subtotal_minor)
      ∷ ("totalMinor", number order.total_minor)
      ∷ ("zoneId", optional_text order.zone_id)
      ∷ []);
}

abbrev pub scheduled_args : Order → String → RecordEventArgs
scheduled_args order client_id = record {
  order_id = order.id;
  type = OrderEventType.scheduled;
  from_status = none;
  to_status = none;
  actor_type = some ActorType.client;
  actor_id = some client_id;
  metadata = some (schedule_metadata order.scheduled_for);
}

abbrev record_scheduled : Bool → Order → String → Action World Unit
record_scheduled true order client_id = do record_event (scheduled_args order client_id); pure tt
record_scheduled false order client_id = pure tt

-- The transaction's body: the order and its first events.
abbrev pub commit_order : Order → String → Action World Order
commit_order order client_id = do
  created ← create order_table order
  record_event (created_args order client_id)
  record_scheduled (order.status == OrderStatus.scheduled) order client_id
  pure created

abbrev pub announce : Order → Action World Unit
announce order =
    if order.status == OrderStatus.draft
    then pure tt
    else emit_order_status order.id order.status []

module _ (site : Site) where
  abbrev pub checkout :
      String
      → String
      → String
      → CreateOrderInput
      → List Product
      → List OrderItem
      → Action World Order
  checkout id reference client_id input products items w =
      let currency = currency_of products in
      let subtotal = subtotal_from 0 items in
      let (snapshot, zone_id) =
        quote site subtotal default_pickup_address.point input.dropoff_address.point currency
          (or_now input.scheduled_for w.now) w in
      let order =
        order_row id reference client_id input items subtotal currency snapshot zone_id w.now in
      (do
        throw_unless snapshot.min_order_met
            (bad_request "Order subtotal is below the minimum for this zone")
        created ← transaction (commit_order order client_id)
        announce created
        pure created)
        w

  unfoldable pub create_order : String → String → String → CreateOrderInput → Action World Order
  create_order id reference client_id input = do
    let ids = product_ids input.items
    products ← gets (λ w. find_many (orderable ids) w.products)
    throw_unless (length products == distinct_size ids)
        (bad_request "One or more products are unavailable")
    items ← or_throw (order_items products input.items) type_error
    checkout id reference client_id input products items
