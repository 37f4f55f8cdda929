-- ===== src/Examples/Data.antt =====
-- An order of two dishes, a driver near the kitchen, and a database with both.
use marhaba_delivery_v.Prelude.{
  ℕ, String, true, false, List, [], ◌∷◌, Option, none, some, string_eq,
}
use marhaba_delivery_v.Shared.Enums.{UserRole, OrderStatus, PaymentMethod, DriverStatus}
use marhaba_delivery_v.Shared.Pricing.{PricingRule, PricingSnapshot, SurgeWindow, hhmm}
use marhaba_delivery_v.Api.World.{
  World, Order, Product, DriverProfile, Address, GeoPoint, DeliveryZone,
}
use marhaba_delivery_v.Api.Zones.{Site}
use marhaba_delivery_v.Api.Orders.{AuthenticatedUser}
use marhaba_delivery_v.Api.Orders.Creation.{default_pickup_address, CreateOrderInput}

abbrev pub point : ℕ → GeoPoint
point n = record {
  lng = record { negative = false; magnitude = n };
  lat = record { negative = false; magnitude = 252_048_000 };
}

abbrev pub home : Address
home = record {
  label = none;
  line1 = "Al Wasl Rd 7";
  city = "Dubai";
  country = "AE";
  point = point 552_000_000;
  notes = none;
}

abbrev pub rush_hour : SurgeWindow
rush_hour = record {
  label = none;
  days = 5 ∷ [];
  start_time = hhmm 18 0;
  end_time = hhmm 20 0;
  multiplier = 1_500_000;
}

abbrev pub rule : PricingRule
rule = record {
  id = "r1";
  zone_id = "z1";
  base_fee_minor = 500;
  per_km_minor = 100;
  min_order_minor = 2000;
  free_delivery_threshold_minor = some 20000;
  surge_windows = rush_hour ∷ [];
  is_active = true;
}

abbrev pub snapshot : PricingSnapshot
snapshot = record {
  zone_id = none;
  pricing_rule_id = none;
  distance_km = 0;
  subtotal_minor = 6000;
  base_fee_minor = 0;
  distance_fee_minor = 0;
  surge_multiplier = 1_000_000;
  surge_fee_minor = 0;
  free_delivery_applied = false;
  delivery_fee_minor = 0;
  min_order_minor = 0;
  min_order_met = true;
  total_minor = 6000;
  currency = "AED";
}

abbrev pub order_in : OrderStatus → Option String → Order
order_in status driver = record {
  id = "o1";
  reference = "MRH-1";
  client_id = "u1";
  driver_id = driver;
  zone_id = none;
  status = status;
  payment_method = PaymentMethod.card;
  assignment_mode = none;
  pickup_address = default_pickup_address;
  dropoff_address = home;
  dropoff_lng = home.point.lng;
  dropoff_lat = home.point.lat;
  pricing = snapshot;
  currency = "AED";
  subtotal_minor = 6000;
  total_minor = 6000;
  scheduled_for = none;
  notes = none;
  items = [];
  created_at = 0;
}

abbrev pub driver_with : Option String → DriverProfile
driver_with order = record {
  id = "d1";
  user_id = "u2";
  status = DriverStatus.available;
  active_order_id = order;
  last_lng = some home.point.lng;
  last_lat = some home.point.lat;
  last_seen_at = none;
}

abbrev pub biryani : Product
biryani = record {
  id = "p1";
  name = "Biryani";
  price_minor = 3000;
  currency = "AED";
  is_available = true;
}

abbrev pub city : DeliveryZone
city = record {
  id = "z1";
  name = "City";
  is_active = true;
  priority = 5;
  polygon = [];
  has_area = true;
}

abbrev pub world_of : List Order → List DriverProfile → World
world_of orders drivers = record {
  now = 1000;
  socket_ready = true;
  users = [];
  zones = city ∷ [];
  pricing_rules = record { rule = rule; created_at = 1 } ∷ [];
  orders = orders;
  order_events = [];
  drivers = drivers;
  products = biryani ∷ [];
  payments = [];
  attempts = [];
  proofs = [];
  processed_webhooks = [];
  codes = [];
  jobs = [];
  messages = [];
}

-- Every zone covers every point, every way is five kilometres, and it is Friday, seven o'clock.
abbrev pub site : Site
site = record {
  covers = λ z p. true;
  distance_mm = λ p q. 5_000_000;
  local_time = λ t. record { day = 5; hours = 19; minutes = 0 };
}

abbrev pub client : AuthenticatedUser
client = record { id = "u1"; email = "a@b.ae"; role = UserRole.client }

abbrev pub two_dishes : CreateOrderInput
two_dishes = record {
  items = record { product_id = "p1"; quantity = 2 } ∷ [];
  dropoff_address = home;
  payment_method = PaymentMethod.card;
  scheduled_for = none;
  notes = none;
  place_now = true;
}
