-- ===== src/Api/Zones.antt =====
-- Delivery zones and quotes: packages/api/src/modules/geo/geo.service.ts (the zone of a point and the
-- distance between two points), packages/api/src/modules/zones/pricing.service.ts and
-- packages/api/src/modules/zones/zones.service.ts. PostGIS answers whether an area covers a point
-- and how far two points are apart, and the run time gives the local time of a date: they are fields
-- of `Site`.
pub mod Quotes
use marhaba_delivery_v.Prelude.{
  ℕ, String, Bool, true, false, ◌&&◌, List, [], ◌∷◌, Option, none, some, ◌==◌, string_eq, is_truthy,
  if◌then◌else◌,
}
use marhaba_delivery_v.Prelude.Rows.{find_first, find_many, find_largest, map_some}
use marhaba_delivery_v.Prelude.Action.{
  Action, not_found, pure, or_throw, find, gets, create, update, ◌>>=◌, ◌>>◌,
}
use marhaba_delivery_v.Shared.Pricing.{
  PricingRule, PricingSnapshot, LocalTime, SurgeWindow, compute_pricing,
}
use marhaba_delivery_v.Api.World.{World, GeoPoint, DeliveryZone, RuleRow, zone_table, rule_table}

-- ST_Covers of a zone's area, ST_Distance in millimetres, and the server's time zone.
pub record Site : Type 0 where
  pub covers : DeliveryZone → GeoPoint → Bool
  pub distance_mm : GeoPoint → GeoPoint → ℕ
  pub local_time : ℕ → LocalTime

abbrev pub zone_with_id : String → DeliveryZone → Bool
zone_with_id id z = z.id == id

abbrev pub rule_with_id : String → RuleRow → Bool
rule_with_id id r = r.rule.id == id

abbrev pub zone_id_of : Option DeliveryZone → Option String
zone_id_of none = none
zone_id_of (some z) = some z.id

abbrev pub rule_of : Option RuleRow → Option PricingRule
rule_of none = none
rule_of (some r) = some r.rule

-- `WHERE "isActive" AND area IS NOT NULL AND ST_Covers(area, point)`.
abbrev pub serves : Site → GeoPoint → DeliveryZone → Bool
serves site point z = z.is_active && (z.has_area && site.covers z point)

-- `where: { zoneId, isActive: true }`.
abbrev pub active_rule_of : String → RuleRow → Bool
active_rule_of zone_id r = r.rule.zone_id == zone_id && r.rule.is_active

module _ (site : Site) where
  unfoldable pub find_zone_for_point : GeoPoint → World → Option String
  find_zone_for_point point w =
      zone_id_of (find_largest (λ z. z.priority) (find_many (serves site point) w.zones))

  -- `zoneId ? findFirst({ where, orderBy: { createdAt: 'desc' } }) : null`.
  unfoldable pub rule_for_zone : Option String → World → Option PricingRule
  rule_for_zone none w = none
  rule_for_zone (some zone_id) w =
      if is_truthy (some zone_id)
      then rule_of
          (find_largest (λ r. r.created_at) (find_many (active_rule_of zone_id) w.pricing_rules))
      else none

  -- PricingService.quote: the snapshot, and the zone that was found. Metres divided by 1000 are
  -- kilometres: millimetres are millionths of a kilometre.
  unfoldable pub quote :
      ℕ → GeoPoint → GeoPoint → String → ℕ → World → PricingSnapshot × Option String
  unfolding find_zone_for_point rule_for_zone
  quote subtotal pickup dropoff currency at w =
      let zone_id = find_zone_for_point dropoff w in
      (
        compute_pricing (rule_for_zone zone_id w) subtotal (site.distance_mm pickup dropoff)
            currency (site.local_time at),
        zone_id,
      )

pub record CreateDeliveryZoneInput : Type 0 where
  pub name : String
  pub polygon : List (List GeoPoint)
  pub is_active : Bool
  pub priority : ℕ

-- A partial input: an absent field is not written.
pub record UpdateDeliveryZoneInput : Type 0 where
  pub name : Option String
  pub polygon : Option (List (List GeoPoint))
  pub is_active : Option Bool
  pub priority : Option ℕ

abbrev pub or_keep {ℓ} : {A : Type ℓ} → Option A → A → A
or_keep none a = a
or_keep (some b) a = b

abbrev pub is_some {ℓ} : {A : Type ℓ} → Option A → Bool
is_some none = false
is_some (some a) = true

-- syncZoneArea: the geometry column follows the polygon of the row.
abbrev sync_zone_area : String → Action World DeliveryZone
sync_zone_area id = update zone_table (zone_with_id id) (λ z. record z { has_area = true })

unfoldable pub create_zone : String → CreateDeliveryZoneInput → Action World DeliveryZone
create_zone id input = do
  zone ← create zone_table (record {
    id = id;
    name = input.name;
    is_active = input.is_active;
    priority = input.priority;
    polygon = input.polygon;
    has_area = false;
  })
  sync_zone_area id
  pure zone

abbrev ensure_zone : String → Action World DeliveryZone
ensure_zone id = do
  row ← find zone_table (zone_with_id id)
  or_throw row (not_found "Delivery zone not found")

unfoldable pub update_zone : String → UpdateDeliveryZoneInput → Action World DeliveryZone
update_zone id input = do
  ensure_zone id
  zone ← update zone_table (zone_with_id id) (λ z. record z {
    name = or_keep input.name z.name;
    is_active = or_keep input.is_active z.is_active;
    priority = or_keep input.priority z.priority;
    polygon = or_keep input.polygon z.polygon;
  })
  if is_some input.polygon then sync_zone_area id else pure zone
  pure zone

unfoldable pub delete_zone : String → Action World DeliveryZone
delete_zone id = do
  ensure_zone id
  update zone_table (zone_with_id id) (λ z. record z { is_active = false })

unfoldable pub create_pricing_rule : PricingRule → Action World RuleRow
create_pricing_rule rule = do
  ensure_zone rule.zone_id
  now ← gets (λ w. w.now)
  create rule_table (record { rule = rule; created_at = now })

pub record UpdatePricingRuleInput : Type 0 where
  pub base_fee_minor : Option ℕ
  pub per_km_minor : Option ℕ
  pub min_order_minor : Option ℕ
  pub free_delivery_threshold_minor : Option (Option ℕ)
  pub surge_windows : Option (List SurgeWindow)
  pub is_active : Option Bool

abbrev pub patch_rule : UpdatePricingRuleInput → PricingRule → PricingRule
patch_rule input r = record r {
  base_fee_minor = or_keep input.base_fee_minor r.base_fee_minor;
  per_km_minor = or_keep input.per_km_minor r.per_km_minor;
  min_order_minor = or_keep input.min_order_minor r.min_order_minor;
  free_delivery_threshold_minor =
      or_keep input.free_delivery_threshold_minor r.free_delivery_threshold_minor;
  surge_windows = or_keep input.surge_windows r.surge_windows;
  is_active = or_keep input.is_active r.is_active;
}

unfoldable pub update_pricing_rule : String → UpdatePricingRuleInput → Action World RuleRow
update_pricing_rule id input = do
  row ← find rule_table (rule_with_id id)
  or_throw row (not_found "Pricing rule not found")
  update rule_table (rule_with_id id) (λ r. record r { rule = patch_rule input r.rule })
