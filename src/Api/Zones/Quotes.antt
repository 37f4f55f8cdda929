-- ===== src/Api/Zones/Quotes.antt =====
-- Which zone and rule a quote uses (packages/api/src/modules/geo/geo.service.ts and
-- packages/api/src/modules/zones/pricing.service.ts).
use mathlib.Core.List.{Memᴰ}
use marhaba_delivery_v.Prelude.{String, ◌≡◌, ◌≤◌, true, some, arith, Option-cases, inl, inr}
use marhaba_delivery_v.Prelude.Rows.{
  find_many, find_largest, find_largest-mem, find_largest-ge, find_many_meets, mem-find_many,
  mem_of_find_many,
}
use marhaba_delivery_v.Shared.Pricing.{PricingRule}
use marhaba_delivery_v.Api.World.{World, GeoPoint, DeliveryZone, RuleRow}
use marhaba_delivery_v.Api.Zones.{Site, serves, find_zone_for_point, rule_for_zone, active_rule_of}

module _ (site : Site) (point : GeoPoint) (w : World) where
  -- The zone of a point is one of the table that is active, has an area and covers the point, and no
  -- such zone has a higher priority.
  pub find_zone_is_highest :
      (id : String) (other : DeliveryZone)
      → find_zone_for_point site point w ≡ some id
      → Memᴰ other w.zones
      → serves site point other ≡ true
      → (z : DeliveryZone) × (z.id ≡ id)
        × Memᴰ z w.zones
        × (serves site point z ≡ true)
        × (other.priority ≤ z.priority)
  unfolding find_zone_for_point
  find_zone_is_highest id other h m meets =
      let rows = find_many (serves site point) w.zones in
      elim (Option-cases (find_largest (λ z. z.priority) rows)) [
        | inl nothing ↦ ground arith
        | inr (z, best) ↦
            let among = find_largest-mem (λ x. x.priority) rows z best in
            (
              z,
              ground arith,
              mem_of_find_many (serves site point) w.zones z among,
              find_many_meets (serves site point) w.zones z among,
              find_largest-ge (λ x. x.priority) rows z other best
                  (mem-find_many (serves site point) w.zones other m meets),
            )
      ]

-- The rule of a zone is an active one of that zone, and no such rule is newer.
pub rule_is_newest :
    (site : Site) (w : World) (zone_id : String) (rule : PricingRule) (other : RuleRow)
    → rule_for_zone site (some zone_id) w ≡ some rule
    → Memᴰ other w.pricing_rules
    → active_rule_of zone_id other ≡ true
    → (r : RuleRow) × (r.rule ≡ rule)
      × Memᴰ r w.pricing_rules
      × (active_rule_of zone_id r ≡ true)
      × (other.created_at ≤ r.created_at)
unfolding rule_for_zone
rule_is_newest site w zone_id rule other h m meets =
    let rows = find_many (active_rule_of zone_id) w.pricing_rules in
    elim (Option-cases (find_largest (λ r. r.created_at) rows)) [
      | inl nothing ↦ ground arith
      | inr (r, best) ↦
          let among = find_largest-mem (λ x. x.created_at) rows r best in
          (
            r,
            ground arith,
            mem_of_find_many (active_rule_of zone_id) w.pricing_rules r among,
            find_many_meets (active_rule_of zone_id) w.pricing_rules r among,
            find_largest-ge (λ x. x.created_at) rows r other best
                (mem-find_many (active_rule_of zone_id) w.pricing_rules other m meets),
          )
    ]
