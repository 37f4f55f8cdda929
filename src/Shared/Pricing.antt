-- ===== src/Shared/Pricing.antt =====
-- packages/shared/src/utils/pricing.ts, with the records of packages/shared/src/schemas/pricing.ts.
-- A number that is not an integer (a distance in km, a multiplier) is given in millionths, exactly;
-- the rounding of binary floating point is not modelled. Texts that are compared by order are lists
-- of UTF-16 code units. `at` is the time of the quote in the server's time zone.
pub mod Times
pub mod Bounds
pub mod Surge
use marhaba_delivery_v.Prelude.{
  ℕ, ◌+◌, ◌-◌, ◌*◌, ◌/◌, ◌%◌, String, Bool, true, false, not, ◌&&◌, List, [], ◌∷◌, Option, none,
  some, ltb, leb, ◌==◌, nat_eq, nat_beq, includes, if◌then◌else◌,
}

abbrev pub millionths : ℕ
millionths = 1_000_000

-- A JavaScript string as its code units.
abbrev pub Text : Type 0
Text = List ℕ

pub record SurgeWindow : Type 0 where
  pub label : Option String
  pub days : List ℕ
  pub start_time : Text
  pub end_time : Text
  pub multiplier : ℕ

pub record PricingRule : Type 0 where
  pub id : String
  pub zone_id : String
  pub base_fee_minor : ℕ
  pub per_km_minor : ℕ
  pub min_order_minor : ℕ
  pub free_delivery_threshold_minor : Option ℕ
  pub surge_windows : List SurgeWindow
  pub is_active : Bool

pub record PricingSnapshot : Type 0 where
  pub zone_id : Option String
  pub pricing_rule_id : Option String
  pub distance_km : ℕ
  pub subtotal_minor : ℕ
  pub base_fee_minor : ℕ
  pub distance_fee_minor : ℕ
  pub surge_multiplier : ℕ
  pub surge_fee_minor : ℕ
  pub free_delivery_applied : Bool
  pub delivery_fee_minor : ℕ
  pub min_order_minor : ℕ
  pub min_order_met : Bool
  pub total_minor : ℕ
  pub currency : String

-- `Math.round` of a non-negative number: halves go up.
unfoldable pub round_minor : ℕ → ℕ
round_minor n = (n + 500_000) / millionths

-- getDay(), getHours() and getMinutes() of a date.
pub record LocalTime : Type 0 where
  pub day : ℕ
  pub hours : ℕ
  pub minutes : ℕ

-- `String(n)` for a number below 100.
unfoldable pub decimal : ℕ → Text
decimal n = if ltb n 10 then (b'0' + n) ∷ [] else (b'0' + n / 10) ∷ (b'0' + n % 10) ∷ []

-- `padStart(2, '0')` of a text that is not empty.
unfoldable pub pad_start : Text → Text
pad_start (c ∷ []) = b'0' ∷ c ∷ []
pad_start s = s

append_colon : Text → Text → Text
append_colon [] s = b':' ∷ s
append_colon (c ∷ cs) s = c ∷ append_colon cs s

-- `${hours}:${minutes}`, each padded to two digits.
unfoldable pub hhmm : ℕ → ℕ → Text
unfolding decimal pad_start append_colon
hhmm h m = append_colon (pad_start (decimal h)) (pad_start (decimal m))

-- `s <= t` on strings: by the first code unit that differs, a prefix first.
unfoldable pub text_le : Text → Text → Bool
text_le [] t = true
text_le (c ∷ s) [] = false
text_le (c ∷ s) (d ∷ t) = let rest = text_le s t in if c == d then rest else ltb c d

-- `Math.max`.
abbrev pub max_number : ℕ → ℕ → ℕ
max_number a b = if ltb a b then b else a

-- Does the window apply on that day at that time of day?
unfoldable pub in_window : SurgeWindow → ℕ → Text → Bool
in_window w day now = includes w.days day && (text_le w.start_time now && text_le now w.end_time)

-- The loop of resolveSurgeMultiplier, from the multiplier found so far.
unfoldable pub surge_from : ℕ → List SurgeWindow → ℕ → Text → ℕ
surge_from mult [] day now = mult
surge_from mult (w ∷ windows) day now =
    surge_from (if in_window w day now then max_number mult w.multiplier else mult) windows day now

unfoldable pub resolve_surge_multiplier : List SurgeWindow → LocalTime → ℕ
resolve_surge_multiplier windows at =
    surge_from millionths windows at.day (hhmm at.hours at.minutes)

-- `freeThreshold != null && subtotalMinor >= freeThreshold`.
unfoldable pub meets_threshold : Option ℕ → ℕ → Bool
meets_threshold none subtotal = false
meets_threshold (some t) subtotal = leb t subtotal

price_with_rule : PricingRule → ℕ → ℕ → String → LocalTime → PricingSnapshot
unfolding meets_threshold
price_with_rule rule subtotal distance currency at =
    let distance_fee = round_minor (rule.per_km_minor * distance) in
    let multiplier = resolve_surge_multiplier rule.surge_windows at in
    let pre_surge = rule.base_fee_minor + distance_fee in
    let surged = round_minor (pre_surge * multiplier) in
    let free = meets_threshold rule.free_delivery_threshold_minor subtotal in
    let delivery_fee = if free then 0 else surged in
    record {
      zone_id = some rule.zone_id;
      pricing_rule_id = some rule.id;
      distance_km = distance;
      subtotal_minor = subtotal;
      base_fee_minor = rule.base_fee_minor;
      distance_fee_minor = distance_fee;
      surge_multiplier = multiplier;
      surge_fee_minor = surged - pre_surge;
      free_delivery_applied = free;
      delivery_fee_minor = delivery_fee;
      min_order_minor = rule.min_order_minor;
      min_order_met = leb rule.min_order_minor subtotal;
      total_minor = subtotal + delivery_fee;
      currency = currency;
    }

-- No zone or rule matched: a fallback with no delivery fee.
price_without_rule : ℕ → ℕ → String → PricingSnapshot
price_without_rule subtotal distance currency = record {
  zone_id = none;
  pricing_rule_id = none;
  distance_km = distance;
  subtotal_minor = subtotal;
  base_fee_minor = 0;
  distance_fee_minor = 0;
  surge_multiplier = millionths;
  surge_fee_minor = 0;
  free_delivery_applied = false;
  delivery_fee_minor = 0;
  min_order_minor = 0;
  min_order_met = true;
  total_minor = subtotal;
  currency = currency;
}

unfoldable pub compute_pricing : Option PricingRule → ℕ → ℕ → String → LocalTime → PricingSnapshot
unfolding price_with_rule price_without_rule
compute_pricing none subtotal distance currency at = price_without_rule subtotal distance currency
compute_pricing (some rule) subtotal distance currency at =
    price_with_rule rule subtotal distance currency at
