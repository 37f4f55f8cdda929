-- ===== src/Shared/Pricing/Bounds.antt =====
-- computePricing of packages/shared/src/utils/pricing.ts: how the amounts of a snapshot hang
-- together, and what they are bounded by.
use marhaba_delivery_v.Prelude.{
  ℕ, ◌+◌, ◌*◌, ◌≤◌, ◌≡◌, ◌↔◌, refl, true, String, Option, none, some, arith, leb, All,
  if◌then◌else◌,
}
use marhaba_delivery_v.Shared.Pricing.{
  PricingRule, PricingSnapshot, LocalTime, millionths, round_minor, meets_threshold,
  resolve_surge_multiplier, compute_pricing,
}
use marhaba_delivery_v.Shared.Pricing.Surge.{resolve_surge_is_max, resolve_surge-le}

-- A multiplier of at least 1 never makes a whole amount smaller.
round_minor_ge : (n m : ℕ) → millionths ≤ m → n ≤ round_minor (n * m)
unfolding round_minor
round_minor_ge n m h = let scaled : n * millionths ≤ n * m = grind arith in omega arith

mul_mono : (n a b : ℕ) → a ≤ b → n * a ≤ n * b
mul_mono n a b h = grind arith

round_minor-mul-le : (n m top : ℕ) → m ≤ top * millionths → round_minor (n * m) ≤ n * top
unfolding round_minor
round_minor-mul-le n m top h = omega (arith, mul_mono n m (top * millionths) h)

pub round_minor_mono : (a b : ℕ) → a ≤ b → round_minor a ≤ round_minor b
unfolding round_minor
round_minor_mono a b h = omega arith

-- The accounts of a snapshot.
pub record IsBalanced (s : PricingSnapshot) : Type 0 where
  pub delivery : s.delivery_fee_minor ≡ (
      if s.free_delivery_applied
      then 0
      else s.base_fee_minor + s.distance_fee_minor + s.surge_fee_minor)
  pub total : s.total_minor ≡ s.subtotal_minor + s.delivery_fee_minor
  pub minimum : s.min_order_met ≡ leb s.min_order_minor s.subtotal_minor
  pub multiplier : millionths ≤ s.surge_multiplier

-- Whatever the rule, distance and time: fee = base + distance + surge, or 0 when delivery is free;
-- total = subtotal + fee; the flag tells whether the minimum is met; the multiplier is at least 1.
pub compute_pricing-IsBalanced :
    (rule : Option PricingRule) (subtotal distance : ℕ) (currency : String) (at : LocalTime)
    → IsBalanced (compute_pricing rule subtotal distance currency at)
unfolding compute_pricing
compute_pricing-IsBalanced none subtotal distance currency at = ground arith
compute_pricing-IsBalanced (some rule) subtotal distance currency at =
    let m = resolve_surge_multiplier rule.surge_windows at in
    let pre = rule.base_fee_minor + round_minor (rule.per_km_minor * distance) in
    ground (arith, (resolve_surge_is_max rule.surge_windows at).0, round_minor_ge pre m)

-- With multipliers of at most `top` (at least 1; the schema has 5), the delivery fee is at most `top`
-- times the base and distance fees.
pub delivery_fee-le :
    (rule : PricingRule) (subtotal distance : ℕ) (currency : String) (at : LocalTime) (top : ℕ)
    → 1 ≤ top
    → All (λ w. w.multiplier ≤ top * millionths) rule.surge_windows
    → let s = compute_pricing (some rule) subtotal distance currency at in
      s.delivery_fee_minor ≤ (s.base_fee_minor + s.distance_fee_minor) * top
unfolding compute_pricing
delivery_fee-le rule subtotal distance currency at top one caps =
    let m = resolve_surge_multiplier rule.surge_windows at in
    let pre = rule.base_fee_minor + round_minor (rule.per_km_minor * distance) in
    ground (
      arith,
      resolve_surge-le rule.surge_windows at (top * millionths) (omega arith) caps,
      round_minor-mul-le pre m top,
    )

-- A longer way never costs less: the total grows with the distance, all else being equal.
pub total_mono_distance :
    (rule : Option PricingRule) (subtotal near far : ℕ) (currency : String) (at : LocalTime)
    → near ≤ far
    → (compute_pricing rule subtotal near currency at).total_minor
      ≤ (compute_pricing rule subtotal far currency at).total_minor
unfolding compute_pricing
total_mono_distance none subtotal near far currency at h = ground arith
total_mono_distance (some rule) subtotal near far currency at h =
    let m = resolve_surge_multiplier rule.surge_windows at in
    let fee = λ (d : ℕ). round_minor (rule.per_km_minor * d) in
    let way : rule.per_km_minor * near ≤ rule.per_km_minor * far = grind arith in
    let fees : fee near ≤ fee far = round_minor_mono _ _ way in
    let surged : (rule.base_fee_minor + fee near) * m ≤ (rule.base_fee_minor + fee far) * m =
      grind arith in
    ground (arith, round_minor_mono _ _ surged)

threshold_met :
    (threshold : Option ℕ) (subtotal : ℕ)
    → meets_threshold threshold subtotal ≡ true
    → (t : ℕ) × (threshold ≡ some t) × (t ≤ subtotal)
unfolding meets_threshold
threshold_met none subtotal h = cc
threshold_met (some t) subtotal h = (t, refl, ground arith)

-- Delivery is free exactly when the rule has a threshold and the subtotal reaches it.
pub free_delivery_iff :
    (rule : PricingRule) (subtotal distance : ℕ) (currency : String) (at : LocalTime)
    → let s = compute_pricing (some rule) subtotal distance currency at in
      (s.free_delivery_applied ≡ true)
      ↔ ((t : ℕ) × (rule.free_delivery_threshold_minor ≡ some t) × (t ≤ subtotal))
unfolding compute_pricing
free_delivery_iff rule subtotal distance currency at = (
  λ h. threshold_met rule.free_delivery_threshold_minor subtotal h,
  λ h. let (t, e, le) = h in rw e (ground arith),
)
