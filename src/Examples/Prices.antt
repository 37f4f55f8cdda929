-- ===== src/Examples/Prices.antt =====
-- Prices, and the state machine, on concrete values.
use marhaba_delivery_v.Prelude.{
  ℕ, ◌≡◌, refl, ◌≤◌, ◌*◌, ◌+◌, ◌<◌, ◌↔◌, ◌≢◌, true, [], ◌∷◌, some, arith, includes, ◌&&◌, leb,
  nat_eq,
}
use marhaba_delivery_v.Shared.Enums.{OrderStatus}
use marhaba_delivery_v.Shared.Enums.Equality.{order_status_eq}
use marhaba_delivery_v.Shared.StateMachine.{can_transition, is_terminal}
use marhaba_delivery_v.Shared.StateMachine.Graph.{
  RunAround, milestones, delivered_passes_iff, terminal_exit,
}
use marhaba_delivery_v.Shared.Pricing.{
  compute_pricing, resolve_surge_multiplier, surge_from, text_le, round_minor, meets_threshold,
  millionths, hhmm, in_window, LocalTime,
}
use marhaba_delivery_v.Shared.Pricing.Times.{matches_time, matches_time_sound}
use marhaba_delivery_v.Shared.Pricing.Surge.{
  resolve_surge_is_max, in_window_minutes, IsBound, IsAttained,
}
use marhaba_delivery_v.Shared.Pricing.Bounds.{
  IsBalanced, compute_pricing-IsBalanced, delivery_fee-le, total_mono_distance, free_delivery_iff,
}
use marhaba_delivery_v.Examples.Data.{rule, rush_hour}

abbrev friday_evening : LocalTime
friday_evening = record { day = 5; hours = 19; minutes = 0 }

delivered_passes_iff_example :
    (¬ RunAround OrderStatus.out_for_delivery OrderStatus.draft OrderStatus.delivered)
    ↔ (includes milestones OrderStatus.out_for_delivery ≡ true)
delivered_passes_iff_example = delivered_passes_iff OrderStatus.out_for_delivery

terminal_exit_test : (can_transition OrderStatus.delivered OrderStatus.refunded ≡ true) ↔ (
    (OrderStatus.refunded ≡ OrderStatus.refunded) × (OrderStatus.delivered ≢ OrderStatus.refunded))
unfolding is_terminal
terminal_exit_test = terminal_exit OrderStatus.delivered OrderStatus.refunded refl

-- Base 5.00, five kilometres at 1.00, and half of that on top in the rush hour.
compute_pricing_test :
    (compute_pricing (some rule) 6000 5_000_000 "AED" friday_evening).total_minor ≡ 7500
unfolding compute_pricing resolve_surge_multiplier surge_from in_window hhmm text_le round_minor
    meets_threshold
compute_pricing_test = refl

compute_pricing-IsBalanced_example :
    IsBalanced (compute_pricing (some rule) 6000 5_000_000 "AED" friday_evening)
compute_pricing-IsBalanced_example =
    compute_pricing-IsBalanced (some rule) 6000 5_000_000 "AED" friday_evening

resolve_surge_is_max_example :
    (millionths ≤ resolve_surge_multiplier (rush_hour ∷ []) friday_evening)
    × IsBound 5
        (hhmm 19 0)
        (resolve_surge_multiplier (rush_hour ∷ []) friday_evening)
        (rush_hour ∷ [])
    × IsAttained 5
        (hhmm 19 0)
        millionths
        (resolve_surge_multiplier (rush_hour ∷ []) friday_evening)
        (rush_hour ∷ [])
resolve_surge_is_max_example = resolve_surge_is_max (rush_hour ∷ []) friday_evening

in_window_minutes_example : in_window rush_hour 5 (hhmm 19 0) ≡ (
    includes rush_hour.days 5
    && (leb (18 * 60 + 0) (19 * 60 + 0) && leb (19 * 60 + 0) (20 * 60 + 0)))
in_window_minutes_example =
    in_window_minutes rush_hour 5 19 0 18 0 20 0 refl refl (omega arith) (omega arith) (omega arith)
      (omega arith) (omega arith) (omega arith)

delivery_fee-le_test :
    (compute_pricing (some rule) 6000 5_000_000 "AED" friday_evening).delivery_fee_minor
    ≤ ((compute_pricing (some rule) 6000 5_000_000 "AED" friday_evening).base_fee_minor
        + (compute_pricing (some rule) 6000 5_000_000 "AED" friday_evening).distance_fee_minor)
      * 5
delivery_fee-le_test =
    delivery_fee-le rule 6000 5_000_000 "AED" friday_evening 5 (omega arith) (omega arith, tt)

total_mono_distance_test :
    (compute_pricing (some rule) 6000 1_000_000 "AED" friday_evening).total_minor
    ≤ (compute_pricing (some rule) 6000 5_000_000 "AED" friday_evening).total_minor
total_mono_distance_test =
    total_mono_distance (some rule) 6000 1_000_000 5_000_000 "AED" friday_evening (omega arith)

free_delivery_iff_test :
    ((compute_pricing (some rule) 25000 5_000_000 "AED" friday_evening).free_delivery_applied
      ≡ true)
    ↔ ((t : ℕ) × (rule.free_delivery_threshold_minor ≡ some t) × (t ≤ 25000))
free_delivery_iff_test = free_delivery_iff rule 25000 5_000_000 "AED" friday_evening

matches_time_sound_test : (h : ℕ) × (m : ℕ) × (h < 24) × (m < 60) × (hhmm 18 30 ≡ hhmm h m)
unfolding matches_time hhmm
matches_time_sound_test = matches_time_sound (hhmm 18 30) refl
