-- ===== src/Shared/Pricing/Surge.antt =====
-- resolveSurgeMultiplier of packages/shared/src/utils/pricing.ts against a description in minutes.
use mathlib.Core.List.{Memᴰ}
use marhaba_delivery_v.Prelude.{
  ℕ, ◌+◌, ◌*◌, ◌<◌, ◌≤◌, ◌≡◌, refl, ◌⊎◌, inl, inr, true, false, ◌&&◌, List, [], ◌∷◌, arith, ltb,
  leb, includes, nat_eq, All, Bool-cases, if◌then◌else◌,
}
use marhaba_delivery_v.Shared.Pricing.{
  Text, SurgeWindow, LocalTime, millionths, max_number, hhmm, in_window, surge_from,
  resolve_surge_multiplier,
}
use marhaba_delivery_v.Shared.Pricing.Times.{text_le-hhmm}

-- At a time of day, a window whose start and end are times of day applies on its days, from its
-- start to its end, both included.
pub in_window_minutes :
    (w : SurgeWindow) (day h m sh sm eh em : ℕ)
    → w.start_time ≡ hhmm sh sm
    → w.end_time ≡ hhmm eh em
    → h < 24
    → m < 60
    → sh < 24
    → sm < 60
    → eh < 24
    → em < 60
    → in_window w day (hhmm h m) ≡ (
        includes w.days day && (leb (sh * 60 + sm) (h * 60 + m) && leb (h * 60 + m) (eh * 60 + em)))
unfolding in_window
in_window_minutes w day h m sh sm eh em ps pe a b c d e f =
    rw (ps, pe, text_le-hhmm sh sm h m c d a b, text_le-hhmm h m eh em a b e f) refl

-- A window that ends before it starts, as one that crosses midnight does, never applies.
pub in_window_midnight :
    (w : SurgeWindow) (day h m sh sm eh em : ℕ)
    → w.start_time ≡ hhmm sh sm
    → w.end_time ≡ hhmm eh em
    → h < 24
    → m < 60
    → sh < 24
    → sm < 60
    → eh < 24
    → em < 60
    → eh * 60 + em < sh * 60 + sm
    → in_window w day (hhmm h m) ≡ false
in_window_midnight w day h m sh sm eh em ps pe a b c d e f late =
    ground (arith, in_window_minutes w day h m sh sm eh em ps pe a b c d e f)

-- The multipliers that apply bound the result from below.
abbrev pub IsBound : ℕ → Text → ℕ → List SurgeWindow → Type 0
IsBound day now bound windows =
    All (λ w. (if in_window w day now then w.multiplier else 0) ≤ bound) windows

surge_from_ge :
    (mult : ℕ) (windows : List SurgeWindow) (day : ℕ) (now : Text)
    → mult ≤ surge_from mult windows day now
unfolding surge_from
surge_from_ge mult [] day now = omega arith
surge_from_ge mult (w ∷ windows) day now = ground (
  arith,
  surge_from_ge (if in_window w day now then max_number mult w.multiplier else mult) windows day
      now,
)

surge_from-IsBound :
    (mult : ℕ) (windows : List SurgeWindow) (day : ℕ) (now : Text)
    → IsBound day now (surge_from mult windows day now) windows
unfolding surge_from
surge_from-IsBound mult [] day now = tt
surge_from-IsBound mult (w ∷ windows) day now =
    let next = if in_window w day now then max_number mult w.multiplier else mult in
    (ground (arith, surge_from_ge next windows day now), surge_from-IsBound next windows day now)

-- Where a multiplier comes from: the start value or a window that applies.
abbrev pub IsAttained : ℕ → Text → ℕ → ℕ → List SurgeWindow → Type 0
IsAttained day now mult result windows =
    (result ≡ mult)
    ⊎ ((w : SurgeWindow) × Memᴰ w windows × (in_window w day now ≡ true) × (result ≡ w.multiplier))

IsAttained-tail :
    (day : ℕ) (now : Text) (mult result : ℕ) (w : SurgeWindow) (windows : List SurgeWindow)
    → IsAttained day now
        (if in_window w day now then max_number mult w.multiplier else mult)
        result
        windows
    → IsAttained day now mult result (w ∷ windows)
IsAttained-tail day now mult result w windows (inr (v, m, a, e)) = inr (v, Memᴰ.tail m, a, e)
IsAttained-tail day now mult result w windows (inl e) = elim (Bool-cases (in_window w day now)) [
  | inl applies ↦ elim (Bool-cases (ltb mult w.multiplier)) [
    | inl more ↦ inr (w, Memᴰ.head refl, applies, ground arith)
    | inr less ↦ inl (ground arith)
  ]
  | inr skipped ↦ inl (ground arith)
]

surge_from-IsAttained :
    (mult : ℕ) (windows : List SurgeWindow) (day : ℕ) (now : Text)
    → IsAttained day now mult (surge_from mult windows day now) windows
unfolding surge_from
surge_from-IsAttained mult [] day now = inl refl
surge_from-IsAttained mult (w ∷ windows) day now =
    let next = if in_window w day now then max_number mult w.multiplier else mult in
    IsAttained-tail day now mult (surge_from next windows day now) w windows
      (surge_from-IsAttained next windows day now)

-- The multiplier is at least 1, no smaller than that of any window that applies, and it is 1 or
-- that of a window that applies: the largest of these, whatever the order of the windows.
pub resolve_surge_is_max :
    (windows : List SurgeWindow) (at : LocalTime)
    → let result = resolve_surge_multiplier windows at in
      let now = hhmm at.hours at.minutes in
      (millionths ≤ result)
      × IsBound at.day now result windows
      × IsAttained at.day now millionths result windows
unfolding resolve_surge_multiplier
resolve_surge_is_max windows at =
    let now = hhmm at.hours at.minutes in
    (
      surge_from_ge millionths windows at.day now,
      surge_from-IsBound millionths windows at.day now,
      surge_from-IsAttained millionths windows at.day now,
    )

surge_from-le :
    (mult : ℕ) (windows : List SurgeWindow) (day : ℕ) (now : Text) (top : ℕ)
    → mult ≤ top
    → All (λ w. w.multiplier ≤ top) windows
    → surge_from mult windows day now ≤ top
unfolding surge_from
surge_from-le mult [] day now top below caps = below
surge_from-le mult (w ∷ windows) day now top below caps =
    let next = if in_window w day now then max_number mult w.multiplier else mult in
    let capped : next ≤ top = ground arith in surge_from-le next windows day now top capped caps.1

-- A cap on the multipliers of all windows, at least 1, caps the result.
pub resolve_surge-le :
    (windows : List SurgeWindow) (at : LocalTime) (top : ℕ)
    → millionths ≤ top
    → All (λ w. w.multiplier ≤ top) windows
    → resolve_surge_multiplier windows at ≤ top
unfolding resolve_surge_multiplier
resolve_surge-le windows at top one caps =
    surge_from-le millionths windows at.day (hhmm at.hours at.minutes) top one caps
