-- ===== src/Api/Guards/Limits.antt =====
-- RedisService.rateLimit (packages/api/src/common/redis/redis.service.ts) over many calls.
use marhaba_delivery_v.Prelude.{
  ℕ, ◌+◌, ◌-◌, ◌*◌, ◌<◌, ◌≤◌, ◌≡◌, Bool, List, [], ◌∷◌, arith, if◌then◌else◌, leb, All, length,
}
use marhaba_delivery_v.Prelude.Rows.{count}
use marhaba_delivery_v.Api.Guards.{Counter, absent, counting, rate_limit}

-- Calls at some times, one after the other: which of them are allowed.
abbrev pub decisions : ℕ → ℕ → Counter → List ℕ → List Bool
decisions limit window counter [] = []
decisions limit window counter (t ∷ times) =
    let (r, counter') = rate_limit limit window counter t in
    r.allowed ∷ decisions limit window counter' times

abbrev pub allowed : List Bool → ℕ
allowed bs = count (λ b. b) bs

abbrev pub smaller : ℕ → ℕ → ℕ
smaller m n = if leb m n then m else n

counting_allowed :
    (limit window n until : ℕ) (times : List ℕ)
    → All (λ t. t < until) times
    → allowed (decisions limit window (counting n until) times) ≡ smaller (length times) (limit - n)
unfolding count rate_limit
counting_allowed limit window n until [] early = ground arith
counting_allowed limit window n until (t ∷ times) early =
    ground (arith, early.0, counting_allowed limit window (n + 1) until times early.1)

-- From the first call of a window on, as long as the window lasts, exactly the first `limit` calls
-- are allowed, or all of them if they are fewer.
pub window_allows :
    (limit window first : ℕ) (times : List ℕ)
    → All (λ t. t < first + window * 1000) times
    → allowed (decisions limit window absent (first ∷ times))
      ≡ smaller (length (first ∷ times)) limit
unfolding count rate_limit
window_allows limit window first times early =
    ground (arith, counting_allowed limit window 1 (first + window * 1000) times early)

-- When the window is over, the counter starts again: what was counted before does not matter.
pub window_expires :
    (limit window n until now : ℕ)
    → until ≤ now
    → rate_limit limit window (counting n until) now ≡ rate_limit limit window absent now
unfolding rate_limit
window_expires limit window n until now late = ground arith
