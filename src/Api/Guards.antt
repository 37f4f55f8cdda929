-- ===== src/Api/Guards.antt =====
-- packages/api/src/common/guards: the JWT guard, the role guard and the rate limit, with the counter
-- of packages/api/src/common/redis/redis.service.ts.
pub mod Limits
pub mod Access
pub mod Browser
use marhaba_delivery_v.Prelude.{
  ℕ, ◌+◌, ◌-◌, ◌*◌, String, Bool, true, false, ◌||◌, List, [], ◌∷◌, Option, none, some, is_truthy,
  includes, ltb, leb, if◌then◌else◌,
}
use marhaba_delivery_v.Prelude.Action.{
  Outcome, ok, throws, Exception, unauthorized, forbidden, too_many_requests,
}
use marhaba_delivery_v.Shared.Enums.{UserRole}
use marhaba_delivery_v.Shared.Enums.Equality.{role_eq}
use marhaba_delivery_v.Api.Orders.{AuthenticatedUser}
use marhaba_delivery_v.Api.Auth.{JwtPayload, TokenType, access, refresh, is_access, Crypto}

-- The token of a request: its cookie if that is not empty, else the bearer token, which is already
-- the rest of the header after "Bearer ".
unfoldable pub extract_token : Option String → Option String → Option String
extract_token cookie bearer = if is_truthy cookie then cookie else bearer

abbrev pub user_of_payload : JwtPayload → AuthenticatedUser
user_of_payload p = record { id = p.sub; email = p.email; role = p.role }

abbrev pub missing_token : Exception
missing_token = unauthorized "Missing access token"

abbrev pub invalid_token : Exception
invalid_token = unauthorized "Invalid or expired access token"

abbrev accept_payload : Option JwtPayload → Outcome (Option AuthenticatedUser)
accept_payload none = throws invalid_token
accept_payload (some p) =
    if is_access p.type then ok (some (user_of_payload p)) else throws invalid_token

-- `if (!token) throw …`: an empty token is falsy.
abbrev check_token : Crypto → Option String → ℕ → Outcome (Option AuthenticatedUser)
check_token c none now = throws missing_token
check_token c (some token) now =
    if is_truthy (some token)
    then accept_payload (c.verify access token now)
    else throws missing_token

-- JwtAuthGuard.canActivate: the user that it puts on the request; none on a public route.
unfoldable pub jwt_guard :
    Crypto → Bool → Option String → Option String → ℕ → Outcome (Option AuthenticatedUser)
unfolding extract_token
jwt_guard c is_public cookie bearer now =
    if is_public then ok none else check_token c (extract_token cookie bearer) now

abbrev has_role : List UserRole → Option AuthenticatedUser → Bool
has_role required none = false
has_role required (some u) = includes required u.role

abbrev pub is_empty : List UserRole → Bool
is_empty [] = true
is_empty (r ∷ roles) = false

-- RolesGuard.canActivate; no @Roles is the empty list.
unfoldable pub roles_guard : List UserRole → Option AuthenticatedUser → Outcome Unit
roles_guard required user =
    if is_empty required || has_role required user
    then ok tt
    else throws (forbidden "Insufficient role")

-- A counter of Redis under one key: its value and when it expires, or no key.
pub data Counter : Type 0 where
  absent : Counter
  counting : ℕ → ℕ → Counter

abbrev pub live : Counter → ℕ → Counter
live absent now = absent
live (counting n until) now = if ltb now until then counting n until else absent

-- INCR, and EXPIRE on the first count.
abbrev pub increment : Counter → ℕ → ℕ → ℕ × Counter
increment absent window_ms now = (1, counting 1 (now + window_ms))
increment (counting n until) window_ms now = (n + 1, counting (n + 1) until)

pub record RateLimit : Type 0 where
  pub allowed : Bool
  pub remaining : ℕ

-- RedisService.rateLimit at a time in milliseconds: `count <= limit`, `Math.max(0, limit - count)`.
unfoldable pub rate_limit : ℕ → ℕ → Counter → ℕ → RateLimit × Counter
rate_limit limit window_seconds counter now =
    let (count, counter') = increment (live counter now) (window_seconds * 1000) now in
    (record { allowed = leb count limit; remaining = limit - count }, counter')

pub record RateLimitOptions : Type 0 where
  pub limit : ℕ
  pub window_seconds : ℕ

abbrev pub default_limits : RateLimitOptions
default_limits = record { limit = 120; window_seconds = 60 }

-- The guard over the counter of the request's bucket and identity.
unfoldable pub rate_limit_guard : RateLimitOptions → Counter → ℕ → Outcome Unit × Counter
unfolding rate_limit
rate_limit_guard opts counter now =
    let (r, counter') = rate_limit opts.limit opts.window_seconds counter now in
    (if r.allowed then ok tt else throws (too_many_requests "Too many requests"), counter')
