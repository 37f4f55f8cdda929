-- ===== src/Api/Orders/Visibility.antt =====
-- OrdersService.list and assertCanView (packages/api/src/modules/orders/orders.service.ts): which
-- orders a user gets to see.
use mathlib.Core.List.{Memᴰ}
use marhaba_delivery_v.Prelude.{
  ℕ, String, ◌≡◌, ◌≤◌, Bool, true, false, ◌&&◌, List, Option, none, some, arith, ◌==◌, string_eq,
  eq_iff, leb, is_truthy, take, if◌then◌else◌, length, length-take,
}
use marhaba_delivery_v.Prelude.Rows.{find_first, find_many, find_many_meets, mem_of_take}
use marhaba_delivery_v.Prelude.Action.{Action, ok, gets}
use marhaba_delivery_v.Shared.Enums.{OrderStatus, UserRole}
use marhaba_delivery_v.Shared.Enums.Equality.{order_status_eq, role_eq}
use marhaba_delivery_v.Api.World.{World, Order, DriverProfile, driver_with_id}
use marhaba_delivery_v.Api.Orders.{AuthenticatedUser}

pub record ListOrdersQuery : Type 0 where
  pub status : Option OrderStatus
  pub client_id : Option String
  pub driver_id : Option String
  pub from : Option ℕ
  pub to : Option ℕ

-- A filter that is left out lets every row through.
abbrev pub equals_if : Option OrderStatus → OrderStatus → Bool
equals_if none s = true
equals_if (some t) s = s == t

abbrev pub text_equals : String → Option String → Bool
text_equals wanted none = false
text_equals wanted (some s) = s == wanted

-- `if (query.clientId) where.clientId = query.clientId`.
abbrev pub text_filter : Option String → Option String → Bool
text_filter none value = true
text_filter (some wanted) value = if is_truthy (some wanted) then text_equals wanted value else true

abbrev pub at_least : Option ℕ → ℕ → Bool
at_least none t = true
at_least (some from) t = leb from t

abbrev pub at_most : Option ℕ → ℕ → Bool
at_most none t = true
at_most (some to) t = leb t to

abbrev pub user_of : Option DriverProfile → Option String
user_of none = none
user_of (some d) = some d.user_id

-- `where.driver = { userId }`: the user behind the order's driver.
abbrev pub driver_user : World → Option String → Option String
driver_user w none = none
driver_user w (some id) = user_of (find_first (driver_with_id id) w.drivers)

-- The part of the condition that depends on the role.
abbrev pub role_filter : UserRole → ListOrdersQuery → AuthenticatedUser → World → Order → Bool
role_filter UserRole.client query user w o = o.client_id == user.id
role_filter UserRole.driver query user w o = text_equals user.id (driver_user w o.driver_id)
role_filter _ query user w o =
    text_filter query.client_id (some o.client_id) && text_filter query.driver_id o.driver_id

abbrev pub list_filter : ListOrdersQuery → AuthenticatedUser → World → Order → Bool
list_filter query user w o =
    equals_if query.status o.status
    && ((at_least query.from o.created_at && at_most query.to o.created_at)
        && role_filter user.role query user w o)

-- `orderBy: { createdAt: 'desc' }`: newest first, given as a sorting function of the database.
module _ (newest_first : List Order → List Order) where
  unfoldable pub list : ListOrdersQuery → AuthenticatedUser → Action World (List Order)
  list query user =
      gets λ w. take 100 (newest_first (find_many (list_filter query user w) w.orders))

-- What a listed order is to the user, by the user's role.
abbrev pub IsOwnFor : UserRole → World → AuthenticatedUser → Order → Type 0
IsOwnFor UserRole.client w user o = o.client_id ≡ user.id
IsOwnFor UserRole.driver w user o = driver_user w o.driver_id ≡ some user.id
IsOwnFor _ w user o = Unit

eq_of_text_equals :
    (wanted : String) (o : Option String) → text_equals wanted o ≡ true → o ≡ some wanted
eq_of_text_equals wanted none h = cc
eq_of_text_equals wanted (some s) h = ground (arith, eq_iff s wanted)

role_filter-IsOwn :
    (role : UserRole) (query : ListOrdersQuery) (user : AuthenticatedUser) (w : World) (o : Order)
    → role_filter role query user w o ≡ true
    → IsOwnFor role w user o
role_filter-IsOwn UserRole.client query user w o h = ground (arith, eq_iff o.client_id user.id)
role_filter-IsOwn UserRole.driver query user w o h =
    eq_of_text_equals user.id (driver_user w o.driver_id) h
role_filter-IsOwn UserRole.dispatcher query user w o h = tt
role_filter-IsOwn UserRole.manager query user w o h = tt
role_filter-IsOwn UserRole.admin query user w o h = tt

module _ (newest_first : List Order → List Order)
    (same : (os : List Order) (o : Order) → Memᴰ o (newest_first os) → Memᴰ o os)
    (query : ListOrdersQuery) (user : AuthenticatedUser) (w : World) where
  -- However the database orders the rows, a listing has at most 100 orders, a client sees only orders
  -- that are the client's own, and a driver only orders that are assigned to that driver.
  pub list-IsOwn :
      (listed : List Order) (o : Order)
      → (list newest_first query user w).0 ≡ ok listed
      → Memᴰ o listed
      → (length listed ≤ 100) × IsOwnFor user.role w user o
  unfolding list
  list-IsOwn listed o h m =
      let rows = newest_first (find_many (list_filter query user w) w.orders) in
      let e : listed ≡ take 100 rows = cc in
      let passes =
        find_many_meets (list_filter query user w) w.orders o
          (same _ o (mem_of_take 100 rows o (rw e at m))) in
      (
        rw e (length-take 100 rows),
        role_filter-IsOwn user.role query user w o (ground (arith, passes)),
      )
