-- ===== src/Api/Users/Provisioning.antt =====
-- UsersService (packages/api/src/modules/users/users.service.ts): accounts of drivers and their profiles.
use marhaba_delivery_v.Prelude.{
  String, ◌≡◌, true, List, [], ◌∷◌, ◌++◌, none, some, ◌==◌, string_eq, eq_iff, arith, All,
  All-append, if◌then◌else◌, Option-cases, inl, inr, Bool-cases,
}
use marhaba_delivery_v.Prelude.Rows.{find_first, find_first-append, All-map}
use marhaba_delivery_v.Prelude.Action.{ok, throws, not_found, conflict}
use marhaba_delivery_v.Shared.Enums.{UserRole}
use marhaba_delivery_v.Shared.Enums.Equality.{role_eq}
use marhaba_delivery_v.Api.World.{World, User, DriverProfile, user_with_id}
use marhaba_delivery_v.Api.Zones.{is_some}
use marhaba_delivery_v.Api.Drivers.{driver_of_user, get_profile_by_user_id}
use marhaba_delivery_v.Api.Users.{
  CreateUserInput, UpdateUserInput, create_user, update_user, patch_user, user_row, profile_row,
  safe, with_address,
}

-- Every account of a driver has a profile.
abbrev pub HasProfile : List DriverProfile → User → Type 0
HasProfile drivers u =
    (if u.role == UserRole.driver then is_some (find_first (driver_of_user u.id) drivers) else true)
    ≡ true

abbrev pub IsProvisioned : World → Type 0
IsProvisioned w = All (HasProfile w.drivers) w.users

more_profiles :
    (drivers : List DriverProfile) (d : DriverProfile) (u : User)
    → HasProfile drivers u
    → HasProfile (drivers ++ d ∷ []) u
more_profiles drivers d u h = ground (arith, h, find_first-append (driver_of_user u.id) drivers d)

own_profile :
    (drivers : List DriverProfile) (u : User) (profile_id : String)
    → HasProfile (drivers ++ profile_row profile_id u.id ∷ []) u
own_profile drivers u profile_id = ground (
  arith,
  eq_iff u.id u.id,
  find_first-append (driver_of_user u.id) drivers (profile_row profile_id u.id),
)

module _ (hash : String → String) (id profile_id : String) (input : CreateUserInput)
    (w : World) where
  create_user_taken :
      (u : User)
      → find_first (with_address input.email) w.users ≡ some u
      → create_user hash id profile_id input w ≡ (throws (conflict "Email already registered"), w)
  unfolding create_user
  create_user_taken u taken = ground arith

  create_user_rows :
      find_first (with_address input.email) w.users ≡ none
      → ((create_user hash id profile_id input w).1.users
          ≡ w.users ++ user_row id (hash input.password) input ∷ [])
        × ((create_user hash id profile_id input w).1.drivers ≡ (
            if input.role == UserRole.driver
            then w.drivers ++ profile_row profile_id id ∷ []
            else w.drivers))
  unfolding create_user
  create_user_rows free = (ground arith, ground arith)

  -- Creating an account, whatever its outcome, keeps a profile with every account of a driver.
  pub create_user-IsProvisioned :
      IsProvisioned w → IsProvisioned (create_user hash id profile_id input w).1
  create_user-IsProvisioned all =
      elim (Option-cases (find_first (with_address input.email) w.users)) [
        | inr (u, taken) ↦ rw (create_user_taken u taken) all
        | inl free ↦
            let (users, drivers) = create_user_rows free in
            let row = user_row id (hash input.password) input in
            elim (Bool-cases (input.role == UserRole.driver)) [
              | inl wheels ↦
                  rw (users, drivers, wheels)
                    (All-append (HasProfile (w.drivers ++ profile_row profile_id id ∷ [])) w.users
                      (row ∷ [])
                      (All-map _ _ (more_profiles w.drivers (profile_row profile_id id)) w.users
                        all)
                      (own_profile w.drivers row profile_id, tt))
              | inr other ↦
                  rw (users, drivers, other)
                    (All-append (HasProfile w.drivers) w.users (row ∷ []) all
                      (ground (arith, other), tt))
            ]
      ]

-- An account that is made a driver's by an update gets no profile: the driver's own routes then answer
-- 404.
pub promoted_without_profile :
    (id : String) (input : UpdateUserInput) (w : World) (u : User)
    → find_first (user_with_id id) w.users ≡ some u
    → input.role ≡ some UserRole.driver
    → find_first (driver_of_user id) w.drivers ≡ none
    → let (r, w') = update_user id input w in
      (r ≡ ok (safe (patch_user input u)))
      × ((patch_user input u).role ≡ UserRole.driver)
      × (get_profile_by_user_id id w' ≡ (throws (not_found "Driver profile not found"), w'))
unfolding update_user get_profile_by_user_id
promoted_without_profile id input w u found role missing =
    (ground arith, ground (arith, role), ground arith)
