-- ===== src/Api/Users.antt =====
-- packages/api/src/modules/users/users.service.ts: the accounts that staff manage. The ids that the
-- database draws and the password hash are arguments; the rows are in the order of their creation.
pub mod Provisioning
use mathlib.Core.List.{reverse}
use marhaba_delivery_v.Prelude.{
  String, Bool, true, false, List, [], ◌∷◌, Option, none, some, ◌==◌, string_eq, map, if◌then◌else◌,
}
use marhaba_delivery_v.Prelude.Rows.{find_first, find_many}
use marhaba_delivery_v.Prelude.Action.{
  Action, not_found, conflict, pure, throw_unless, or_throw, find, gets, create, update, Table,
  ◌>>=◌, ◌>>◌,
}
use marhaba_delivery_v.Shared.Enums.{UserRole, DriverStatus}
use marhaba_delivery_v.Shared.Enums.Equality.{role_eq}
use marhaba_delivery_v.Api.World.{World, User, DriverProfile, driver_table, user_with_id}

abbrev pub user_table : Table World User
user_table = record { rows = λ w. w.users; write = λ r w. record w { users = r } }

-- `safeSelect`: a row without its password hash.
pub record SafeUser : Type 0 where
  pub id : String
  pub email : String
  pub full_name : String
  pub phone : Option String
  pub role : UserRole
  pub is_active : Bool

abbrev pub safe : User → SafeUser
safe u = record {
  id = u.id;
  email = u.email;
  full_name = u.full_name;
  phone = u.phone;
  role = u.role;
  is_active = u.is_active;
}

abbrev has_role : Option UserRole → User → Bool
has_role none u = true
has_role (some role) u = u.role == role

-- Newest first.
unfoldable pub list : Option UserRole → World → List SafeUser
list role w = map safe (reverse (find_many (has_role role) w.users))

pub record CreateUserInput : Type 0 where
  pub email : String
  pub full_name : String
  pub phone : Option String
  pub role : UserRole
  pub password : String

abbrev pub with_address : String → User → Bool
with_address email u = u.email == email

abbrev is_absent : Option User → Bool
is_absent none = true
is_absent (some u) = false

abbrev pub user_row : String → String → CreateUserInput → User
user_row id hash input = record {
  id = id;
  email = input.email;
  password_hash = hash;
  full_name = input.full_name;
  phone = input.phone;
  role = input.role;
  is_active = true;
}

abbrev pub profile_row : String → String → DriverProfile
profile_row id user_id = record {
  id = id;
  user_id = user_id;
  status = DriverStatus.offline;
  active_order_id = none;
  last_lng = none;
  last_lat = none;
  last_seen_at = none;
}

abbrev pub provision : UserRole → String → String → Action World Unit
provision UserRole.driver profile_id user_id = do
  create driver_table (profile_row profile_id user_id)
  pure tt
provision _ profile_id user_id = pure tt

-- The nested create of the profile is part of the same statement.
unfoldable pub create_user :
    (String → String) → String → String → CreateUserInput → Action World SafeUser
create_user hash id profile_id input = do
  existing ← find user_table (with_address input.email)
  throw_unless (is_absent existing) (conflict "Email already registered")
  user ← create user_table (user_row id (hash input.password) input)
  provision input.role profile_id id
  pure (safe user)

pub record UpdateUserInput : Type 0 where
  pub full_name : Option String
  pub phone : Option String
  pub is_active : Option Bool
  pub role : Option UserRole

-- An undefined field is not written.
abbrev pub or_keep {ℓ} : {A : Type ℓ} → Option A → A → A
or_keep none a = a
or_keep (some b) a = b

abbrev or_keep_phone : Option String → Option String → Option String
or_keep_phone none phone = phone
or_keep_phone (some p) phone = some p

abbrev pub patch_user : UpdateUserInput → User → User
patch_user input u = record u {
  full_name = or_keep input.full_name u.full_name;
  phone = or_keep_phone input.phone u.phone;
  is_active = or_keep input.is_active u.is_active;
  role = or_keep input.role u.role;
}

unfoldable pub update_user : String → UpdateUserInput → Action World SafeUser
update_user id input = do
  row ← find user_table (user_with_id id)
  or_throw row (not_found "User not found")
  user ← update user_table (user_with_id id) (patch_user input)
  pure (safe user)
