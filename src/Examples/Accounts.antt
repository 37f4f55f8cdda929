-- ===== src/Examples/Accounts.antt =====
-- Accounts, tokens and guards on concrete values, with a transparent stand-in for the cryptography.
use marhaba_delivery_v.Prelude.{
  String, ◌≡◌, refl, ◌≤◌, true, false, [], ◌∷◌, none, some, arith, if◌then◌else◌, ◌==◌, string_eq,
  includes, ◌↔◌,
}
use marhaba_delivery_v.Prelude.Rows.{find_first, count}
use marhaba_delivery_v.Prelude.Action.{ok, throws, Exception}
use marhaba_delivery_v.Shared.Enums.{UserRole}
use marhaba_delivery_v.Shared.Enums.Equality.{role_eq}
use marhaba_delivery_v.Api.World.{User}
use marhaba_delivery_v.Api.Orders.{AuthenticatedUser}
use marhaba_delivery_v.Api.Auth.{
  Crypto, JwtPayload, TokenType, access, is_access, RefreshToken, Accounts, Session, register,
  refresh_session, logout, consume_refresh_token, with_email, login,
}
use marhaba_delivery_v.Api.Auth.Cookies.{
  AuthResponse, Browsing, sent, access_token, everywhere, login_route,
}
use marhaba_delivery_v.Api.Guards.Browser.{login_opens_routes}
use marhaba_delivery_v.Api.Auth.Tokens.{logout_revokes}
use marhaba_delivery_v.Api.Auth.Sessions.{register_unique, refresh_once}
use marhaba_delivery_v.Api.Guards.{jwt_guard, extract_token, user_of_payload, roles_guard, absent}
use marhaba_delivery_v.Api.Guards.Limits.{window_allows, allowed, decisions, smaller}
use marhaba_delivery_v.Api.Guards.Access.{jwt_guard_user, roles_guard_iff}

abbrev account : User
account = record {
  id = "u1";
  email = "a@b.ae";
  password_hash = "pw";
  full_name = "A";
  phone = none;
  role = UserRole.client;
  is_active = true;
}

abbrev payload_of : TokenType → JwtPayload
payload_of type = record {
  sub = "u1";
  email = "a@b.ae";
  role = UserRole.client;
  type = type;
  jti = none;
}

-- One valid token of each type; a hash is the text itself.
abbrev crypto : Crypto
crypto = record {
  sign = λ type p ttl now. "new";
  verify = λ type token now. if token == "good" then some (payload_of type) else none;
  sha256 = λ s. s;
  hash_password = λ s. s;
  verify_password = λ hash s. hash == s;
  access_ttl = 900;
  refresh_ttl = 1_209_600;
}

abbrev good : RefreshToken
good = record { user_id = "u1"; token_hash = "good"; expires_at = 5000; revoked_at = none }

abbrev accounts : Accounts
accounts = record { now = 1000; users = account ∷ []; tokens = good ∷ [] }

logout_revokes_example :
    consume_refresh_token crypto "good" (logout crypto "u1" accounts).1
    ≡ (ok false, (logout crypto "u1" accounts).1)
unfolding find_first
logout_revokes_example =
    logout_revokes crypto "good" accounts "u1" good (logout crypto "u1" accounts).1 refl refl refl

register_unique_test :
    count (with_email "a@b.ae") (register crypto "u2" "j2" "a@b.ae" "pw" "B" none accounts).1.users
    ≤ 1
unfolding count
register_unique_test =
    register_unique crypto "u2" "j2" "a@b.ae" "pw" "B" none accounts "a@b.ae" (omega arith)

abbrev session : Session
session = record {
  user = account;
  access_token = "new";
  access_expires_in = 900;
  refresh_token = "new";
  refresh_expires_in = 1_209_600;
}

refreshes : (refresh_session crypto "j1" "good" accounts).0 ≡ ok session
unfolding refresh_session consume_refresh_token find_first
refreshes = refl

refresh_once_example :
    (e : Exception) × (refresh_session crypto "j2" "good"
        (refresh_session crypto "j1" "good" accounts).1
      ≡ (throws e, (refresh_session crypto "j1" "good" accounts).1))
refresh_once_example =
    refresh_once crypto "j1" "good" accounts session "j2"
      (refresh_session crypto "j1" "good" accounts).1 refreshes refl

-- The server's access tokens are the one that verifies.
abbrev signing : Crypto
signing = record crypto { sign = λ type p ttl now. "good" }

abbrev browser : Browsing
browser = record { accounts = accounts; jar = [] }

abbrev welcome : AuthResponse
welcome = record { user = account; access_token = "good"; expires_in = 900 }

login_opens_routes_example :
    jwt_guard signing false
      (sent access_token everywhere 5000 (login_route signing "j1" "a@b.ae" "pw" browser).1.jar)
      none
      5000
    ≡ ok (some (record { id = "u1"; email = "a@b.ae"; role = UserRole.client }))
unfolding login_route login find_first
login_opens_routes_example =
    login_opens_routes signing "j1" "a@b.ae" "pw" browser welcome none 5000
      (λ ttl issued early. refl) (λ ttl issued. refl) refl (omega arith)

jwt_guard_user_test :
    (token : String) × (p : JwtPayload) × (extract_token (some "good") none ≡ some token)
    × (crypto.verify access token 1000 ≡ some p)
    × (is_access p.type ≡ true)
    × (user_of_payload (payload_of access) ≡ user_of_payload p)
unfolding jwt_guard
jwt_guard_user_test =
    jwt_guard_user crypto (some "good") none 1000 (user_of_payload (payload_of access)) refl

abbrev dispatcher : AuthenticatedUser
dispatcher = record { id = "u9"; email = "d@b.ae"; role = UserRole.dispatcher }

roles_guard_iff_test :
    (roles_guard (UserRole.admin ∷ UserRole.manager ∷ []) (some dispatcher) ≡ ok tt)
    ↔ (includes (UserRole.admin ∷ UserRole.manager ∷ []) UserRole.dispatcher ≡ true)
roles_guard_iff_test = roles_guard_iff UserRole.admin (UserRole.manager ∷ []) dispatcher

window_allows_example : allowed (decisions 2 60 absent (1000 ∷ 1001 ∷ 1002 ∷ [])) ≡ smaller 3 2
window_allows_example = window_allows 2 60 1000 (1001 ∷ 1002 ∷ []) (omega arith, (omega arith, tt))
