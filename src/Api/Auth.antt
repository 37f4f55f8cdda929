-- ===== src/Api/Auth.antt =====
-- packages/api/src/modules/auth: registration, login, and the rotation of refresh tokens
-- (auth.service.ts, tokens.service.ts). argon2, the JWT library and SHA-256 are the fields of
-- `Crypto`: they are not part of the repository. A random token id is an argument.
pub mod Tokens
pub mod Sessions
pub mod Cookies
use marhaba_delivery_v.Prelude.{
  ℕ, ◌+◌, ◌*◌, String, Bool, true, false, not, ◌&&◌, ◌||◌, List, [], ◌∷◌, ◌++◌, Option, none, some,
  ◌==◌, string_eq, ltb, if◌then◌else◌,
}
use marhaba_delivery_v.Prelude.Rows.{find_first, update_many}
use marhaba_delivery_v.Prelude.Action.{
  Action, Outcome, ok, throws, conflict, unauthorized, record_not_found, Table, pure, throw,
  throw_unless, or_throw, find, gets, modify, create, update, ◌>>=◌, ◌>>◌,
}
use marhaba_delivery_v.Shared.Enums.{UserRole}
use marhaba_delivery_v.Api.World.{User}

-- `type: 'access' | 'refresh'` of a token.
pub data TokenType : Type 0 where
  access refresh : TokenType

abbrev pub is_refresh : TokenType → Bool
is_refresh access = false
is_refresh refresh = true

abbrev pub is_access : TokenType → Bool
is_access access = true
is_access refresh = false

pub record JwtPayload : Type 0 where
  pub sub : String
  pub email : String
  pub role : UserRole
  pub type : TokenType
  pub jti : Option String

-- sign, for a time to live in seconds, and verify with the access or the refresh secret at a time in
-- milliseconds; hashes.
pub record Crypto : Type 0 where
  pub sign : TokenType → JwtPayload → ℕ → ℕ → String
  pub verify : TokenType → String → ℕ → Option JwtPayload
  pub sha256 : String → String
  pub hash_password : String → String
  pub verify_password : String → String → Bool
  pub access_ttl : ℕ
  pub refresh_ttl : ℕ

pub record RefreshToken : Type 0 where
  pub user_id : String
  pub token_hash : String
  pub expires_at : ℕ
  pub revoked_at : Option ℕ

-- `now` in milliseconds, and the two tables.
pub record Accounts : Type 0 where
  pub now : ℕ
  pub users : List User
  pub tokens : List RefreshToken

abbrev pub users_table : Table Accounts User
users_table = record { rows = λ a. a.users; write = λ r a. record a { users = r } }

abbrev pub token_table : Table Accounts RefreshToken
token_table = record { rows = λ a. a.tokens; write = λ r a. record a { tokens = r } }

abbrev pub with_email : String → User → Bool
with_email email u = u.email == email

abbrev pub account_with_id : String → User → Bool
account_with_id id u = u.id == id

abbrev pub with_hash : String → RefreshToken → Bool
with_hash hash t = t.token_hash == hash

pub record Session : Type 0 where
  pub user : User
  pub access_token : String
  pub access_expires_in : ℕ
  pub refresh_token : String
  pub refresh_expires_in : ℕ

abbrev is_none {ℓ} : {A : Type ℓ} → Option A → Bool
is_none none = true
is_none (some a) = false

-- `!record || record.revokedAt || record.expiresAt < new Date()` is false.
abbrev pub is_usable : ℕ → RefreshToken → Bool
is_usable now t = is_none t.revoked_at && not (ltb t.expires_at now)

abbrev pub revoke : ℕ → RefreshToken → RefreshToken
revoke now t = record t { revoked_at = some now }

abbrev pub live_token_of : String → RefreshToken → Bool
live_token_of user_id t = t.user_id == user_id && is_none t.revoked_at

module _ (c : Crypto) where
  abbrev pub access_payload : User → JwtPayload
  access_payload user = record {
    sub = user.id;
    email = user.email;
    role = user.role;
    type = access;
    jti = none;
  }

  abbrev pub refresh_payload : User → String → JwtPayload
  refresh_payload user jti = record {
    sub = user.id;
    email = user.email;
    role = user.role;
    type = refresh;
    jti = some jti;
  }

  abbrev pub issue_access_token : User → Accounts → String
  issue_access_token user a = c.sign access (access_payload user) c.access_ttl (a.now)

  -- The token, whose hash is stored.
  abbrev pub refresh_token_for : User → String → Accounts → String
  refresh_token_for user jti a = c.sign refresh (refresh_payload user jti) c.refresh_ttl (a.now)

  abbrev pub issue_refresh_token : User → String → Action Accounts String
  issue_refresh_token user jti = do
    token ← gets (refresh_token_for user jti)
    now ← gets (λ a. a.now)
    create token_table (record {
      user_id = user.id;
      token_hash = c.sha256 token;
      expires_at = now + c.refresh_ttl * 1000;
      revoked_at = none;
    })
    pure token

  consume_row : Option RefreshToken → String → Action Accounts Bool
  consume_row none hash a = (ok false, a)
  consume_row (some t) hash a =
      if is_usable a.now t
      then (ok true, record a { tokens = update_many (with_hash hash) (revoke a.now) a.tokens })
      else (ok false, a)

  unfoldable pub consume_refresh_token : String → Action Accounts Bool
  unfolding consume_row
  consume_refresh_token token a =
      consume_row (find_first (with_hash (c.sha256 token)) a.tokens) (c.sha256 token) a

  unfoldable pub revoke_all_for_user : String → Action Accounts Unit
  revoke_all_for_user user_id =
      modify λ a. record a { tokens = update_many (live_token_of user_id) (revoke a.now) a.tokens }

  abbrev pub issue_session : User → String → Action Accounts Session
  issue_session user jti = do
    access_token ← gets (issue_access_token user)
    refresh_token ← issue_refresh_token user jti
    pure (record {
      user = user;
      access_token = access_token;
      access_expires_in = c.access_ttl;
      refresh_token = refresh_token;
      refresh_expires_in = c.refresh_ttl;
    })

  abbrev refuse_existing : Option User → Action Accounts Unit
  refuse_existing none = pure tt
  refuse_existing (some u) = throw (conflict "Email already registered")

  -- `id` is the row's id. The role is CLIENT whatever the request says.
  unfoldable pub register :
      String → String → String → String → String → Option String → Action Accounts Session
  register id jti email password full_name phone = do
    existing ← find users_table (with_email email)
    refuse_existing existing
    user ← create users_table (record {
      id = id;
      email = email;
      password_hash = c.hash_password password;
      full_name = full_name;
      phone = phone;
      role = UserRole.client;
      is_active = true;
    })
    issue_session user jti

  -- `!user || !user.isActive`.
  abbrev pub active_user : Option User → Option User
  active_user none = none
  active_user (some u) = if u.is_active then some u else none

  unfoldable pub login : String → String → String → Action Accounts Session
  login jti email password = do
    row ← find users_table (with_email email)
    user ← or_throw (active_user row) (unauthorized "Invalid credentials")
    throw_unless (c.verify_password user.password_hash password)
        (unauthorized "Invalid credentials")
    issue_session user jti

  unfoldable pub refresh_session : String → String → Action Accounts Session
  refresh_session jti token = do
    verified ← gets (λ a. c.verify refresh token a.now)
    payload ← or_throw verified (unauthorized "Invalid refresh token")
    throw_unless (is_refresh payload.type) (unauthorized "Invalid refresh token")
    consumed ← consume_refresh_token token
    throw_unless consumed (unauthorized "Refresh token revoked or expired")
    row ← find users_table (account_with_id payload.sub)
    user ← or_throw (active_user row) (unauthorized "User inactive")
    issue_session user jti

  unfoldable pub logout : String → Action Accounts Unit
  unfolding revoke_all_for_user
  logout user_id = revoke_all_for_user user_id

  unfoldable pub me : String → Action Accounts User
  me user_id = do row ← find users_table (account_with_id user_id); or_throw row record_not_found
