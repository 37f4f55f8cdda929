-- ===== src/Api/Auth/Cookies.antt =====
-- packages/api/src/modules/auth/auth.controller.ts: the session cookies of a browser. A cookie is sent
-- back while its maximal age is not over, on the paths below its own; the names are those of
-- packages/shared/src/constants.ts. The attributes httpOnly, secure, sameSite and domain say which
-- scripts, connections and sites a cookie is for, and are passed over.
use marhaba_delivery_v.Prelude.{
  ℕ, ◌+◌, ◌*◌, String, Bool, true, false, not, ◌&&◌, List, ◌∷◌, Option, none, some, ltb, is_truthy,
  if◌then◌else◌,
}
use marhaba_delivery_v.Prelude.Rows.{find_first, find_many}
use marhaba_delivery_v.Prelude.Action.{
  Action, Outcome, unauthorized, pure, gets, modify, or_throw, ◌>>=◌, ◌>>◌,
}
use marhaba_delivery_v.Api.World.{User}
use marhaba_delivery_v.Api.Auth.{
  Crypto, Accounts, Session, register, login, refresh_session, logout, me,
}

pub data CookieName : Type 0 where
  access_token refresh_token : CookieName

-- '/' and '/api/auth'.
pub data CookiePath : Type 0 where
  everywhere auth_routes : CookiePath

abbrev pub same_name : CookieName → CookieName → Bool
same_name access_token access_token = true
same_name refresh_token refresh_token = true
same_name _ _ = false

abbrev pub same_path : CookiePath → CookiePath → Bool
same_path everywhere everywhere = true
same_path auth_routes auth_routes = true
same_path _ _ = false

-- Whether a cookie of a path goes with a request to a route.
abbrev pub covers : CookiePath → CookiePath → Bool
covers everywhere route = true
covers auth_routes route = same_path auth_routes route

pub record Cookie : Type 0 where
  pub name : CookieName
  pub path : CookiePath
  pub value : String
  pub expires_at : ℕ

-- The server's accounts and the cookies of one browser.
pub record Browsing : Type 0 where
  pub accounts : Accounts
  pub jar : List Cookie

abbrev pub is_same_cookie : CookieName → CookiePath → Cookie → Bool
is_same_cookie name path k = same_name k.name name && same_path k.path path

-- `res.cookie` and `res.clearCookie`.
abbrev pub set_cookie : Cookie → List Cookie → List Cookie
set_cookie k jar = k ∷ find_many (λ x. not (is_same_cookie k.name k.path x)) jar

abbrev pub clear_cookie : CookieName → CookiePath → List Cookie → List Cookie
clear_cookie name path jar = find_many (λ x. not (is_same_cookie name path x)) jar

abbrev pub value_of : Option Cookie → Option String
value_of none = none
value_of (some k) = some k.value

-- `req.cookies[name]` on a route.
abbrev pub sent : CookieName → CookiePath → ℕ → List Cookie → Option String
sent name route now jar =
    value_of
      (find_first (λ k. same_name k.name name && (covers k.path route && ltb now k.expires_at)) jar)

pub record AuthResponse : Type 0 where
  pub user : User
  pub access_token : String
  pub expires_in : ℕ

-- respond: both cookies, and the answer without the refresh token.
abbrev pub respond : Session → Action Browsing AuthResponse
respond session = do
  modify (λ b. record b {
    jar =
        set_cookie
          (record {
            name = refresh_token;
            path = auth_routes;
            value = session.refresh_token;
            expires_at = b.accounts.now + session.refresh_expires_in * 1000;
          })
          (set_cookie
            (record {
              name = access_token;
              path = everywhere;
              value = session.access_token;
              expires_at = b.accounts.now + session.access_expires_in * 1000;
            })
            b.jar);
  })
  pure (record {
    user = session.user;
    access_token = session.access_token;
    expires_in = session.access_expires_in;
  })

abbrev in_accounts : {A : Type 0} → Outcome A × Accounts → Browsing → Outcome A × Browsing
in_accounts (r, a) b = (r, record b { accounts = a })

abbrev pub on_accounts : {A : Type 0} → Action Accounts A → Action Browsing A
on_accounts m b = in_accounts (m b.accounts) b

abbrev pub clear_cookies : List Cookie → List Cookie
clear_cookies jar =
    clear_cookie refresh_token auth_routes (clear_cookie access_token everywhere jar)

-- `if (!token)`.
abbrev pub non_empty : Option String → Option String
non_empty none = none
non_empty (some t) = if is_truthy (some t) then some t else none

module _ (c : Crypto) where
  unfoldable pub register_route :
      String → String → String → String → String → Option String → Action Browsing AuthResponse
  register_route id jti email password full_name phone = do
    session ← on_accounts (register c id jti email password full_name phone)
    respond session

  unfoldable pub login_route : String → String → String → Action Browsing AuthResponse
  login_route jti email password = do
    session ← on_accounts (login c jti email password)
    respond session

  unfoldable pub refresh_route : String → Action Browsing AuthResponse
  refresh_route jti = do
    cookie ← gets (λ b. non_empty (sent refresh_token auth_routes b.accounts.now b.jar))
    token ← or_throw cookie (unauthorized "Missing refresh token")
    session ← on_accounts (refresh_session c jti token)
    respond session

  unfoldable pub logout_route : String → Action Browsing Unit
  logout_route user_id = do
    on_accounts (logout c user_id)
    modify (λ b. record b { jar = clear_cookies b.jar })

  unfoldable pub me_route : String → Action Browsing User
  me_route user_id = on_accounts (me c user_id)
