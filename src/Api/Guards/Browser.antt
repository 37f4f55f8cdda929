-- ===== src/Api/Guards/Browser.antt =====
-- AuthController and JwtAuthGuard (packages/api/src/modules/auth/auth.controller.ts,
-- packages/api/src/common/guards/jwt-auth.guard.ts) together: what the cookies of a login open, and what
-- is left of them after a logout.
use marhaba_delivery_v.Prelude.{
  ℕ, ◌+◌, ◌*◌, ◌<◌, String, ◌≡◌, refl, sym, ap, ◌∙◌, All, true, false, not, List, [], ◌∷◌, Option,
  none, some, arith, is_truthy, ltb, inl, inr, if◌then◌else◌,
}
use marhaba_delivery_v.Prelude.Rows.{find_first, find_many}
use marhaba_delivery_v.Prelude.Action.{ok, throws, unauthorized, outcome-cases}
use marhaba_delivery_v.Api.Auth.{
  Crypto, JwtPayload, access, Accounts, Session, login, logout, access_payload, with_email,
  is_access,
}
use marhaba_delivery_v.Api.Auth.Cookies.{
  AuthResponse, Browsing, Cookie, login_route, logout_route, refresh_route, sent, access_token,
  refresh_token, everywhere, auth_routes, same_name, same_path, is_same_cookie, clear_cookies,
}
use marhaba_delivery_v.Api.Guards.{jwt_guard, user_of_payload}

guard_accepts :
    (c : Crypto) (token : String) (p : JwtPayload) (bearer : Option String) (t : ℕ)
    → is_truthy (some token) ≡ true
    → c.verify access token t ≡ some p
    → is_access p.type ≡ true
    → jwt_guard c false (some token) bearer t ≡ ok (some (user_of_payload p))
unfolding jwt_guard
guard_accepts c token p bearer t named valid kind = ground (arith, named, valid, kind)

module _ (c : Crypto) (jti email password : String) where
  -- A login succeeds only for the active account of the address and its password. The session is that
  -- account's, with an access token for it.
  pub login_ok :
      (a : Accounts) (s : Session)
      → (login c jti email password a).0 ≡ ok s
      → (find_first (with_email email) a.users ≡ some s.user)
        × (s.user.is_active ≡ true)
        × (c.verify_password s.user.password_hash password ≡ true)
        × (s.access_token ≡ c.sign access (access_payload c s.user) c.access_ttl a.now)
        × (s.access_expires_in ≡ c.access_ttl)
        × ((login c jti email password a).1.now ≡ a.now)
  unfolding login
  login_ok a s h =
      (ground arith, ground arith, ground arith, ground arith, ground arith, ground arith)

  login_route_ok :
      (b : Browsing) (r : AuthResponse) (t : ℕ)
      → (login_route c jti email password b).0 ≡ ok r
      → (s : Session) × ((login c jti email password b.accounts).0 ≡ ok s)
        × (r.user ≡ s.user)
        × (r.access_token ≡ s.access_token)
        × (sent access_token everywhere t (login_route c jti email password b).1.jar ≡ (
            if ltb t ((login c jti email password b.accounts).1.now + s.access_expires_in * 1000)
            then some s.access_token
            else sent access_token everywhere t (
                find_many
                  (λ x. not (is_same_cookie refresh_token auth_routes x))
                  (find_many (λ x. not (is_same_cookie access_token everywhere x)) b.jar))))
  unfolding login_route find_first find_many
  login_route_ok b r t h = elim (outcome-cases (login c jti email password b.accounts).0) [
    | inl (s, done) ↦ (s, done, ground (arith, done), ground (arith, done), rw done (ground arith))
    | inr (e, failed) ↦ ground (arith, failed)
  ]

  -- Where an access token that the server signs for an account is a text that is not empty and verifies
  -- until its time to live is over, a login opens the private routes to the browser for that long, as
  -- the user that the answer names: the guard accepts the access cookie and takes id, address and
  -- role from it.
  pub login_opens_routes :
      (b : Browsing) (r : AuthResponse) (bearer : Option String) (t : ℕ)
      → ((ttl issued : ℕ)
          → t < issued + ttl * 1000
          → c.verify access (c.sign access (access_payload c r.user) ttl issued) t
            ≡ some (access_payload c r.user))
      → ((ttl issued : ℕ)
          → is_truthy (some (c.sign access (access_payload c r.user) ttl issued)) ≡ true)
      → (login_route c jti email password b).0 ≡ ok r
      → t < b.accounts.now + c.access_ttl * 1000
      → jwt_guard c false
          (sent access_token everywhere t (login_route c jti email password b).1.jar)
          bearer
          t
        ≡ ok (some (record { id = r.user.id; email = r.user.email; role = r.user.role }))
  login_opens_routes b r bearer t verifies named h early =
      let (s, done, user, token, cookie) = login_route_ok b r t h in
      let (found, active, known, signed, ttl, now) = login_ok b.accounts s done in
      let p = access_payload c r.user in
      let jar = (login_route c jti email password b).1.jar in
      let until = (login c jti email password b.accounts).1.now + s.access_expires_in * 1000 in
      let inside : ltb t until ≡ true = ground (arith, ttl, now, early) in
      let value = c.sign access p c.access_ttl b.accounts.now in
      let held : sent access_token everywhere t jar ≡ some value =
        cookie
        ∙ rw inside (
            ap some (
              signed
              ∙ ap (λ u. c.sign access (access_payload c u) c.access_ttl b.accounts.now)
                  (sym user))) in
      let accepted =
        guard_accepts c value p bearer t (named c.access_ttl b.accounts.now)
          (verifies c.access_ttl b.accounts.now early) refl in
      ap (λ k. jwt_guard c false k bearer t) held ∙ accepted

-- The server sets the refresh cookie on the routes of auth only.
abbrev pub IsScoped : List Cookie → Type 0
IsScoped jar =
    All
      (λ k. (if same_name k.name refresh_token then same_path k.path auth_routes else true) ≡ true)
      jar

cleared :
    (now : ℕ) (jar : List Cookie)
    → IsScoped jar
    → sent refresh_token auth_routes now (clear_cookies jar) ≡ none
unfolding find_first find_many
cleared now [] scoped = refl
cleared now (k ∷ jar) scoped = ground (arith, scoped.0, cleared now jar scoped.1)

-- After a logout the browser has no refresh cookie: a refresh is a 401 that changes nothing.
pub logout_ends_refresh :
    (c : Crypto) (user_id jti : String) (b : Browsing)
    → IsScoped b.jar
    → let b' = (logout_route c user_id b).1 in
      (sent refresh_token auth_routes b'.accounts.now b'.jar ≡ none)
      × (refresh_route c jti b' ≡ (throws (unauthorized "Missing refresh token"), b'))
unfolding logout_route refresh_route logout
logout_ends_refresh c user_id jti b scoped =
    let gone = cleared b.accounts.now b.jar scoped in (gone, rw gone refl)
