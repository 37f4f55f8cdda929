-- ===== src/Api/Auth/Sessions.antt =====
-- AuthService (packages/api/src/modules/auth/auth.service.ts): registration, login and the rotation of
-- a refresh token.
use marhaba_delivery_v.Prelude.{
  ◌+◌, ◌*◌, ◌≤◌, String, ◌≡◌, refl, ◌∙◌, true, [], ◌∷◌, ◌++◌, Option, none, some, ◌==◌, arith,
  string_eq, eq_iff, Option-cases, inl, inr, Bool-cases,
}
use marhaba_delivery_v.Prelude.Rows.{find_first, count, count-append, count_of_missing}
use marhaba_delivery_v.Prelude.Action.{ok, throws, Exception, unauthorized, outcome-cases}
use marhaba_delivery_v.Shared.Enums.{UserRole}
use marhaba_delivery_v.Api.World.{User}
use marhaba_delivery_v.Api.Auth.{
  Crypto, RefreshToken, Accounts, consume_refresh_token, register, refresh_session, with_email,
  account_with_id, Session, JwtPayload, refresh, is_refresh, refresh_token_for,
}
use marhaba_delivery_v.Api.Auth.Tokens.{consume_once, used_row_first, token_row}

module _ (c : Crypto) (id jti email password name : String) (phone : Option String)
    (a : Accounts) where
  abbrev pub new_user : User
  new_user = record {
    id = id;
    email = email;
    password_hash = c.hash_password password;
    full_name = name;
    phone = phone;
    role = UserRole.client;
    is_active = true;
  }

  -- A registration succeeds only for an address that is not registered; the account of the session is
  -- the one that was added, an active client, whatever was asked for, with the hash of the password.
  pub register_ok :
      (s : Session)
      → (register c id jti email password name phone a).0 ≡ ok s
      → (find_first (with_email email) a.users ≡ none)
        × (s.user ≡ new_user)
        × ((register c id jti email password name phone a).1.users ≡ a.users ++ new_user ∷ [])
  unfolding register
  register_ok s h = (ground arith, ground arith, ground arith)

  pub register_atomic :
      (e : Exception)
      → (register c id jti email password name phone a).0 ≡ throws e
      → (register c id jti email password name phone a).1 ≡ a
  unfolding register
  register_atomic e h = ground arith

  added_unique :
      (e : String)
      → find_first (with_email email) a.users ≡ none
      → count (with_email e) a.users ≤ 1
      → count (with_email e) (a.users ++ new_user ∷ []) ≤ 1
  unfolding count
  added_unique e fresh unique = elim (Bool-cases (email == e)) [
    | inl same ↦
        let is : email ≡ e = ground (arith, eq_iff email e) in
        ground (
          arith,
          count-append (with_email e) a.users (new_user ∷ []),
          count_of_missing (with_email e) a.users (rw is at fresh),
        )
    | inr other ↦ ground (arith, count-append (with_email e) a.users (new_user ∷ []))
  ]

  -- An address that at most one account has is still that of at most one account after any
  -- registration.
  pub register_unique :
      (e : String)
      → count (with_email e) a.users ≤ 1
      → count (with_email e) (register c id jti email password name phone a).1.users ≤ 1
  register_unique e unique =
      elim (outcome-cases (register c id jti email password name phone a).0) [
        | inl (s, done) ↦
            let (fresh, same, added) = register_ok s done in rw added (added_unique e fresh unique)
        | inr (x, refused) ↦ rw (register_atomic x refused) unique
      ]

module _ (c : Crypto) (jti token : String) (a : Accounts) where
  -- What a refresh that succeeds has established: the token is a refresh token that verifies, it was
  -- usable and is used up, its user is active, and the new token is added to the table.
  pub refresh_session_ok :
      (s : Session)
      → (refresh_session c jti token a).0 ≡ ok s
      → (p : JwtPayload) × (t : RefreshToken) × (c.verify refresh token a.now ≡ some p)
        × (is_refresh p.type ≡ true)
        × ((consume_refresh_token c token a).0 ≡ ok true)
        × (find_first (account_with_id p.sub) a.users ≡ some s.user)
        × (s.user.is_active ≡ true)
        × ((refresh_session c jti token a).1.tokens
            ≡ (consume_refresh_token c token a).1.tokens ++ t ∷ [])
  unfolding refresh_session consume_refresh_token
  refresh_session_ok s h = elim (Option-cases (c.verify refresh token a.now)) [
    | inl invalid ↦ ground arith
    | inr (p, valid) ↦ elim (Option-cases (find_first (account_with_id p.sub) a.users)) [
      | inl missing ↦ ground arith
      | inr (u, there) ↦ (
        p,
        record {
          user_id = u.id;
          token_hash = c.sha256 (refresh_token_for c u jti a);
          expires_at = a.now + c.refresh_ttl * 1000;
          revoked_at = none;
        },
        valid,
        ground arith,
        ground arith,
        ground arith,
        ground arith,
        ground arith,
      )
    ]
  ]

  -- A refresh that succeeds uses its token up: at no later time does the token, with the table as it
  -- was left, get another session.
  pub refresh_once :
      (s : Session) (again : String) (b : Accounts)
      → (refresh_session c jti token a).0 ≡ ok s
      → b.tokens ≡ (refresh_session c jti token a).1.tokens
      → (e : Exception) × (refresh_session c again token b ≡ (throws e, b))
  unfolding refresh_session
  refresh_once s again b h later =
      let (p, t, valid, type, used, known, active, added) = refresh_session_ok s h in
      let row : token_row c token b ≡ token_row c token (consume_refresh_token c token a).1 =
        used_row_first c token a b t used (later ∙ added) in
      let refused = consume_once c token a b used row in
      elim (Option-cases (c.verify refresh token b.now)) [
        | inl expired ↦ (unauthorized "Invalid refresh token", ground arith)
        | inr (q, verified) ↦ elim (Bool-cases (is_refresh q.type)) [
          | inl right ↦
              (unauthorized "Refresh token revoked or expired", rw (verified, right, refused) refl)
          | inr wrong ↦ (unauthorized "Invalid refresh token", rw (verified, wrong) refl)
        ]
      ]
