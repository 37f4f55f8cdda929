-- ===== src/Api/Auth/Tokens.antt =====
-- TokensService (packages/api/src/modules/auth/tokens.service.ts): a refresh token serves once, and
-- not at all after its user has logged out.
use marhaba_delivery_v.Prelude.{
  ℕ, String, ◌≡◌, refl, Bool, true, false, [], ◌∷◌, ◌++◌, Option, none, some, arith, string_eq,
  eq_iff, Option-cases, inl, inr,
}
use marhaba_delivery_v.Prelude.Rows.{
  find_first, find_first-update_many, find_first_meets, find_first-append,
}
use marhaba_delivery_v.Prelude.Action.{ok}
use marhaba_delivery_v.Api.Auth.{
  Crypto, RefreshToken, Accounts, consume_refresh_token, logout, with_hash, is_usable, revoke,
  live_token_of,
}

-- The row of a token, whether or not it is still usable.
abbrev pub token_row : Crypto → String → Accounts → Option RefreshToken
token_row c token a = find_first (with_hash (c.sha256 token)) a.tokens

abbrev pub usable_row : ℕ → Option RefreshToken → Bool
usable_row now none = false
usable_row now (some t) = is_usable now t

module _ (c : Crypto) (token : String) (a : Accounts) where
  -- A token that was consumed is not consumed again, as long as its row is the one that the first use
  -- has left.
  pub consume_once :
      (b : Accounts)
      → (consume_refresh_token c token a).0 ≡ ok true
      → token_row c token b ≡ token_row c token (consume_refresh_token c token a).1
      → consume_refresh_token c token b ≡ (ok false, b)
  unfolding consume_refresh_token
  consume_once b used later = elim (Option-cases (token_row c token a)) [
    | inl missing ↦ ground arith
    | inr (t, there) ↦ ground (
      arith,
      later,
      find_first-update_many (with_hash (c.sha256 token)) (with_hash (c.sha256 token))
          (revoke a.now) (λ r. refl) a.tokens,
      find_first_meets (with_hash (c.sha256 token)) a.tokens t there,
    )
  ]

  -- A row that is added later does not hide the row of a token that was consumed.
  pub used_row_first :
      (b : Accounts) (t : RefreshToken)
      → (consume_refresh_token c token a).0 ≡ ok true
      → b.tokens ≡ (consume_refresh_token c token a).1.tokens ++ t ∷ []
      → token_row c token b ≡ token_row c token (consume_refresh_token c token a).1
  unfolding consume_refresh_token
  used_row_first b t used later = elim (Option-cases (token_row c token a)) [
    | inl missing ↦ ground arith
    | inr (r, there) ↦ ground (
      arith,
      later,
      find_first-append (with_hash (c.sha256 token)) (consume_refresh_token c token a).1.tokens t,
      find_first-update_many (with_hash (c.sha256 token)) (with_hash (c.sha256 token))
          (revoke a.now) (λ x. refl) a.tokens,
    )
  ]

  -- A token is consumed exactly if its row is there, not revoked and not expired.
  pub consume_refresh_token_lem :
      (consume_refresh_token c token a).0 ≡ ok (usable_row a.now (token_row c token a))
  unfolding consume_refresh_token
  consume_refresh_token_lem = ground arith

  -- With the table as the logout of a user has left it, no token of that user is consumed.
  pub logout_revokes :
      (user_id : String) (t : RefreshToken) (b : Accounts)
      → find_first (with_hash (c.sha256 token)) a.tokens ≡ some t
      → t.user_id ≡ user_id
      → b.tokens ≡ (logout c user_id a).1.tokens
      → consume_refresh_token c token b ≡ (ok false, b)
  unfolding consume_refresh_token logout
  logout_revokes user_id t b there own later = ground (
    arith,
    later,
    eq_iff t.user_id user_id,
    find_first-update_many (with_hash (c.sha256 token)) (live_token_of user_id) (revoke a.now)
        (λ r. refl) a.tokens,
  )
