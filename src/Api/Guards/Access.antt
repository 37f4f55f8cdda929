-- ===== src/Api/Guards/Access.antt =====
-- JwtAuthGuard and RolesGuard (packages/api/src/common/guards): who gets through.
use marhaba_delivery_v.Prelude.{
  ℕ, String, ◌≡◌, ◌↔◌, ◌≢◌, true, false, List, ◌∷◌, Option, none, some, arith, Option-cases, inl,
  inr, includes,
}
use marhaba_delivery_v.Prelude.Action.{ok}
use marhaba_delivery_v.Shared.Enums.{UserRole}
use marhaba_delivery_v.Shared.Enums.Equality.{role_eq}
use marhaba_delivery_v.Api.Orders.{AuthenticatedUser}
use marhaba_delivery_v.Api.Auth.{Crypto, JwtPayload, access, is_access}
use marhaba_delivery_v.Api.Guards.{jwt_guard, roles_guard, extract_token, user_of_payload}

-- On a private route, the user that the guard puts on a request comes from an access token that
-- verifies: that of the cookie if it is not empty, else the bearer token.
pub jwt_guard_user :
    (c : Crypto) (cookie bearer : Option String) (now : ℕ) (u : AuthenticatedUser)
    → jwt_guard c false cookie bearer now ≡ ok (some u)
    → (token : String) × (p : JwtPayload) × (extract_token cookie bearer ≡ some token)
      × (c.verify access token now ≡ some p)
      × (is_access p.type ≡ true)
      × (u ≡ user_of_payload p)
unfolding jwt_guard
jwt_guard_user c cookie bearer now u h = elim (Option-cases (extract_token cookie bearer)) [
  | inl missing ↦ ground arith
  | inr (token, found) ↦ elim (Option-cases (c.verify access token now)) [
    | inl invalid ↦ ground arith
    | inr (p, valid) ↦ (token, p, found, valid, ground arith, ground arith)
  ]
]

-- A private route never goes on without a user.
pub jwt_guard_private :
    (c : Crypto) (cookie bearer : Option String) (now : ℕ)
    → jwt_guard c false cookie bearer now ≢ ok none
unfolding jwt_guard
jwt_guard_private c cookie bearer now = λ h. ground arith

-- With some roles required, a user of one of these roles gets through, and nobody else.
pub roles_guard_iff :
    (role : UserRole) (roles : List UserRole) (u : AuthenticatedUser)
    → (roles_guard (role ∷ roles) (some u) ≡ ok tt) ↔ (includes (role ∷ roles) u.role ≡ true)
unfolding roles_guard
roles_guard_iff role roles u = (λ h. ground arith, λ h. ground arith)
