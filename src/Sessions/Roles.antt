-- ===== src/Sessions/Roles.antt =====
-- roles.guard.ts, which comes after the guard of access tokens. It reads the role of
-- the claims.
use egypt_supply_chain_visib.Base.{
  Bool, not, any, List, [], ◌∷◌, Option, none, some, if◌then◌else◌, Result, ok, err, forbidden,
  ◌>>◌,
}
use egypt_supply_chain_visib.Domain.{Role, same_role, is_super_admin}
use egypt_supply_chain_visib.Sessions.{AccessPayload, Backend, SessionState}
use egypt_supply_chain_visib.Sessions.Guard.{check_claims}

-- `requiredRoles.includes(user.role)`
abbrev pub has_role : List Role → Role → Bool
has_role required role = any (λ r. same_role r role) required

-- `canActivate` of RolesGuard over HTTP; no decorator and an empty one are alike.
unfoldable pub roles_can_activate : List Role → Option Role → Result (Unit {0})
roles_can_activate [] user = ok tt
roles_can_activate (role ∷ roles) none = err forbidden
roles_can_activate (role ∷ roles) (some user) =
    if is_super_admin user
    then ok tt
    else if not (has_role (role ∷ roles) user)
    then err forbidden
    else ok tt

module _ (b : Backend) where
  -- Both guards, for a token that verified.
  unfoldable pub can_access : SessionState b → List Role → AccessPayload → Result (Unit {0})
  unfolding check_claims roles_can_activate
  can_access s required payload = do
    check_claims b s payload
    roles_can_activate required (some payload.role)
