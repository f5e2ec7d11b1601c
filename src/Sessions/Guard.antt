-- ===== src/Sessions/Guard.antt =====
-- jwt-auth.guard.ts, for a request over HTTP. What `verifyAsync` makes of the
-- bearer token is an argument: `none` where there is no token or it is refused.
use egypt_supply_chain_visib.Base.{
  ◌==◌, Bool, not, Option, if◌then◌else◌, Result, ok, unauthorized, throw_if, or_throw, ◌>>=◌, ◌>>◌,
}
use egypt_supply_chain_visib.Sessions.{AccessPayload, Backend, SessionState}

module _ (b : Backend) (s : SessionState b) where
  -- The checks on the claims; the request's user is the payload.
  unfoldable pub check_claims : AccessPayload → Result (Unit {0})
  check_claims payload = do
    version ← or_throw payload.token_version unauthorized
    user ← or_throw (b.users_table.find s.users payload.sub) unauthorized
    throw_if (not user.user_is_active) unauthorized
    throw_if (not (user.user_token_version == version)) unauthorized
    session ← or_throw payload.session_id unauthorized
    throw_if (not (b.sessions_store.is_member s.sessions user.user_id session)) unauthorized

  -- `canActivate` of JwtAuthGuard, for a route that is public or not.
  unfoldable pub jwt_can_activate : Bool → Option AccessPayload → Result (Unit {0})
  unfolding check_claims
  jwt_can_activate is_public verified =
      if is_public then ok tt else do payload ← or_throw verified unauthorized; check_claims payload
