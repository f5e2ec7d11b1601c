-- ===== src/Admin/Access.antt =====
-- What updateUser means for access tokens that are out. The service of administration has no Redis:
-- the sessions of auth.service.ts share the table of users with it and nothing else.
use egypt_supply_chain_visib.Base.{
  ℕ, ◌==◌, ◌≡◌, refl, sym, subst, ap, inl, inr, some, List, String, ok, Bool-cases, arith, or_throw,
  throw_if, bind-eq-ok, guard-eq-ok, or_throw-eq-ok, ok-injective, not_found, forbidden,
}
use egypt_supply_chain_visib.Domain.{User, Role}
use egypt_supply_chain_visib.Store.Saves.{save_here, save_elsewhere}
use egypt_supply_chain_visib.Store.Database.{Database}
use egypt_supply_chain_visib.Sessions.{AccessPayload, Backend, SessionState}
use egypt_supply_chain_visib.Sessions.Guard.{check_claims}
use egypt_supply_chain_visib.Sessions.Roles.{can_access}
use egypt_supply_chain_visib.Admin.{Console, find_account}
use egypt_supply_chain_visib.Admin.Users.{
  AdminUpdateUserDto, patch_user, check_role, given_or, update_user, password_or,
}

-- The keys of `b` beside the table of users of the administration.
abbrev pub beside : Database → Backend → Backend
beside db b = record b { users_table = db.users_table }

module _ (db : Database) (b : Backend) where
  -- The session service as it finds the users after a command of the administration.
  abbrev pub seen : Console db → SessionState (beside db b) → SessionState (beside db b)
  seen c s = record s { users = c.state.users }

  patched-can_access :
      (s : SessionState (beside db b)) (id : ℕ) (user : User) (hash : String → String)
      (dto : AdminUpdateUserDto) (required : List Role) (payload : AccessPayload)
      → db.users_table.find s.users id ≡ some user
      → can_access
          (beside db b)
          (record s { users = db.users_table.save s.users id (patch_user hash dto user) })
          required
          payload
        ≡ can_access (beside db b) s required payload
  unfolding can_access check_claims patch_user
  patched-can_access s id user hash dto required payload found =
      elim (Bool-cases (id == payload.sub)) [
        | inl same ↦
            let own : id ≡ payload.sub = ground arith in
            rw (sym own, found, save_here db.users_table s.users id (patch_user hash dto user)) refl
        | inr other ↦
            let kept =
              save_elsewhere db.users_table s.users id payload.sub (patch_user hash dto user)
                (λ e. absurd (ground arith)) in
            rw kept refl
      ]

  -- If updateUser succeeds, the account has the role, organization and password of the call where
  -- the call gives one, and yet every access token is admitted to every route as it was before,
  -- whatever role the route requires: the tokens of the account with its old role too.
  pub update_user-can_access :
      (c after : Console db) (admin_id : ℕ) (lower hash : String → String) (id : ℕ)
      (dto : AdminUpdateUserDto)
      → update_user db c admin_id lower hash id dto ≡ ok after
      → ((old new : User) × (find_account db c id ≡ some old)
          × (find_account db after id ≡ some new)
          × (new.user_role ≡ given_or dto.user_role old.user_role)
          × (new.organization_id ≡ given_or dto.organization_id old.organization_id)
          × (new.user_password_hash ≡ password_or hash dto.user_password old.user_password_hash))
        × ((s : SessionState (beside db b)) (required : List Role) (payload : AccessPayload)
            → can_access (beside db b) (seen after s) required payload
              ≡ can_access (beside db b) (seen c s) required payload)
  unfolding update_user patch_user
  update_user-can_access c after admin_id lower hash id dto h =
      let (user, got, h1) = bind-eq-ok (or_throw (find_account db c id) not_found) _ h in
      let (other, h2) = guard-eq-ok (throw_if (user.user_id == admin_id) forbidden) _ h1 in
      let role = given_or dto.user_role user.user_role in
      let org_id = given_or dto.organization_id user.organization_id in
      let (checked, e) = guard-eq-ok (check_role db c admin_id lower role org_id) _ h2 in
      let found = or_throw-eq-ok (find_account db c id) not_found got in
      let row : User = patch_user hash dto user in
      let written : db.users_table.save c.state.users id row ≡ after.state.users =
        ap (λ (x : Console db). x.state.users) (ok-injective e) in
      let there : find_account db after id ≡ some row =
        subst (λ (x : db.users_table.Rows). db.users_table.find x id ≡ some row) written
          (save_here db.users_table c.state.users id row) in
      (
        (user, row, found, there, refl, refl, refl),
        λ s required payload.
            subst
              (λ (x : db.users_table.Rows).
                can_access (beside db b) (record s { users = x }) required payload
                ≡ can_access (beside db b) (seen c s) required payload)
              written (patched-can_access (seen c s) id user hash dto required payload found),
      )
