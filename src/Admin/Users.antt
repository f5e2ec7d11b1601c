-- ===== src/Admin/Users.antt =====
-- updateUser, deactivateUser, activateUser and deleteUser of admin.service.ts.
use egypt_supply_chain_visib.Base.{
  ℕ, ◌==◌, leb, same_text, Bool, true, false, not, ◌&&◌, Option, none, some, String, if◌then◌else◌,
  Result, ok, conflict, forbidden, not_found, throw_if, or_throw, ◌>>=◌, ◌>>◌,
}
use egypt_supply_chain_visib.Domain.{User, Role, is_admin, is_super_admin}
use egypt_supply_chain_visib.Store.Database.{Database, State}
use egypt_supply_chain_visib.Shipments.Update.{Patch, undefined, null, value, patch}
use egypt_supply_chain_visib.Registry.{role_fits}
use egypt_supply_chain_visib.Admin.{
  AdminAction, update_user_action, deactivate_user_action, activate_user_action, delete_user_action,
  Console, find_account, find_organization, log_admin_action,
}

pub record AdminUpdateUserDto : Type 0 where
  pub user_first_name : Patch String
  pub user_last_name : Patch String
  pub user_phone : Patch String
  pub user_role : Patch Role
  pub organization_id : Patch ℕ
  pub user_password : Patch String

-- `if (dto.field) updateData.field = dto.field`, of a role, a type or an identifier: `@IsIn` and
-- `@IsUUID` let no empty text through.
abbrev pub given_or : {A : Type 0} → Patch A → A → A
given_or undefined old = old
given_or null old = old
given_or (value a) old = a

-- The same of a text, where the empty one is falsy.
abbrev pub text_or : Patch String → String → String
text_or undefined old = old
text_or null old = old
text_or (value a) old = if same_text a "" then old else a

-- `bcrypt.hash` of a password that is given.
abbrev pub password_or : (String → String) → Patch String → String → String
password_or hash undefined old = old
password_or hash null old = old
password_or hash (value a) old = if same_text a "" then old else hash a

-- The columns of `updateData`.
unfoldable pub patch_user : (String → String) → AdminUpdateUserDto → User → User
patch_user hash dto user = record user {
  user_first_name = text_or dto.user_first_name user.user_first_name;
  user_last_name = text_or dto.user_last_name user.user_last_name;
  user_phone = patch dto.user_phone user.user_phone;
  user_role = given_or dto.user_role user.user_role;
  organization_id = given_or dto.organization_id user.organization_id;
  user_password_hash = password_or hash dto.user_password user.user_password_hash;
}

-- `where` of the admins of an organization.
abbrev pub administers : ℕ → User → Bool
administers org_id user = is_admin user.user_role && user.organization_id == org_id

module _ (db : Database) (c : Console db) (admin_id : ℕ) where
  abbrev pub with_user : AdminAction → ℕ → User → Console db
  with_user action id user =
      log_admin_action db c admin_id action (some id)
        (record c.state { users = db.users_table.save c.state.users id user })

  -- A row has an organization always, so the branch for a missing one is never taken.
  unfoldable pub check_role : (String → String) → Role → ℕ → Result (Unit {0})
  check_role lower role org_id = do
    org ← or_throw (find_organization db c org_id) not_found
    throw_if
        (not (is_admin role)
          && not (is_super_admin role)
          && not (role_fits lower role org.organization_type))
        conflict

  -- `lower` is `toLowerCase` of strings, `hash` is `bcrypt.hash` with its salt.
  unfoldable pub update_user :
      (String → String) → (String → String) → ℕ → AdminUpdateUserDto → Result (Console db)
  unfolding check_role patch_user
  update_user lower hash id dto = do
    user ← or_throw (find_account db c id) not_found
    throw_if (user.user_id == admin_id) forbidden
    check_role lower (given_or dto.user_role user.user_role)
        (given_or dto.organization_id user.organization_id)
    ok (with_user update_user_action id (patch_user hash dto user))

  unfoldable pub deactivate_user : ℕ → Result (Console db)
  deactivate_user id = do
    user ← or_throw (find_account db c id) not_found
    throw_if (user.user_id == admin_id) forbidden
    ok (with_user deactivate_user_action id (record user { user_is_active = false }))

  unfoldable pub activate_user : ℕ → Result (Console db)
  activate_user id = do
    user ← or_throw (find_account db c id) not_found
    ok (with_user activate_user_action id (record user { user_is_active = true }))

  unfoldable pub check_last_admin : User → Result (Unit {0})
  check_last_admin user =
      throw_if
        (is_admin user.user_role
          && leb (db.users_table.count c.state.users (administers user.organization_id)) 1)
        forbidden

  -- The rows go, and by `onDelete` of server/prisma/schema.prisma the columns of shipments and
  -- events that refer to them become null. The other tables are not in the state.
  unfoldable pub drop_users : (ℕ → Bool) → db.users_table.Rows → State db
  drop_users gone rows = record c.state {
    users = rows;
    shipments =
        db.shipments_table.update_where
          (db.shipments_table.update_where c.state.shipments
            (λ shipment. refers gone shipment.carrier_user_id)
            (λ shipment. record shipment { carrier_user_id = none }))
          (λ shipment. refers gone shipment.created_by_user_id)
          (λ shipment. record shipment { created_by_user_id = none });
    events =
        db.events_table.update_where c.state.events (λ event. refers gone event.recorded_by_user_id)
          (λ event. record event { recorded_by_user_id = none });
  }
    where
      refers : (ℕ → Bool) → Option ℕ → Bool
      refers gone none = false
      refers gone (some id) = gone id

  unfoldable pub delete_user : ℕ → Result (Console db)
  unfolding check_last_admin drop_users
  delete_user id = do
    user ← or_throw (find_account db c id) not_found
    throw_if (user.user_id == admin_id) forbidden
    check_last_admin user
    ok (
        log_admin_action db c admin_id delete_user_action (some id)
          (drop_users (λ k. k == id) (db.users_table.delete c.state.users id)))
