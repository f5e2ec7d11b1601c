-- ===== src/Admin/Staff/Kept.antt =====
-- Each command of an administrator keeps roles fitting, if it does not write the type of an
-- organization.
use egypt_supply_chain_visib.Base.{
  ℕ, ◌==◌, ◌≡◌, refl, subst, inl, inr, true, false, not, ◌&&◌, ◌||◌, Bool-cases, none, String, List,
  [], ◌∷◌, Result, ok, err, arith, conflict, forbidden, not_found, throw_if, throw_if-eq-ok,
  or_throw, or_throw-eq-ok, bind-eq-ok, guard-eq-ok, ok-injective,
}
use egypt_supply_chain_visib.Domain.{User, Role, is_admin, is_super_admin}
use egypt_supply_chain_visib.Store.Saves.{save-cases}
use egypt_supply_chain_visib.Store.Database.{Database, State}
use egypt_supply_chain_visib.Registry.{role_fits}
use egypt_supply_chain_visib.Admin.{Console, find_account, find_organization}
use egypt_supply_chain_visib.Admin.Users.{
  AdminUpdateUserDto, patch_user, check_role, given_or, update_user, deactivate_user, activate_user,
  check_last_admin, drop_users, delete_user,
}
use egypt_supply_chain_visib.Shipments.Update.{Patch, undefined, null, value, given}
use egypt_supply_chain_visib.Admin.Organizations.{
  AdminUpdateOrganizationDto, patch_organization, update_organization, close_organization,
  deactivate_organization, activate_organization,
}
use egypt_supply_chain_visib.Admin.Bulk.{
  BulkAction, bulk_activate, bulk_deactivate, bulk_delete, bulk_cancel, ResourceType, user_resource,
  organization_resource, shipment_resource, bulk_state, bulk_delete_users, bulk_cancel_shipments,
  bulk_close_organizations, bulk_action, logged_bulk,
}
use egypt_supply_chain_visib.Admin.Staff.{
  Suits, IsStaffed, kept-IsStaffed, same-KeepsStaff, save-KeepsStaff, delete-KeepsStaff,
  delete_where-KeepsStaff, flag-KeepsStaff, same-KeepsTypes, save-KeepsTypes, flag-KeepsTypes,
}

given_or-none : {A : Type 0} (p : Patch A) (old : A) → given p ≡ none → given_or p old ≡ old
given_or-none undefined old h = refl
given_or-none null old h = refl
given_or-none (value a) old h = absurd (ground arith)

module _ (db : Database) (c : Console db) (admin_id : ℕ) (lower : String → String)
    (staffed : IsStaffed db lower c.state) where
  check_role-Suits :
      (role : Role) (org_id : ℕ)
      → check_role db c admin_id lower role org_id ≡ ok tt
      → Suits db lower c.state.organizations role org_id
  unfolding check_role
  check_role-Suits role org_id h =
      let (org, got, h1) = bind-eq-ok (or_throw (find_organization db c org_id) not_found) _ h in
      let there = or_throw-eq-ok (find_organization db c org_id) not_found got in
      let guard =
        throw_if-eq-ok
          (not (is_admin role)
            && not (is_super_admin role)
            && not (role_fits lower role org.organization_type))
          conflict h1 in
      elim (Bool-cases (is_admin role || is_super_admin role)) [
        | inl free ↦ inl free
        | inr bound ↦ inr (org, there, ground arith)
      ]

  pub update_user-IsStaffed :
      (hash : String → String) (id : ℕ) (dto : AdminUpdateUserDto) (after : Console db)
      → update_user db c admin_id lower hash id dto ≡ ok after
      → IsStaffed db lower after.state
  unfolding update_user patch_user
  update_user-IsStaffed hash id dto after h =
      let (user, got, h1) = bind-eq-ok (or_throw (find_account db c id) not_found) _ h in
      let (other, h2) = guard-eq-ok (throw_if (user.user_id == admin_id) forbidden) _ h1 in
      let role = given_or dto.user_role user.user_role in
      let org_id = given_or dto.organization_id user.organization_id in
      let (checked, e) = guard-eq-ok (check_role db c admin_id lower role org_id) _ h2 in
      subst (λ (x : Console db). IsStaffed db lower x.state) (ok-injective e)
        (record {
          suits = λ k found at.
              elim (save-cases db.users_table c.state.users id k (patch_user hash dto user) found
                at) [
                  | inl (here, same) ↦
                      subst
                        (λ (x : User).
                          Suits db lower c.state.organizations x.user_role x.organization_id)
                        same (check_role-Suits role org_id checked)
                  | inr (off, before) ↦ staffed.suits k found before
                ];
        })

  pub deactivate_user-IsStaffed :
      (id : ℕ) (after : Console db)
      → deactivate_user db c admin_id id ≡ ok after
      → IsStaffed db lower after.state
  unfolding deactivate_user
  deactivate_user-IsStaffed id after h =
      let (user, got, h1) = bind-eq-ok (or_throw (find_account db c id) not_found) _ h in
      let (other, e) = guard-eq-ok (throw_if (user.user_id == admin_id) forbidden) _ h1 in
      let there = or_throw-eq-ok (find_account db c id) not_found got in
      subst (λ (x : Console db). IsStaffed db lower x.state) (ok-injective e)
        (kept-IsStaffed db lower c.state _ staffed
          (save-KeepsStaff db c.state.users id user (record user { user_is_active = false }) there
            refl refl)
          (same-KeepsTypes db c.state.organizations))

  pub activate_user-IsStaffed :
      (id : ℕ) (after : Console db)
      → activate_user db c admin_id id ≡ ok after
      → IsStaffed db lower after.state
  unfolding activate_user
  activate_user-IsStaffed id after h =
      let (user, got, e) = bind-eq-ok (or_throw (find_account db c id) not_found) _ h in
      let there = or_throw-eq-ok (find_account db c id) not_found got in
      subst (λ (x : Console db). IsStaffed db lower x.state) (ok-injective e)
        (kept-IsStaffed db lower c.state _ staffed
          (save-KeepsStaff db c.state.users id user (record user { user_is_active = true }) there
            refl refl)
          (same-KeepsTypes db c.state.organizations))

  pub delete_user-IsStaffed :
      (id : ℕ) (after : Console db)
      → delete_user db c admin_id id ≡ ok after
      → IsStaffed db lower after.state
  unfolding delete_user drop_users
  delete_user-IsStaffed id after h =
      let (user, got, h1) = bind-eq-ok (or_throw (find_account db c id) not_found) _ h in
      let (other, h2) = guard-eq-ok (throw_if (user.user_id == admin_id) forbidden) _ h1 in
      let (kept, e) = guard-eq-ok (check_last_admin db c admin_id user) _ h2 in
      subst (λ (x : Console db). IsStaffed db lower x.state) (ok-injective e)
        (kept-IsStaffed db lower c.state _ staffed (delete-KeepsStaff db c.state.users id)
          (same-KeepsTypes db c.state.organizations))

  -- An update that gives no type.
  pub update_organization-IsStaffed :
      (id : ℕ) (dto : AdminUpdateOrganizationDto) (after : Console db)
      → given dto.organization_type ≡ none
      → update_organization db c admin_id id dto ≡ ok after
      → IsStaffed db lower after.state
  unfolding update_organization patch_organization
  update_organization-IsStaffed id dto after untyped h =
      let (org, got, e) = bind-eq-ok (or_throw (find_organization db c id) not_found) _ h in
      let there = or_throw-eq-ok (find_organization db c id) not_found got in
      subst (λ (x : Console db). IsStaffed db lower x.state) (ok-injective e)
        (kept-IsStaffed db lower c.state _ staffed (same-KeepsStaff db c.state.users) (
          save-KeepsTypes db c.state.organizations id org (patch_organization dto org) there
            (given_or-none dto.organization_type org.organization_type untyped)))

  pub deactivate_organization-IsStaffed :
      (id : ℕ) (after : Console db)
      → deactivate_organization db c admin_id id ≡ ok after
      → IsStaffed db lower after.state
  unfolding deactivate_organization close_organization
  deactivate_organization-IsStaffed id after h =
      let (org, got, e) = bind-eq-ok (or_throw (find_organization db c id) not_found) _ h in
      let there = or_throw-eq-ok (find_organization db c id) not_found got in
      subst (λ (x : Console db). IsStaffed db lower x.state) (ok-injective e)
        (kept-IsStaffed db lower c.state _ staffed (flag-KeepsStaff db c.state.users _ false) (
          save-KeepsTypes db c.state.organizations id org
            (record org { organization_is_active = false }) there refl))

  pub activate_organization-IsStaffed :
      (id : ℕ) (after : Console db)
      → activate_organization db c admin_id id ≡ ok after
      → IsStaffed db lower after.state
  unfolding activate_organization
  activate_organization-IsStaffed id after h =
      let (org, got, e) = bind-eq-ok (or_throw (find_organization db c id) not_found) _ h in
      let there = or_throw-eq-ok (find_organization db c id) not_found got in
      subst (λ (x : Console db). IsStaffed db lower x.state) (ok-injective e)
        (kept-IsStaffed db lower c.state _ staffed (same-KeepsStaff db c.state.users) (
          save-KeepsTypes db c.state.organizations id org
            (record org { organization_is_active = true }) there refl))

  bulk_state-IsStaffed :
      (ids : List ℕ) (resource : ResourceType) (action : BulkAction) (after : State db)
      → bulk_state db c admin_id ids resource action ≡ ok after
      → IsStaffed db lower after
  unfolding bulk_state bulk_delete_users bulk_cancel_shipments bulk_close_organizations drop_users
  bulk_state-IsStaffed ids user_resource bulk_deactivate after h =
      subst (IsStaffed db lower) (ok-injective h) (
        kept-IsStaffed db lower c.state _ staffed (flag-KeepsStaff db c.state.users _ false)
          (same-KeepsTypes db c.state.organizations))
  bulk_state-IsStaffed ids user_resource bulk_activate after h =
      subst (IsStaffed db lower) (ok-injective h) (
        kept-IsStaffed db lower c.state _ staffed (flag-KeepsStaff db c.state.users _ true)
          (same-KeepsTypes db c.state.organizations))
  bulk_state-IsStaffed ids user_resource bulk_delete after h =
      subst (IsStaffed db lower) (ok-injective h) (
        kept-IsStaffed db lower c.state _ staffed (delete_where-KeepsStaff db c.state.users _)
          (same-KeepsTypes db c.state.organizations))
  bulk_state-IsStaffed ids user_resource bulk_cancel after h = cc
  bulk_state-IsStaffed ids shipment_resource bulk_cancel after h =
      subst (IsStaffed db lower) (ok-injective h) (
        kept-IsStaffed db lower c.state _ staffed (same-KeepsStaff db c.state.users)
          (same-KeepsTypes db c.state.organizations))
  bulk_state-IsStaffed ids shipment_resource bulk_activate after h = cc
  bulk_state-IsStaffed ids shipment_resource bulk_deactivate after h = cc
  bulk_state-IsStaffed ids shipment_resource bulk_delete after h = cc
  bulk_state-IsStaffed ids organization_resource bulk_deactivate after h =
      subst (IsStaffed db lower) (ok-injective h) (
        kept-IsStaffed db lower c.state _ staffed (flag-KeepsStaff db c.state.users _ false)
          (flag-KeepsTypes db c.state.organizations _ false))
  bulk_state-IsStaffed ids organization_resource bulk_activate after h = cc
  bulk_state-IsStaffed ids organization_resource bulk_delete after h = cc
  bulk_state-IsStaffed ids organization_resource bulk_cancel after h = cc

  logged_bulk-IsStaffed :
      (ids : List ℕ) (o : Result (State db)) (after : Console db)
      → ((s : State db) → o ≡ ok s → IsStaffed db lower s)
      → logged_bulk db c admin_id ids o ≡ ok after
      → IsStaffed db lower after.state
  logged_bulk-IsStaffed ids (err e) after fits h = cc
  logged_bulk-IsStaffed ids (ok s) after fits h =
      subst (λ (x : Console db). IsStaffed db lower x.state) (ok-injective h) (fits s refl)

  pub bulk_action-IsStaffed :
      (resource : ResourceType) (action : BulkAction) (ids : List ℕ) (after : Console db)
      → bulk_action db c admin_id resource action ids ≡ ok after
      → IsStaffed db lower after.state
  unfolding bulk_action
  bulk_action-IsStaffed resource action [] after h = cc
  bulk_action-IsStaffed resource action (id ∷ ids) after h =
      logged_bulk-IsStaffed (id ∷ ids) (bulk_state db c admin_id (id ∷ ids) resource action) after
        (bulk_state-IsStaffed (id ∷ ids) resource action) h
