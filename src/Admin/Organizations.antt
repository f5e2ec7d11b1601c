-- ===== src/Admin/Organizations.antt =====
-- updateOrganization, deactivateOrganization and activateOrganization of admin.service.ts.
use egypt_supply_chain_visib.Base.{
  ℕ, ◌==◌, true, false, some, String, Result, ok, not_found, or_throw, ◌>>=◌,
}
use egypt_supply_chain_visib.Domain.{User, Organization, OrganizationType}
use egypt_supply_chain_visib.Store.Database.{Database, State}
use egypt_supply_chain_visib.Shipments.Update.{Patch}
use egypt_supply_chain_visib.Admin.{
  AdminAction, update_organization_action, deactivate_organization_action,
  activate_organization_action, Console, find_organization, log_admin_action,
}
use egypt_supply_chain_visib.Admin.Users.{given_or, text_or}

-- Phone, address and country, which nothing reads, are left out.
pub record AdminUpdateOrganizationDto : Type 0 where
  pub organization_name : Patch String
  pub organization_type : Patch OrganizationType

unfoldable pub patch_organization : AdminUpdateOrganizationDto → Organization → Organization
patch_organization dto org = record org {
  organization_name = text_or dto.organization_name org.organization_name;
  organization_type = given_or dto.organization_type org.organization_type;
}

abbrev pub closed_organization : Organization → Organization
closed_organization org = record org { organization_is_active = false }

abbrev pub deactivated : User → User
deactivated user = record user { user_is_active = false }

module _ (db : Database) (c : Console db) (admin_id : ℕ) where
  abbrev pub with_organization : AdminAction → ℕ → Organization → Console db
  with_organization action id org =
      log_admin_action db c admin_id action (some id) (record c.state {
        organizations = db.organizations_table.save c.state.organizations id org;
      })

  unfoldable pub update_organization : ℕ → AdminUpdateOrganizationDto → Result (Console db)
  unfolding patch_organization
  update_organization id dto = do
    org ← or_throw (find_organization db c id) not_found
    ok (with_organization update_organization_action id (patch_organization dto org))

  -- The organization, and every account of it.
  unfoldable pub close_organization : ℕ → Organization → State db
  close_organization id org = record c.state {
    organizations = db.organizations_table.save c.state.organizations id (closed_organization org);
    users =
        db.users_table.update_where c.state.users (λ user. user.organization_id == id) deactivated;
  }

  unfoldable pub deactivate_organization : ℕ → Result (Console db)
  unfolding close_organization
  deactivate_organization id = do
    org ← or_throw (find_organization db c id) not_found
    ok (
        log_admin_action db c admin_id deactivate_organization_action (some id)
          (close_organization id org))

  unfoldable pub activate_organization : ℕ → Result (Console db)
  activate_organization id = do
    org ← or_throw (find_organization db c id) not_found
    ok (
        with_organization activate_organization_action id
          (record org { organization_is_active = true }))
