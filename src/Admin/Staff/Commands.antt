-- ===== src/Admin/Staff/Commands.antt =====
-- Histories of administration, and that roles fit throughout.
use egypt_supply_chain_visib.Base.{ℕ, ◌≡◌, none, String, List, ok}
use egypt_supply_chain_visib.Store.Database.{Database}
use egypt_supply_chain_visib.Admin.{Console}
use egypt_supply_chain_visib.Admin.Users.{
  AdminUpdateUserDto, update_user, deactivate_user, activate_user, delete_user,
}
use egypt_supply_chain_visib.Shipments.Update.{given}
use egypt_supply_chain_visib.Admin.Organizations.{
  AdminUpdateOrganizationDto, update_organization, deactivate_organization, activate_organization,
}
use egypt_supply_chain_visib.Admin.Bulk.{BulkAction, ResourceType, bulk_action}
use egypt_supply_chain_visib.Admin.Staff.{IsStaffed}
use egypt_supply_chain_visib.Admin.Staff.Kept.{
  update_user-IsStaffed, deactivate_user-IsStaffed, activate_user-IsStaffed, delete_user-IsStaffed,
  update_organization-IsStaffed, deactivate_organization-IsStaffed, activate_organization-IsStaffed,
  bulk_action-IsStaffed,
}

module _ (db : Database) (lower : String → String) where
  -- A command that succeeded, of any administrator.
  pub data Command (c : Console db) : Console db → Type 0 where
    updates_user :
        (admin_id : ℕ) (hash : String → String) (id : ℕ) (dto : AdminUpdateUserDto)
        {after : Console db}
        → update_user db c admin_id lower hash id dto ≡ ok after
        → Command c after
    deactivates_user :
        (admin_id id : ℕ) {after : Console db}
        → deactivate_user db c admin_id id ≡ ok after
        → Command c after
    activates_user :
        (admin_id id : ℕ) {after : Console db}
        → activate_user db c admin_id id ≡ ok after
        → Command c after
    deletes_user :
        (admin_id id : ℕ) {after : Console db}
        → delete_user db c admin_id id ≡ ok after
        → Command c after
    updates_organization :
        (admin_id id : ℕ) (dto : AdminUpdateOrganizationDto) {after : Console db}
        → given dto.organization_type ≡ none
        → update_organization db c admin_id id dto ≡ ok after
        → Command c after
    deactivates_organization :
        (admin_id id : ℕ) {after : Console db}
        → deactivate_organization db c admin_id id ≡ ok after
        → Command c after
    activates_organization :
        (admin_id id : ℕ) {after : Console db}
        → activate_organization db c admin_id id ≡ ok after
        → Command c after
    acts_in_bulk :
        (admin_id : ℕ) (resource : ResourceType) (action : BulkAction) (ids : List ℕ)
        {after : Console db}
        → bulk_action db c admin_id resource action ids ≡ ok after
        → Command c after

  pub data Commands (c : Console db) : Console db → Type 0 where
    no_command : Commands c c
    then_command :
        {middle after : Console db} → Commands c middle → Command middle after → Commands c after

  Command-IsStaffed :
      {c after : Console db}
      → IsStaffed db lower c.state
      → Command c after
      → IsStaffed db lower after.state
  Command-IsStaffed {c = c} staffed (updates_user admin_id hash id dto {after = after} h) =
      update_user-IsStaffed db c admin_id lower staffed hash id dto after h
  Command-IsStaffed {c = c} staffed (deactivates_user admin_id id {after = after} h) =
      deactivate_user-IsStaffed db c admin_id lower staffed id after h
  Command-IsStaffed {c = c} staffed (activates_user admin_id id {after = after} h) =
      activate_user-IsStaffed db c admin_id lower staffed id after h
  Command-IsStaffed {c = c} staffed (deletes_user admin_id id {after = after} h) =
      delete_user-IsStaffed db c admin_id lower staffed id after h
  Command-IsStaffed {c = c} staffed
        (updates_organization admin_id id dto {after = after} untyped h) =
      update_organization-IsStaffed db c admin_id lower staffed id dto after untyped h
  Command-IsStaffed {c = c} staffed (deactivates_organization admin_id id {after = after} h) =
      deactivate_organization-IsStaffed db c admin_id lower staffed id after h
  Command-IsStaffed {c = c} staffed (activates_organization admin_id id {after = after} h) =
      activate_organization-IsStaffed db c admin_id lower staffed id after h
  Command-IsStaffed {c = c} staffed (acts_in_bulk admin_id resource action ids {after = after} h) =
      bulk_action-IsStaffed db c admin_id lower staffed resource action ids after h

  -- Whatever commands of administrators on users and organizations succeed, those apart that give
  -- an organization a type, every account has the role admin or super admin or one that is, case
  -- aside, the type of its organization, if that held at first.
  pub Commands-IsStaffed :
      {c after : Console db}
      → IsStaffed db lower c.state
      → Commands c after
      → IsStaffed db lower after.state
  Commands-IsStaffed staffed no_command = staffed
  Commands-IsStaffed staffed (then_command commands command) =
      Command-IsStaffed (Commands-IsStaffed staffed commands) command
