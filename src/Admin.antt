-- ===== src/Admin.antt =====
-- The administration of users, organizations and shipments: admin/admin.service.ts. `logAdminAction`
-- comes last, after the writes.
pub mod Users
pub mod Organizations
pub mod Shipments
pub mod Bulk
pub mod Guards
pub mod Access
pub mod Staff
pub mod Closing
pub mod Redaction
use egypt_supply_chain_visib.Base.{ℕ, Option, some, List, ◌∷◌}
use egypt_supply_chain_visib.Domain.{User, Organization}
use egypt_supply_chain_visib.Store.Database.{Database, State}

pub data AdminAction : Type 0 where
  update_user_action deactivate_user_action activate_user_action delete_user_action : AdminAction
  update_organization_action deactivate_organization_action activate_organization_action :
      AdminAction
  update_shipment_status_action bulk_action_action : AdminAction

-- An audit row, without the redacted old and new values; a bulk action has no resource.
pub record AdminAudit : Type 0 where
  pub admin_id : ℕ
  pub action : AdminAction
  pub resource_id : Option ℕ

-- The tables of the shipment service, and the audit rows of the administrators.
pub record Console (db : Database) : Type 0 where
  pub state : State db
  pub audited : List AdminAudit

module _ (db : Database) (c : Console db) where
  abbrev pub find_account : ℕ → Option User
  find_account id = db.users_table.find c.state.users id

  abbrev pub find_organization : ℕ → Option Organization
  find_organization id = db.organizations_table.find c.state.organizations id

  -- `logAdminAction` after the writes.
  abbrev pub log_admin_action : ℕ → AdminAction → Option ℕ → State db → Console db
  log_admin_action admin_id action resource_id s = record {
    state = s;
    audited =
        record { admin_id = admin_id; action = action; resource_id = resource_id } ∷ c.audited;
  }
