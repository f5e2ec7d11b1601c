-- ===== src/Admin/Bulk.antt =====
-- bulkAction of admin.service.ts.
use egypt_supply_chain_visib.Base.{
  ℕ, ◌==◌, Bool, true, false, none, List, [], ◌∷◌, any, Result, ok, err, bad_request,
}
use egypt_supply_chain_visib.Domain.{cancelled}
use egypt_supply_chain_visib.Store.Database.{Database, State}
use egypt_supply_chain_visib.Admin.{bulk_action_action, Console, log_admin_action}
use egypt_supply_chain_visib.Admin.Users.{drop_users}
use egypt_supply_chain_visib.Admin.Organizations.{closed_organization, deactivated}

pub data BulkAction : Type 0 where
  bulk_activate bulk_deactivate bulk_delete bulk_cancel : BulkAction

pub data ResourceType : Type 0 where
  user_resource organization_resource shipment_resource : ResourceType

-- `{ in: ids }`
abbrev pub listed : List ℕ → ℕ → Bool
listed ids id = any (λ k. k == id) ids

module _ (db : Database) (c : Console db) (admin_id : ℕ) (ids : List ℕ) where
  abbrev pub set_users_active : Bool → State db
  set_users_active active = record c.state {
    users =
        db.users_table.update_where c.state.users (λ user. listed ids user.user_id)
          (λ user. record user { user_is_active = active });
  }

  unfoldable pub bulk_delete_users : State db
  unfolding drop_users
  bulk_delete_users =
      drop_users db c admin_id (listed ids)
        (db.users_table.delete_where c.state.users (λ user. listed ids user.user_id))

  unfoldable pub bulk_cancel_shipments : State db
  bulk_cancel_shipments = record c.state {
    shipments =
        db.shipments_table.update_where c.state.shipments
          (λ shipment. listed ids shipment.shipment_id)
          (λ shipment. record shipment { shipment_status = cancelled });
  }

  unfoldable pub bulk_close_organizations : State db
  bulk_close_organizations = record c.state {
    organizations =
        db.organizations_table.update_where c.state.organizations
          (λ org. listed ids org.organization_id) closed_organization;
    users =
        db.users_table.update_where c.state.users (λ user. listed ids user.organization_id)
          deactivated;
  }

  -- The cases of the switch.
  unfoldable pub bulk_state : ResourceType → BulkAction → Result (State db)
  unfolding bulk_delete_users bulk_cancel_shipments bulk_close_organizations
  bulk_state user_resource bulk_deactivate = ok (set_users_active false)
  bulk_state user_resource bulk_activate = ok (set_users_active true)
  bulk_state user_resource bulk_delete = ok bulk_delete_users
  bulk_state shipment_resource bulk_cancel = ok bulk_cancel_shipments
  bulk_state organization_resource bulk_deactivate = ok bulk_close_organizations
  bulk_state _ _ = err bad_request

  abbrev pub logged_bulk : Result (State db) → Result (Console db)
  logged_bulk (err e) = err e
  logged_bulk (ok s) = ok (log_admin_action db c admin_id bulk_action_action none s)

unfoldable pub bulk_action :
    (db : Database) (c : Console db) (admin_id : ℕ)
    → ResourceType
    → BulkAction
    → List ℕ
    → Result (Console db)
unfolding bulk_state
bulk_action db c admin_id resource action [] = err bad_request
bulk_action db c admin_id resource action (id ∷ ids) =
    logged_bulk db c admin_id (id ∷ ids) (bulk_state db c admin_id (id ∷ ids) resource action)
