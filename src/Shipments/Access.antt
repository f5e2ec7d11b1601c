-- ===== src/Shipments/Access.antt =====
-- Who may see and who may edit a shipment: `enforceViewAccess`, `enforceEditAccess` and
-- `canCarrierManage` of shipments.service.ts.
use egypt_supply_chain_visib.Base.{
  ℕ, ◌==◌, ◌is◌, Bool, true, not, ◌&&◌, ◌||◌, Option, is_some, if◌then◌else◌, Result, ok, forbidden,
  throw_if, or_throw, ◌>>=◌,
}
use egypt_supply_chain_visib.Domain.{
  RequestUser, User, Shipment, is_regulator, is_super_admin, is_carrier,
}
use egypt_supply_chain_visib.Store.Database.{Database, State}

-- The organization of a user is never null, so `!!organizationId` holds.
unfoldable pub can_carrier_manage : Shipment → ℕ → ℕ → Bool
can_carrier_manage shipment organization_id user_id =
    if shipment.carrier_user_id is user_id
    then true
    else (shipment.carrier_organization_id is organization_id
        && not (is_some shipment.carrier_user_id))

-- The rest of `enforceViewAccess`, once the user's row is read.
unfoldable pub may_view : RequestUser → User → Shipment → Bool
unfolding can_carrier_manage
may_view user db_user shipment =
    if is_carrier user.role
    then (is_shipper_org || can_carrier_manage shipment db_user.organization_id user.sub)
    else (is_shipper_org
        || shipment.carrier_organization_id is db_user.organization_id
        || shipment.carrier_user_id is user.sub)
  where
    is_shipper_org : Bool
    is_shipper_org = shipment.shipper_organization_id == db_user.organization_id

module _ (db : Database) (s : State db) where
  unfoldable pub find_user : ℕ → Option User
  find_user = db.users_table.find s.users

  unfoldable pub enforce_view_access : RequestUser → Shipment → Result (Unit {0})
  unfolding find_user may_view
  enforce_view_access user shipment =
      if is_regulator user.role || is_super_admin user.role then ok tt else do
        db_user ← or_throw (find_user user.sub) forbidden
        throw_if (not (may_view user db_user shipment)) forbidden

  unfoldable pub enforce_edit_access : RequestUser → Shipment → Result (Unit {0})
  unfolding find_user
  enforce_edit_access user shipment = if is_super_admin user.role then ok tt else do
    db_user ← or_throw (find_user user.sub) forbidden
    throw_if (not (shipment.shipper_organization_id == db_user.organization_id)) forbidden
