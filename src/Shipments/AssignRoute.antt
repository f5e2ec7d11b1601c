-- ===== src/Shipments/AssignRoute.antt =====
-- `assignRoute` of shipments.service.ts. Every exception comes before the first write.
use egypt_supply_chain_visib.Base.{
  ℕ, ◌==◌, ◌is◌, Bool, not, ◌&&◌, ◌||◌, Option, none, some, String, ◌∷◌, Result, ok, forbidden,
  not_found, bad_request, throw_if, or_throw, ◌>>=◌, ◌>>◌,
}
use Prim.Native.String.{◌++◌ as append}
use egypt_supply_chain_visib.Domain.{
  RequestUser, User, Route, Shipment, OrganizationType, delivered, cancelled, confirmed,
  same_status, route_assigned, is_shipper, is_admin, is_carrier, is_super_admin, is_carrier_type,
}
use egypt_supply_chain_visib.Store.Messages.{
  shipment_event, key_route_assigned, audit_route_assign, route_value,
}
use egypt_supply_chain_visib.Store.Database.{Database, State, Ambient}
use egypt_supply_chain_visib.Shipments.Access.{find_user}
use egypt_supply_chain_visib.Shipments.Checks.{organization_type_of}

-- `isShipperSide` and `isCarrierSide`
unfoldable pub is_shipper_side : RequestUser → User → Shipment → Bool
is_shipper_side user db_user shipment =
    shipment.shipper_organization_id == db_user.organization_id
    && (is_shipper user.role || is_admin user.role)

unfoldable pub is_carrier_side : RequestUser → User → Option OrganizationType → Shipment → Bool
is_carrier_side user db_user organization_type shipment =
    shipment.carrier_organization_id is db_user.organization_id
    && (is_carrier_type organization_type
        && (is_admin user.role || (is_carrier user.role && shipment.carrier_user_id is user.sub)))

-- The text of the event's description.
unfoldable pub route_description : String → String
route_description name = append (append "Route \"" name) "\" assigned to this shipment"

module _ (db : Database) (s : State db) where
  -- The guards on the shipment and the user.
  unfoldable pub check_assign_route : RequestUser → Shipment → Result (Unit {0})
  unfolding find_user organization_type_of is_shipper_side is_carrier_side
  check_assign_route user shipment = do
    throw_if (same_status shipment.shipment_status delivered) bad_request
    throw_if (same_status shipment.shipment_status cancelled && not (is_super_admin user.role))
        forbidden
    db_user ← or_throw (find_user db s user.sub) not_found
    throw_if
        (not (is_super_admin user.role)
          && (not (is_shipper_side user db_user shipment)
              && not (is_carrier_side user db_user (organization_type_of db s db_user) shipment)))
        forbidden

  unfoldable pub save_route : Ambient → RequestUser → ℕ → ℕ → Shipment → Route → State db
  save_route env user id route_id shipment route = record s {
    shipments =
        db.shipments_table.save s.shipments id (record shipment { route_id = some route_id });
    events = db.events_table.save s.events env.new_event_id (record {
      event_shipment_id = id;
      event_type = route_assigned;
      event_status = confirmed;
      event_description = some (route_description route.route_name);
      event_latitude = none;
      event_longitude = none;
      event_checkpoint_id = none;
      recorded_by_user_id = some user.sub;
      event_occurred_at = env.now;
    });
    published =
        shipment_event key_route_assigned (record {
          shipment_id = shipment.shipment_id;
          reference_number = shipment.shipment_reference_number;
          old_status = none;
          new_status = none;
          status = shipment.shipment_status;
          route_id = some route.route_id;
          event_id = none;
          occurred_at = env.now;
          latitude = none;
          longitude = none;
          estimated_arrival_at = none;
          shipper_organization_id = shipment.shipper_organization_id;
          carrier_organization_id = shipment.carrier_organization_id;
          carrier_user_id = shipment.carrier_user_id;
        })
        ∷ s.published;
    audited =
        record {
          action = audit_route_assign;
          resource_id = id;
          user_id = user.sub;
          old_value = route_value shipment.route_id none;
          new_value = route_value (some route.route_id) (some route.route_name);
        }
        ∷ s.audited;
  }

  unfoldable pub assign_route : Ambient → RequestUser → ℕ → ℕ → Result (State db × Shipment)
  unfolding check_assign_route save_route
  assign_route env user id route_id = do
    shipment ← or_throw (db.shipments_table.find s.shipments id) not_found
    check_assign_route user shipment
    route ← or_throw (db.routes_table.find s.routes route_id) bad_request
    ok (
      save_route env user id route_id shipment route,
      record shipment { route_id = some route_id },
    )
