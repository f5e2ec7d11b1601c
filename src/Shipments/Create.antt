-- ===== src/Shipments/Create.antt =====
-- `create` of shipments.service.ts, with CreateShipmentDto. Every exception comes before the first
-- write, so a failure leaves the state as it was.
use egypt_supply_chain_visib.Base.{
  ℕ, not, ◌||◌, Option, none, some, String, ◌∷◌, Result, ok, forbidden, not_found, bad_request,
  throw_if, or_throw, ◌>>=◌, ◌>>◌,
}
use egypt_supply_chain_visib.Domain.{
  RequestUser, User, Shipment, ShipmentEvent, is_shipper, is_admin, is_super_admin, is_shipper_type,
  draft, shipment_created,
}
use egypt_supply_chain_visib.Store.Messages.{
  shipment_event, key_created, audit_create, creation, no_value,
}
use egypt_supply_chain_visib.Store.Database.{Database, State, Ambient}
use egypt_supply_chain_visib.Shipments.Access.{find_user}
use egypt_supply_chain_visib.Shipments.Checks.{
  dates_out_of_order, organization_type_of, check_carrier, check_route,
}

-- A field that is missing and one that is null are stored alike.
pub record CreateShipmentDto : Type 0 where
  pub description : Option String
  pub cargo_type : Option String
  pub weight_kg : Option ℕ
  pub volume_m3 : Option ℕ
  pub origin_address : String
  pub destination_address : String
  pub origin_city : String
  pub destination_city : String
  pub estimated_departure_at : Option ℕ
  pub estimated_arrival_at : Option ℕ
  pub carrier_organization_id : Option ℕ
  pub route_id : Option ℕ
  pub notes : Option String

-- The row that is inserted; columns that the code leaves out take their defaults.
unfoldable pub new_shipment : Ambient → RequestUser → User → CreateShipmentDto → Shipment
new_shipment env user db_user dto = record {
  shipment_id = env.new_shipment_id;
  shipper_organization_id = db_user.organization_id;
  carrier_organization_id = dto.carrier_organization_id;
  carrier_user_id = none;
  route_id = dto.route_id;
  created_by_user_id = some user.sub;
  shipment_reference_number = env.new_reference;
  shipment_status = draft;
  shipment_description = dto.description;
  shipment_cargo_type = dto.cargo_type;
  shipment_weight_kg = dto.weight_kg;
  shipment_volume_m3 = dto.volume_m3;
  shipment_origin_address = dto.origin_address;
  shipment_destination_address = dto.destination_address;
  shipment_origin_city = dto.origin_city;
  shipment_destination_city = dto.destination_city;
  shipment_estimated_departure_at = dto.estimated_departure_at;
  shipment_estimated_arrival_at = dto.estimated_arrival_at;
  shipment_actual_departure_at = none;
  shipment_actual_arrival_at = none;
  shipment_current_checkpoint_id = none;
  shipment_current_latitude = none;
  shipment_current_longitude = none;
  shipment_notes = dto.notes;
  shipment_created_at = env.now;
}

-- The event that the same transaction inserts.
unfoldable pub created_event : Ambient → RequestUser → Shipment → ShipmentEvent
created_event env user shipment = record {
  event_shipment_id = shipment.shipment_id;
  event_type = shipment_created;
  event_status = draft;
  event_description = some "Shipment drafted and registered in the system";
  event_latitude = none;
  event_longitude = none;
  event_checkpoint_id = none;
  recorded_by_user_id = some user.sub;
  event_occurred_at = env.now;
}

module _ (db : Database) (s : State db) where
  -- The guards, up to the writes: the user's row, if the shipment may be created.
  unfoldable pub check_create : RequestUser → CreateShipmentDto → Result User
  unfolding find_user organization_type_of check_carrier check_route
  check_create user dto = do
    throw_if (not (is_shipper user.role || is_admin user.role || is_super_admin user.role))
        forbidden
    db_user ← or_throw (find_user db s user.sub) not_found
    throw_if (is_super_admin db_user.user_role) forbidden
    throw_if (not (is_shipper_type (organization_type_of db s db_user))) forbidden
    check_carrier db s dto.carrier_organization_id db_user.organization_id
    check_route db s dto.route_id
    throw_if (dates_out_of_order dto.estimated_departure_at dto.estimated_arrival_at) bad_request
    ok db_user

  unfoldable pub insert_shipment : Ambient → RequestUser → Shipment → State db
  unfolding created_event
  insert_shipment env user shipment = record s {
    shipments = db.shipments_table.save s.shipments env.new_shipment_id shipment;
    events = db.events_table.save s.events env.new_event_id (created_event env user shipment);
    published =
        shipment_event key_created (record {
          shipment_id = shipment.shipment_id;
          reference_number = shipment.shipment_reference_number;
          old_status = none;
          new_status = none;
          status = shipment.shipment_status;
          route_id = none;
          event_id = none;
          occurred_at = env.now;
          latitude = none;
          longitude = none;
          estimated_arrival_at = shipment.shipment_estimated_arrival_at;
          shipper_organization_id = shipment.shipper_organization_id;
          carrier_organization_id = shipment.carrier_organization_id;
          carrier_user_id = shipment.carrier_user_id;
        })
        ∷ s.published;
    audited =
        record {
          action = audit_create;
          resource_id = shipment.shipment_id;
          user_id = user.sub;
          old_value = no_value;
          new_value =
              creation shipment.shipment_reference_number shipment.shipment_status
                shipment.shipper_organization_id shipment.carrier_organization_id shipment.route_id
                shipment.shipment_origin_city shipment.shipment_destination_city;
        }
        ∷ s.audited;
  }

  unfoldable pub create : Ambient → RequestUser → CreateShipmentDto → Result (State db × Shipment)
  unfolding check_create new_shipment insert_shipment
  create env user dto = do
    db_user ← check_create user dto
    let shipment = new_shipment env user db_user dto
    ok (insert_shipment env user shipment, shipment)
