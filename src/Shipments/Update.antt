-- ===== src/Shipments/Update.antt =====
-- `update` of shipments.service.ts, with UpdateShipmentDto. Every exception of the code comes
-- before the write; the write itself is refused whole if a value does not fit its column.
pub mod Dates
use egypt_supply_chain_visib.Base.{
  ℕ, ◌&&◌, Option, none, some, String, ◌∷◌, Result, ok, err, forbidden, not_found, bad_request,
  invalid_value, throw_if, or_throw, ◌>>=◌, ◌>>◌,
}
use egypt_supply_chain_visib.Domain.{
  RequestUser, Shipment, delivered, cancelled, same_status, is_carrier,
}
use egypt_supply_chain_visib.Store.Messages.{AuditPayload, audit_update, snapshot}
use egypt_supply_chain_visib.Store.Database.{Database, State}
use egypt_supply_chain_visib.Shipments.Access.{enforce_edit_access}
use egypt_supply_chain_visib.Shipments.Checks.{dates_out_of_order, check_carrier, check_route}

-- A field of a partial DTO: `@IsOptional` lets `undefined` and `null` through.
pub data Patch (A : Type 0) : Type 0 where
  undefined null : Patch A
  value : A → Patch A

pub record UpdateShipmentDto : Type 0 where
  pub description : Patch String
  pub cargo_type : Patch String
  pub weight_kg : Patch ℕ
  pub volume_m3 : Patch ℕ
  pub origin_address : Patch String
  pub destination_address : Patch String
  pub origin_city : Patch String
  pub destination_city : Patch String
  pub estimated_departure_at : Patch ℕ
  pub estimated_arrival_at : Patch ℕ
  pub carrier_organization_id : Patch ℕ
  pub route_id : Patch ℕ
  pub notes : Patch String

-- The value, if the field is truthy.
abbrev pub given : {A : Type 0} → Patch A → Option A
given undefined = none
given null = none
given (value a) = some a

-- `...(field !== undefined && { column: field })`
abbrev pub patch : {A : Type 0} → Patch A → Option A → Option A
patch undefined old = old
patch null old = none
patch (value a) old = some a

-- The same at a column that is NOT NULL.
abbrev pub patch_required : {A : Type 0} → Patch A → A → Result A
patch_required undefined old = ok old
patch_required null old = err invalid_value
patch_required (value a) old = ok a

-- `...(field !== undefined && { column: new Date(field) })`, where `new Date(null)` is 1970. A date
-- before that is no `ℕ`, and left out.
abbrev pub patch_date : Patch ℕ → Option ℕ → Option ℕ
patch_date undefined old = old
patch_date null old = some 0
patch_date (value a) old = some a

-- `newDeparture` and `newArrival`, the dates that the check compares.
abbrev pub checked_date : Patch ℕ → Option ℕ → Option ℕ
checked_date undefined old = old
checked_date null old = none
checked_date (value a) old = some a

-- `auditPayload`
unfoldable pub audit_payload : Shipment → AuditPayload
audit_payload shipment = record {
  status = shipment.shipment_status;
  cargo_type = shipment.shipment_cargo_type;
  weight_kg = shipment.shipment_weight_kg;
  volume_m3 = shipment.shipment_volume_m3;
  origin_city = shipment.shipment_origin_city;
  destination_city = shipment.shipment_destination_city;
  shipper_organization_id = shipment.shipper_organization_id;
  carrier_organization_id = shipment.carrier_organization_id;
  carrier_user_id = shipment.carrier_user_id;
  route_id = shipment.route_id;
  estimated_departure_at = shipment.shipment_estimated_departure_at;
  estimated_arrival_at = shipment.shipment_estimated_arrival_at;
}

-- The `data` of the write.
unfoldable pub patch_shipment : UpdateShipmentDto → Shipment → Result Shipment
patch_shipment dto shipment = do
  origin_address ← patch_required dto.origin_address shipment.shipment_origin_address
  destination_address ← patch_required dto.destination_address shipment.shipment_destination_address
  origin_city ← patch_required dto.origin_city shipment.shipment_origin_city
  destination_city ← patch_required dto.destination_city shipment.shipment_destination_city
  ok (record shipment {
    carrier_organization_id = patch dto.carrier_organization_id shipment.carrier_organization_id;
    route_id = patch dto.route_id shipment.route_id;
    shipment_description = patch dto.description shipment.shipment_description;
    shipment_cargo_type = patch dto.cargo_type shipment.shipment_cargo_type;
    shipment_weight_kg = patch dto.weight_kg shipment.shipment_weight_kg;
    shipment_volume_m3 = patch dto.volume_m3 shipment.shipment_volume_m3;
    shipment_origin_address = origin_address;
    shipment_destination_address = destination_address;
    shipment_origin_city = origin_city;
    shipment_destination_city = destination_city;
    shipment_estimated_departure_at =
        patch_date dto.estimated_departure_at shipment.shipment_estimated_departure_at;
    shipment_estimated_arrival_at =
        patch_date dto.estimated_arrival_at shipment.shipment_estimated_arrival_at;
    shipment_notes = patch dto.notes shipment.shipment_notes;
  })

module _ (db : Database) (s : State db) where
  -- The guards, up to the write.
  unfoldable pub check_update : RequestUser → Shipment → UpdateShipmentDto → Result (Unit {0})
  unfolding enforce_edit_access check_carrier check_route
  check_update user shipment dto = do
    enforce_edit_access db s user shipment
    throw_if (same_status shipment.shipment_status delivered) bad_request
    throw_if (same_status shipment.shipment_status cancelled && is_carrier user.role) forbidden
    check_carrier db s (given dto.carrier_organization_id) shipment.shipper_organization_id
    check_route db s (given dto.route_id)
    throw_if
        (dates_out_of_order
          (checked_date dto.estimated_departure_at shipment.shipment_estimated_departure_at)
          (checked_date dto.estimated_arrival_at shipment.shipment_estimated_arrival_at))
        bad_request

  unfoldable pub save_update : RequestUser → ℕ → Shipment → Shipment → State db
  save_update user id shipment updated = record s {
    shipments = db.shipments_table.save s.shipments id updated;
    audited =
        record {
          action = audit_update;
          resource_id = id;
          user_id = user.sub;
          old_value = snapshot (audit_payload shipment);
          new_value = snapshot (audit_payload updated);
        }
        ∷ s.audited;
  }

  unfoldable pub update : RequestUser → ℕ → UpdateShipmentDto → Result (State db × Shipment)
  unfolding check_update patch_shipment save_update
  update user id dto = do
    shipment ← or_throw (db.shipments_table.find s.shipments id) not_found
    check_update user shipment dto
    updated ← patch_shipment dto shipment
    ok (save_update user id shipment updated, updated)
