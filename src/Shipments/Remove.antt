-- ===== src/Shipments/Remove.antt =====
-- `remove` of shipments.service.ts. The events of a shipment refer to it by a foreign key that
-- restricts its deletion (server/prisma/schema.prisma), so the database refuses the `delete` while
-- one is there. The alerts of a shipment go with it; they are no part of this state.
use egypt_supply_chain_visib.Base.{
  ℕ, ◌==◌, ltb, not, none, ◌∷◌, Bool, Result, ok, not_found, bad_request, foreign_key, throw_if,
  or_throw, ◌>>=◌, ◌>>◌,
}
use egypt_supply_chain_visib.Domain.{RequestUser, Shipment, ShipmentEvent, draft, same_status}
use egypt_supply_chain_visib.Store.Messages.{
  shipment_event, key_removed, audit_delete, snapshot, no_value,
}
use egypt_supply_chain_visib.Store.Database.{Database, State, Ambient}
use egypt_supply_chain_visib.Shipments.Access.{enforce_edit_access}
use egypt_supply_chain_visib.Shipments.Update.{audit_payload}

-- The event belongs to the shipment.
abbrev pub is_event_of : ℕ → ShipmentEvent → Bool
is_event_of id event = event.event_shipment_id == id

module _ (db : Database) (s : State db) where
  unfoldable pub delete_shipment : Ambient → RequestUser → ℕ → Shipment → State db
  unfolding audit_payload
  delete_shipment env user id shipment = record s {
    shipments = db.shipments_table.delete s.shipments id;
    published =
        shipment_event key_removed (record {
          shipment_id = shipment.shipment_id;
          reference_number = shipment.shipment_reference_number;
          old_status = none;
          new_status = none;
          status = shipment.shipment_status;
          route_id = none;
          event_id = none;
          occurred_at = env.now;
          latitude = shipment.shipment_current_latitude;
          longitude = shipment.shipment_current_longitude;
          estimated_arrival_at = shipment.shipment_estimated_arrival_at;
          shipper_organization_id = shipment.shipper_organization_id;
          carrier_organization_id = shipment.carrier_organization_id;
          carrier_user_id = shipment.carrier_user_id;
        })
        ∷ s.published;
    audited =
        record {
          action = audit_delete;
          resource_id = id;
          user_id = user.sub;
          old_value = snapshot (audit_payload shipment);
          new_value = no_value;
        }
        ∷ s.audited;
  }

  unfoldable pub remove : Ambient → RequestUser → ℕ → Result (State db)
  unfolding enforce_edit_access delete_shipment
  remove env user id = do
    shipment ← or_throw (db.shipments_table.find s.shipments id) not_found
    enforce_edit_access db s user shipment
    throw_if (not (same_status shipment.shipment_status draft)) bad_request
    throw_if (ltb 0 (db.events_table.count s.events (is_event_of id))) foreign_key
    ok (delete_shipment env user id shipment)
