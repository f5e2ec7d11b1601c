-- ===== src/Admin/Shipments.antt =====
-- updateShipmentStatus of admin.service.ts: any status, whatever the shipment has. An argument of
-- the type is one of `validStatuses`.
use egypt_supply_chain_visib.Base.{ℕ, String, none, some, Result, ok, not_found, or_throw, ◌>>=◌}
use Prim.Native.String.{◌++◌ as append}
use egypt_supply_chain_visib.Domain.{
  ShipmentEvent, ShipmentStatus, status_change, draft, confirmed, picked_up, in_transit,
  at_checkpoint, customs_hold, customs_cleared, out_for_delivery, delivered, cancelled, delayed,
}
use egypt_supply_chain_visib.Store.Database.{Database, Ambient}
use egypt_supply_chain_visib.Admin.{update_shipment_status_action, Console, log_admin_action}

-- `validStatuses`, each as its constructor spells it.
abbrev pub status_name : ShipmentStatus → String
status_name draft = "draft"
status_name confirmed = "confirmed"
status_name picked_up = "picked_up"
status_name in_transit = "in_transit"
status_name at_checkpoint = "at_checkpoint"
status_name customs_hold = "customs_hold"
status_name customs_cleared = "customs_cleared"
status_name out_for_delivery = "out_for_delivery"
status_name delivered = "delivered"
status_name cancelled = "cancelled"
status_name delayed = "delayed"

-- The event, without its metadata.
unfoldable pub admin_event : Ambient → ℕ → ℕ → ShipmentStatus → ShipmentEvent
admin_event env admin_id id status = record {
  event_shipment_id = id;
  event_type = status_change;
  event_status = status;
  event_description = some (append "Admin manually updated status to " (status_name status));
  event_latitude = none;
  event_longitude = none;
  event_checkpoint_id = none;
  recorded_by_user_id = some admin_id;
  event_occurred_at = env.now;
}

module _ (db : Database) (c : Console db) (admin_id : ℕ) where
  unfoldable pub update_shipment_status : Ambient → ℕ → ShipmentStatus → Result (Console db)
  unfolding admin_event
  update_shipment_status env id status = do
    shipment ← or_throw (db.shipments_table.find c.state.shipments id) not_found
    ok (
        log_admin_action db c admin_id update_shipment_status_action (some id) (record c.state {
          shipments =
              db.shipments_table.save c.state.shipments id
                (record shipment { shipment_status = status });
          events =
              db.events_table.save c.state.events env.new_event_id
                (admin_event env admin_id id status);
        }))
