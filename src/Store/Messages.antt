-- ===== src/Store/Messages.antt =====
-- What the services publish on the exchange `escv.events` and hand to the audit service.
use egypt_supply_chain_visib.Base.{ℕ, Option, String}
use egypt_supply_chain_visib.Domain.{ShipmentStatus, ℤ}

-- `ShipmentEventPayload` of websocket.gateway.ts. `status` is the payload's `status` field, or
-- `shipment_status` in the one of `shipment.route_assigned`.
pub record ShipmentEventPayload : Type 0 where
  pub shipment_id : ℕ
  pub reference_number : String
  pub old_status : Option ShipmentStatus
  pub new_status : Option ShipmentStatus
  pub status : ShipmentStatus
  pub route_id : Option ℕ
  pub event_id : Option ℕ
  pub occurred_at : ℕ
  pub latitude : Option ℤ
  pub longitude : Option ℤ
  pub estimated_arrival_at : Option ℕ
  pub shipper_organization_id : ℕ
  pub carrier_organization_id : Option ℕ
  pub carrier_user_id : Option ℕ

pub data ShipmentKey : Type 0 where
  key_created key_status_changed key_accepted key_removed key_route_assigned : ShipmentKey

-- `AlertEventType` and `ShipmentAlertData` of alert-events.helper.ts.
pub data AlertEventType : Type 0 where
  alert_delayed alert_exception alert_delivered : AlertEventType

pub record ShipmentAlertData : Type 0 where
  pub shipment_id : ℕ
  pub reference_number : String
  pub shipment_status : ShipmentStatus
  pub shipper_organization_id : ℕ
  pub carrier_organization_id : Option ℕ
  pub carrier_user_id : Option ℕ
  pub event_id : Option ℕ
  pub occurred_at : ℕ

pub data Publication : Type 0 where
  shipment_event : ShipmentKey → ShipmentEventPayload → Publication
  alert_event : AlertEventType → ShipmentAlertData → Publication

-- The whitelisted snapshot of a shipment, `auditPayload`.
pub record AuditPayload : Type 0 where
  pub status : ShipmentStatus
  pub cargo_type : Option String
  pub weight_kg : Option ℕ
  pub volume_m3 : Option ℕ
  pub origin_city : String
  pub destination_city : String
  pub shipper_organization_id : ℕ
  pub carrier_organization_id : Option ℕ
  pub carrier_user_id : Option ℕ
  pub route_id : Option ℕ
  pub estimated_departure_at : Option ℕ
  pub estimated_arrival_at : Option ℕ

pub data AuditAction : Type 0 where
  audit_create audit_update audit_route_assign audit_status_update audit_accept : AuditAction
  audit_delete : AuditAction

-- The old or new value of an audit row; each action has a shape of its own.
pub data AuditValue : Type 0 where
  no_value : AuditValue
  snapshot : AuditPayload → AuditValue
  creation : String → ShipmentStatus → ℕ → Option ℕ → Option ℕ → String → String → AuditValue
  route_value : Option ℕ → Option String → AuditValue
  position : ShipmentStatus → Option ℤ → Option ℤ → Option ℕ → AuditValue
  driver : Option ℕ → AuditValue
  assignment : Option ℕ → Option ℕ → AuditValue
  claim : Option ℕ → Option ℕ → ShipmentStatus → AuditValue

pub record AuditEntry : Type 0 where
  pub action : AuditAction
  pub resource_id : ℕ
  pub user_id : ℕ
  pub old_value : AuditValue
  pub new_value : AuditValue
