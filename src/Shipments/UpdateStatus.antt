-- ===== src/Shipments/UpdateStatus.antt =====
-- `updateStatus` of shipments.service.ts, with UpdateShipmentStatusDto. Every exception comes
-- before the transaction, or is the transaction's own and leaves nothing written.
pub mod Effects
pub mod Alarms
use egypt_supply_chain_visib.Base.{
  ℕ, ◌==◌, ◌is◌, Bool, not, ◌&&◌, ◌||◌, Option, none, some, is_some, String, List, [], ◌∷◌, ◌++◌,
  if◌then◌else◌, Result, ok, forbidden, not_found, bad_request, foreign_key, throw_if, or_throw,
  ◌>>=◌, ◌>>◌,
}
use egypt_supply_chain_visib.Domain.{
  RequestUser, User, Shipment, ShipmentEvent, ShipmentStatus, Checkpoint, ℤ, delivered, in_transit,
  customs_hold, cancelled, same_status, status_change, is_admin, is_carrier, is_super_admin,
}
use egypt_supply_chain_visib.Store.Messages.{
  Publication, ShipmentAlertData, shipment_event, key_status_changed, audit_status_update, position,
  alert_event, alert_delayed, alert_delivered, alert_exception,
}
use egypt_supply_chain_visib.Store.Database.{Database, State, Ambient}
use egypt_supply_chain_visib.Alerts.Delay.{compute_effective_eta, is_past_delay_grace}
use egypt_supply_chain_visib.Shipments.Status.{is_valid_transition}
use egypt_supply_chain_visib.Shipments.Access.{find_user}
use egypt_supply_chain_visib.Shipments.Update.{Patch, given, patch}

pub record UpdateShipmentStatusDto : Type 0 where
  pub status : ShipmentStatus
  pub latitude : Patch ℤ
  pub longitude : Patch ℤ
  pub checkpoint_id : Patch ℕ
  pub description : Option String
  pub occurred_at : Option ℕ

-- `canManage`, with `isAssignedCarrier` for a driver: who may touch the status.
unfoldable pub may_update_status : RequestUser → User → Shipment → Bool
may_update_status user db_user shipment =
    if is_carrier user.role
    then shipment.carrier_user_id is db_user.user_id
    else (is_super_admin user.role
        || (shipment.shipper_organization_id == db_user.organization_id
            || (shipment.carrier_organization_id is db_user.organization_id
                || shipment.carrier_user_id is db_user.user_id)))

-- `shipment.shipment_status === dto.status || this.isValidTransition(…)`
unfoldable pub valid_transition : ShipmentStatus → ShipmentStatus → Bool
unfolding is_valid_transition
valid_transition current next = same_status current next || is_valid_transition current next

-- Who may restore a cancelled shipment, `dbUserForRestore` being the same row as `dbUser`.
unfoldable pub may_restore : RequestUser → User → Shipment → Bool
may_restore user db_user shipment =
    is_super_admin user.role
    || (is_admin db_user.user_role && db_user.organization_id == shipment.shipper_organization_id)

-- `checkpointPosition?.latitude ?? …`, and the same for the longitude.
abbrev pub or_else : Option ℤ → Option ℤ → Option ℤ
or_else none b = b
or_else (some a) b = some a

abbrev pub latitude_of : Option Checkpoint → Option ℤ
latitude_of none = none
latitude_of (some c) = some c.checkpoint_latitude

abbrev pub longitude_of : Option Checkpoint → Option ℤ
longitude_of none = none
longitude_of (some c) = some c.checkpoint_longitude

-- The `data` of the write, at the position of the checkpoint if there is one.
unfoldable pub next_shipment : ℕ → Option Checkpoint → UpdateShipmentStatusDto → Shipment → Shipment
next_shipment now checkpoint dto shipment = record shipment {
  shipment_status = dto.status;
  shipment_actual_departure_at =
      if same_status dto.status in_transit && not (is_some shipment.shipment_actual_departure_at)
      then some now
      else shipment.shipment_actual_departure_at;
  shipment_actual_arrival_at =
      if same_status dto.status delivered then some now else shipment.shipment_actual_arrival_at;
  shipment_current_checkpoint_id = patch dto.checkpoint_id shipment.shipment_current_checkpoint_id;
  shipment_current_latitude =
      or_else (latitude_of checkpoint) (patch dto.latitude shipment.shipment_current_latitude);
  shipment_current_longitude =
      or_else (longitude_of checkpoint) (patch dto.longitude shipment.shipment_current_longitude);
}

abbrev event_time : Option ℕ → ℕ → ℕ
event_time none now = now
event_time (some occurred_at) now = occurred_at

-- The event of the same transaction.
unfoldable pub status_event :
    Ambient → RequestUser → ℕ → Option Checkpoint → UpdateShipmentStatusDto → ShipmentEvent
status_event env user id checkpoint dto = record {
  event_shipment_id = id;
  event_type = status_change;
  event_status = dto.status;
  event_description = dto.description;
  event_latitude = or_else (latitude_of checkpoint) (given dto.latitude);
  event_longitude = or_else (longitude_of checkpoint) (given dto.longitude);
  event_checkpoint_id = given dto.checkpoint_id;
  recorded_by_user_id = some user.sub;
  event_occurred_at = event_time dto.occurred_at env.now;
}

-- `route?.route_estimated_days` of the updated shipment.
unfoldable pub estimated_days : (db : Database) → State db → Shipment → Option ℕ
estimated_days db s shipment = elim shipment.route_id [
  | none ↦ none
  | some id ↦ elim (db.routes_table.find s.routes id) [
    | none ↦ none
    | some route ↦ route.route_estimated_days
  ]
]

-- The alerts that a status gives rise to, `maybePublishDelay` included.
unfoldable pub status_alerts :
    ℕ → Option ℕ → Shipment → ShipmentAlertData → ShipmentAlertData → List Publication
unfolding compute_effective_eta is_past_delay_grace
status_alerts now days updated delay_data event_data =
    if same_status updated.shipment_status in_transit
    then (if is_past_delay_grace (compute_effective_eta updated days) now
        then alert_event alert_delayed delay_data ∷ []
        else [])
    else if same_status updated.shipment_status delivered
    then alert_event alert_delivered event_data ∷ []
    else if same_status updated.shipment_status customs_hold
    then alert_event alert_exception event_data ∷ []
    else []

module _ (db : Database) (s : State db) where
  -- The guards.
  unfoldable pub check_update_status :
      RequestUser → Shipment → UpdateShipmentStatusDto → Result (Unit {0})
  unfolding find_user may_update_status valid_transition may_restore
  check_update_status user shipment dto = do
    db_user ← or_throw (find_user db s user.sub) not_found
    throw_if (not (may_update_status user db_user shipment)) forbidden
    throw_if (not (valid_transition shipment.shipment_status dto.status)) bad_request
    throw_if
        (same_status shipment.shipment_status cancelled && not (may_restore user db_user shipment))
        forbidden

  -- The row of `dto.checkpointId`; without one the write breaks the column's foreign key.
  unfoldable pub find_checkpoint : Patch ℕ → Result (Option Checkpoint)
  find_checkpoint Patch.undefined = ok none
  find_checkpoint Patch.null = ok none
  find_checkpoint (Patch.value id) = do
    checkpoint ← or_throw (db.checkpoints_table.find s.checkpoints id) foreign_key
    ok (some checkpoint)

  -- `ShipmentAlertData` at the given time.
  unfoldable pub alert_data : ShipmentStatus → Shipment → Option ℕ → ℕ → ShipmentAlertData
  alert_data status shipment event_id occurred_at = record {
    shipment_id = shipment.shipment_id;
    reference_number = shipment.shipment_reference_number;
    shipment_status = status;
    shipper_organization_id = shipment.shipper_organization_id;
    carrier_organization_id = shipment.carrier_organization_id;
    carrier_user_id = shipment.carrier_user_id;
    event_id = event_id;
    occurred_at = occurred_at;
  }

  unfoldable pub save_status :
      Ambient
      → RequestUser
      → ℕ
      → UpdateShipmentStatusDto
      → Shipment
      → Shipment
      → ShipmentEvent
      → State db
  unfolding status_alerts estimated_days alert_data
  save_status env user id dto shipment updated event = record s {
    shipments = db.shipments_table.save s.shipments id updated;
    events = db.events_table.save s.events env.new_event_id event;
    published =
        status_alerts env.now (estimated_days db s updated) updated
          (alert_data updated.shipment_status updated none env.now)
          (alert_data dto.status shipment (some env.new_event_id) event.event_occurred_at)
        ++ shipment_event key_status_changed (record {
          shipment_id = updated.shipment_id;
          reference_number = shipment.shipment_reference_number;
          old_status = some shipment.shipment_status;
          new_status = some dto.status;
          status = updated.shipment_status;
          route_id = none;
          event_id = some env.new_event_id;
          occurred_at = event.event_occurred_at;
          latitude = event.event_latitude;
          longitude = event.event_longitude;
          estimated_arrival_at = updated.shipment_estimated_arrival_at;
          shipper_organization_id = shipment.shipper_organization_id;
          carrier_organization_id = shipment.carrier_organization_id;
          carrier_user_id = shipment.carrier_user_id;
        })
          ∷ s.published;
    audited =
        record {
          action = audit_status_update;
          resource_id = id;
          user_id = user.sub;
          old_value =
              position shipment.shipment_status shipment.shipment_current_latitude
                shipment.shipment_current_longitude shipment.shipment_current_checkpoint_id;
          new_value =
              position updated.shipment_status updated.shipment_current_latitude
                updated.shipment_current_longitude updated.shipment_current_checkpoint_id;
        }
        ∷ s.audited;
  }

  unfoldable pub update_status :
      Ambient → RequestUser → ℕ → UpdateShipmentStatusDto → Result (State db × Shipment)
  unfolding check_update_status find_checkpoint next_shipment status_event save_status
  update_status env user id dto = do
    shipment ← or_throw (db.shipments_table.find s.shipments id) not_found
    check_update_status user shipment dto
    checkpoint ← find_checkpoint dto.checkpoint_id
    let updated = next_shipment env.now checkpoint dto shipment
    let event = status_event env user id checkpoint dto
    ok (save_status env user id dto shipment updated event, updated)
