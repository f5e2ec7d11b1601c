-- ===== src/Alerts/Scanner.antt =====
-- scanForDelayedShipments of alerts/eta-scanner.service.ts, and the consumer of what it publishes,
-- handleShipmentEvents of alerts/alerts.consumer.ts. The status pending, which is none of the
-- program's, is left out of the query.
pub mod Flagged
use egypt_supply_chain_visib.Base.{
  ℕ, suc, Bool, true, false, not, ◌&&◌, ◌||◌, is_some, Option, none, some, List, [], ◌∷◌,
  if◌then◌else◌,
}
use egypt_supply_chain_visib.Domain.{
  User, Shipment, Route, draft, delivered, cancelled, same_status,
}
use egypt_supply_chain_visib.Store.{Table}
use egypt_supply_chain_visib.Store.Database.{Database, State}
use egypt_supply_chain_visib.Store.Messages.{ShipmentAlertData, AlertEventType, alert_delayed}
use egypt_supply_chain_visib.Alerts.Delay.{compute_effective_eta, is_past_delay_grace}
use egypt_supply_chain_visib.Alerts.Inbox.{Alert, Inbox, both_sides, is_open_of, create_alert}

-- The `where` of the candidates.
abbrev pub is_candidate : Shipment → Bool
is_candidate shipment =
    not (
      same_status shipment.shipment_status draft
      || same_status shipment.shipment_status delivered
      || same_status shipment.shipment_status cancelled)
    && (is_some shipment.shipment_estimated_arrival_at
        || is_some shipment.shipment_actual_departure_at)

-- `route: { select: { route_estimated_days } }`
abbrev pub days_of : Option Route → Option ℕ
days_of none = none
days_of (some route) = route.route_estimated_days

-- The data of the message `shipment.delayed`.
abbrev pub delay_data : ℕ → Shipment → ShipmentAlertData
delay_data now shipment = record {
  shipment_id = shipment.shipment_id;
  reference_number = shipment.shipment_reference_number;
  shipment_status = shipment.shipment_status;
  shipper_organization_id = shipment.shipper_organization_id;
  carrier_organization_id = shipment.carrier_organization_id;
  carrier_user_id = shipment.carrier_user_id;
  event_id = none;
  occurred_at = now;
}

module _ (db : Database) (s : State db) (t : Table Alert) where
  abbrev pub route_of : Option ℕ → Option Route
  route_of none = none
  route_of (some id) = db.routes_table.find s.routes id

  unfoldable pub is_late : ℕ → Shipment → Bool
  is_late cutoff shipment =
      is_past_delay_grace (compute_effective_eta shipment (days_of (route_of shipment.route_id)))
        cutoff

  -- `openAlert`
  unfoldable pub has_open_alert : Inbox t → ℕ → Bool
  has_open_alert inbox shipment_id =
      is_some (t.first inbox.alerts (is_open_of shipment_id alert_delayed))

  -- The loop over the candidates: what it publishes, in that order. The count that it returns is the
  -- length.
  unfoldable pub flag_late : ℕ → Inbox t → List (ℕ × Shipment) → List ShipmentAlertData
  unfolding is_late has_open_alert
  flag_late now inbox [] = []
  flag_late now inbox ((id, shipment) ∷ candidates) =
      let rest : List ShipmentAlertData = flag_late now inbox candidates in
      if not (is_late now shipment)
      then rest
      else if has_open_alert inbox shipment.shipment_id
      then rest
      else delay_data now shipment ∷ rest

  unfoldable pub scan_for_delayed_shipments : ℕ → Inbox t → List ShipmentAlertData
  unfolding flag_late
  scan_for_delayed_shipments now inbox =
      flag_late now inbox (db.shipments_table.list s.shipments is_candidate)

  -- The consumer, message by message; the alerts take identifiers from a number on.
  unfoldable pub handle_delays : (ℕ → List User) → Inbox t → ℕ → List ShipmentAlertData → Inbox t
  unfolding create_alert
  handle_delays members inbox next [] = inbox
  handle_delays members inbox next (data_of ∷ messages) =
      handle_delays members
        (create_alert db s members t inbox next alert_delayed both_sides data_of.shipment_id)
        (suc next) messages
