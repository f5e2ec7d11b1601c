-- ===== src/Shipments/UpdateStatus/Alarms.antt =====
-- Which alerts a change of status publishes.
use egypt_supply_chain_visib.Base.{
  ℕ, ◌≡◌, ◌↔◌, true, false, Bool, Option, some, List, ◌∷◌, ◌++◌, any,
}
use egypt_supply_chain_visib.Domain.{Shipment, in_transit, delivered, customs_hold}
use egypt_supply_chain_visib.Store.Messages.{
  Publication, ShipmentEventPayload, AlertEventType, alert_delayed, alert_delivered,
  alert_exception, alert_event, shipment_event, key_status_changed,
}
use egypt_supply_chain_visib.Store.Database.{Database}
use egypt_supply_chain_visib.Alerts.Delay.Lateness.{IsLate}

abbrev pub is_alert : AlertEventType → Publication → Bool
is_alert alert_delayed (alert_event alert_delayed _) = true
is_alert alert_delivered (alert_event alert_delivered _) = true
is_alert alert_exception (alert_event alert_exception _) = true
is_alert _ _ = false

-- The messages of one call, newest first: the alerts, and before them the change itself.
pub record Alarms (before after : List Publication) (row : Shipment) (days : Option ℕ) (now : ℕ)
    : Type 0 where
  pub alerts : List Publication
  pub payload : ShipmentEventPayload
  pub appended : after ≡ alerts ++ (shipment_event key_status_changed payload ∷ before)
  pub announced : payload.new_status ≡ some row.shipment_status
  pub on_delivery :
      (any (is_alert alert_delivered) alerts ≡ true) ↔ (row.shipment_status ≡ delivered)
  pub on_hold :
      (any (is_alert alert_exception) alerts ≡ true) ↔ (row.shipment_status ≡ customs_hold)
  pub on_delay :
      (any (is_alert alert_delayed) alerts ≡ true)
      ↔ ((row.shipment_status ≡ in_transit) × IsLate row days now)
