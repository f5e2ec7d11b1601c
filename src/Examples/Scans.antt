-- ===== src/Examples/Scans.antt =====
-- The theorem on the nightly scan, at a shipment that is a second late.
use egypt_supply_chain_visib.Base.{ℕ, ◌+◌, ◌≡◌, arith, refl, some, [], ◌∷◌}
use egypt_supply_chain_visib.Domain.{Shipment, in_transit}
use egypt_supply_chain_visib.Store.Slots.{save_slot}
use egypt_supply_chain_visib.Store.Database.{State, in_memory}
use egypt_supply_chain_visib.Alerts.Delay.{
  delay_grace_ms, compute_effective_eta, is_past_delay_grace,
}
use egypt_supply_chain_visib.Alerts.Inbox.{Inbox, recipients_of, create_alert}
use egypt_supply_chain_visib.Alerts.Inbox.Open.{IsSingle}
use egypt_supply_chain_visib.Alerts.Scanner.{
  scan_for_delayed_shipments, handle_delays, is_late, has_open_alert, flag_late,
}
use egypt_supply_chain_visib.Alerts.Scanner.Flagged.{HasOpen, scan-HasOpen}
use egypt_supply_chain_visib.Examples.Setup.{at_start, no_rows, blank}
use egypt_supply_chain_visib.Examples.Notices.{alerts_table, no_alert, staff, no_alert-IsSingle}

abbrev late_one : Shipment
late_one = record blank {
  shipment_id = 1;
  shipment_status = in_transit;
  shipment_estimated_arrival_at = some 100;
}

abbrev under_way : State in_memory
under_way = record at_start { shipments = save_slot (no_rows Shipment) 1 late_one }

abbrev midnight : ℕ
midnight = 1100 + delay_grace_ms

abbrev scanned : Inbox alerts_table
scanned =
    handle_delays in_memory under_way alerts_table staff no_alert 7
      (scan_for_delayed_shipments in_memory under_way alerts_table midnight no_alert)

scan-HasOpen_example :
    HasOpen in_memory under_way staff alerts_table scanned 1 × IsSingle alerts_table scanned
unfolding is_late compute_effective_eta is_past_delay_grace recipients_of
scan-HasOpen_example =
    scan-HasOpen in_memory under_way staff alerts_table no_alert midnight 7 1 late_one
      (λ k above. ground arith) no_alert-IsSingle refl refl refl refl refl

-- One alert, for the admin of the shipper.
scanned_once : scanned.created ≡ (1 ∷ [], 7) ∷ []
unfolding handle_delays scan_for_delayed_shipments flag_late is_late has_open_alert
    compute_effective_eta is_past_delay_grace create_alert recipients_of
scanned_once = refl
