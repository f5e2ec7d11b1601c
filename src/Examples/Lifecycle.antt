-- ===== src/Examples/Lifecycle.antt =====
-- The theorems on shipments, each applied at a point of the life of Setup.
use egypt_supply_chain_visib.Base.{ℕ, ◌≡◌, ◌≢◌, inl, refl, true, none, some, ok, arith}
use egypt_supply_chain_visib.Domain.{
  User, Shipment, confirmed, picked_up, in_transit, cancelled, delivered,
}
use egypt_supply_chain_visib.Store.Database.{State, in_memory}
use egypt_supply_chain_visib.Alerts.Delay.{compute_effective_eta, is_past_delay_grace}
use egypt_supply_chain_visib.Alerts.Delay.Lateness.{is_past_delay_grace_iff}
use egypt_supply_chain_visib.Shipments.Status.Graph.{Leads, Leads-delivered}
use egypt_supply_chain_visib.Shipments.Create.{create}
use egypt_supply_chain_visib.Shipments.Update.{update}
use egypt_supply_chain_visib.Shipments.Update.Dates.{
  InOrder, update-InOrder, without_arrival, update_null_arrival,
}
use egypt_supply_chain_visib.Shipments.UpdateStatus.{update_status}
use egypt_supply_chain_visib.Shipments.UpdateStatus.Effects.{
  IsPermitted, update_status-IsPermitted, restore_second_active,
}
use egypt_supply_chain_visib.Shipments.UpdateStatus.Alarms.{Alarms}
use egypt_supply_chain_visib.Shipments.Accept.{accept, drives}
use egypt_supply_chain_visib.Shipments.Accept.Exclusive.{IsSoleDriver, accept-IsSoleDriver}
use egypt_supply_chain_visib.Shipments.Remove.{remove}
use egypt_supply_chain_visib.Shipments.Access.{find_user}
use egypt_supply_chain_visib.Shipments.Runs.{At}
use egypt_supply_chain_visib.Shipments.Timeline.{IsSound}
use egypt_supply_chain_visib.Shipments.History.{
  Reach, start, next, creates, accepts, updates_status, Reach-IsSound,
}
use egypt_supply_chain_visib.Shipments.History.Statuses.{Progress, Reach-Progress}
use egypt_supply_chain_visib.Examples.Setup.{
  shipper_admin, driver, platform_admin, at_start, call, cargo, to_status, drafted, accepted,
  loaded, moving, cleared, drafted_ok, accepted_ok, loaded_ok, moving_ok, new_dates, rescheduled,
  rescheduled_ok, given_up, taken_since, stranded, restored, restored_ok,
}

at_start-IsSound : IsSound in_memory at_start
at_start-IsSound = record {
  timed = λ id shipment at. absurd (no_shipment id shipment at);
  recorded = λ id shipment at. absurd (no_shipment id shipment at);
}
  where
    no_shipment : (id : ℕ) (shipment : Shipment) → At in_memory at_start id shipment → ⊥
    no_shipment id shipment at = ground arith

to_moving : Reach in_memory drafted.0 moving.0
unfolding create accept update_status
to_moving =
    next
      (next
        (next start (
          accepts (call 2) driver 1 accepted.1 (record { new_event = refl; new_shipment = refl })
            accepted_ok))
        (updates_status (call 3) driver 1 (to_status picked_up) loaded.1
          (record { new_event = refl; new_shipment = refl }) loaded_ok))
      (updates_status (call 4) driver 1 (to_status in_transit) moving.1
        (record { new_event = refl; new_shipment = refl }) moving_ok)

to_drafted : Reach in_memory at_start drafted.0
to_drafted = next start (
    creates (call 1) shipper_admin cargo drafted.1
      (record { new_event = refl; new_shipment = refl }) drafted_ok)

drafted-IsSound : IsSound in_memory drafted.0
drafted-IsSound = (Reach-IsSound in_memory at_start-IsSound to_drafted).0

Leads-delivered_example : Leads cancelled delivered
Leads-delivered_example = (Leads-delivered cancelled).0

Reach-IsSound_example : remove in_memory drafted.0 (call 2) shipper_admin 1 ≢ ok at_start
Reach-IsSound_example =
    (Reach-IsSound in_memory at_start-IsSound to_drafted).1 (call 2) shipper_admin 1 at_start

Reach-Progress_example : Progress in_memory moving.0 1 drafted.1
Reach-Progress_example =
    Reach-Progress in_memory drafted-IsSound to_moving 1 drafted.1 (unfold create in refl)

update_status-IsPermitted_example :
    (old : Shipment) × (db_user : User) × At in_memory loaded.0 1 old
    × (find_user in_memory loaded.0 2 ≡ some db_user)
    × IsPermitted driver db_user old
update_status-IsPermitted_example =
    update_status-IsPermitted in_memory loaded.0 moving.0 (call 4) driver 1 (to_status in_transit)
      moving.1 moving_ok

accept-IsSoleDriver_example : IsSoleDriver in_memory accepted.0 2 1 accepted.1
accept-IsSoleDriver_example =
    accept-IsSoleDriver in_memory drafted.0 accepted.0 (call 2) driver 1 accepted.1 accepted_ok

update_null_arrival_example :
    (after : State in_memory) × (undated : Shipment) × (update in_memory drafted.0 shipper_admin 1
        (without_arrival new_dates)
      ≡ ok (after, undated))
    × (undated.shipment_estimated_departure_at ≡ some 150)
    × (undated.shipment_estimated_arrival_at ≡ some 0)
    × ¬ InOrder undated.shipment_estimated_departure_at undated.shipment_estimated_arrival_at
update_null_arrival_example =
    update_null_arrival in_memory drafted.0 rescheduled.0 shipper_admin 1 new_dates rescheduled.1
      150 refl rescheduled_ok

is_past_delay_grace_iff_example :
    is_past_delay_grace (compute_effective_eta cleared.1 none) 21600001 ≡ true
unfolding create update
is_past_delay_grace_iff_example =
    (is_past_delay_grace_iff cleared.1 none 21600001).0.1 (0, inl refl, omega arith)

update-InOrder_example :
    InOrder rescheduled.1.shipment_estimated_departure_at
      rescheduled.1.shipment_estimated_arrival_at
update-InOrder_example =
    update-InOrder in_memory drafted.0 rescheduled.0 shipper_admin 1 new_dates rescheduled.1
      (λ e. cc, λ e. cc) rescheduled_ok

restore_second_active_example :
    At in_memory restored.0 1 restored.1
    × (drives 2 restored.1 ≡ true)
    × At in_memory restored.0 2 taken_since
restore_second_active_example =
    restore_second_active in_memory stranded restored.0 (call 5) platform_admin 1 2 2
      (to_status confirmed) given_up restored.1 taken_since refl refl refl (λ e. cc)
      (λ e. absurd (omega arith)) refl refl restored_ok
