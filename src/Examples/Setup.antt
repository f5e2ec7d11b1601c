-- ===== src/Examples/Setup.antt =====
-- The database in memory with a shipper's admin, a driver, their organizations, a route and a
-- checkpoint; the requests of a first shipment; and the states that they lead to.
use egypt_supply_chain_visib.Base.{ℕ, String, ◌≡◌, refl, true, none, some, [], Result, ok, err}
use egypt_supply_chain_visib.Domain.{
  RequestUser, User, Organization, OrganizationType, Route, Checkpoint, Shipment, ShipmentStatus,
  admin, carrier, super_admin, shipper_type, carrier_type, draft, confirmed, picked_up, in_transit,
  cancelled,
}
use egypt_supply_chain_visib.Store.Slots.{Slots, save_slot}
use egypt_supply_chain_visib.Store.Database.{State, Ambient, in_memory}
use egypt_supply_chain_visib.Shipments.Create.{CreateShipmentDto, create}
use egypt_supply_chain_visib.Shipments.Update.{undefined, null, value, UpdateShipmentDto, update}
use egypt_supply_chain_visib.Shipments.UpdateStatus.{UpdateShipmentStatusDto, update_status}
use egypt_supply_chain_visib.Shipments.Accept.{accept}

abbrev pub no_rows : (R : Type 0) → Slots R
no_rows R = (0, λ k. none)

abbrev pub shipper_admin : RequestUser
shipper_admin = record { sub = 1; role = admin }

abbrev pub driver : RequestUser
driver = record { sub = 2; role = carrier }

abbrev pub platform_admin : RequestUser
platform_admin = record { sub = 3; role = super_admin }

abbrev pub shipper_row : User
shipper_row = record {
  user_id = 1;
  organization_id = 10;
  user_email = "admin@cairo.example";
  user_password_hash = "secret";
  user_first_name = "Mona";
  user_last_name = "Said";
  user_phone = none;
  user_role = admin;
  user_token_version = 0;
  user_is_active = true;
}

abbrev pub driver_row : User
driver_row = record {
  user_id = 2;
  organization_id = 20;
  user_email = "driver@nile.example";
  user_password_hash = "secret";
  user_first_name = "Mona";
  user_last_name = "Said";
  user_phone = none;
  user_role = carrier;
  user_token_version = 0;
  user_is_active = true;
}

abbrev pub platform_row : User
platform_row = record {
  user_id = 3;
  organization_id = 30;
  user_email = "root@escv.example";
  user_password_hash = "secret";
  user_first_name = "Mona";
  user_last_name = "Said";
  user_phone = none;
  user_role = super_admin;
  user_token_version = 0;
  user_is_active = true;
}

abbrev pub cairo_alexandria : Route
cairo_alexandria = record {
  route_id = 5;
  route_name = "Cairo to Alexandria";
  route_code = "CAI-ALX";
  route_origin_city = "Cairo";
  route_destination_city = "Alexandria";
  route_estimated_days = some 2;
  route_is_active = true;
}

abbrev pub company : ℕ → String → String → OrganizationType → Organization
company id name email type = record {
  organization_id = id;
  organization_name = name;
  organization_email = email;
  organization_type = type;
  organization_is_active = true;
}

abbrev pub at_start : State in_memory
at_start = record {
  users =
      save_slot (save_slot (save_slot (no_rows User) 1 shipper_row) 2 driver_row) 3 platform_row;
  organizations =
      save_slot
        (save_slot (no_rows Organization) 10
          (company 10 "Cairo Goods" "office@cairo.example" shipper_type))
        20 (company 20 "Nile Freight" "office@nile.example" carrier_type);
  routes = save_slot (no_rows Route) 5 cairo_alexandria;
  checkpoints = no_rows Checkpoint;
  shipments = no_rows Shipment;
  events = (0, λ k. none);
  published = [];
  audited = [];
}

-- The call number `n`, made `n` seconds after the start.
abbrev pub call : ℕ → Ambient
call n = record { now = n; new_shipment_id = n; new_event_id = n; new_reference = "SHP-1" }

abbrev pub cargo : CreateShipmentDto
cargo = record {
  description = none;
  cargo_type = some "Electronics";
  weight_kg = some 150050;
  volume_m3 = none;
  origin_address = "123 Main St";
  destination_address = "456 Nile St";
  origin_city = "Cairo";
  destination_city = "Alexandria";
  estimated_departure_at = some 100;
  estimated_arrival_at = some 200;
  carrier_organization_id = none;
  route_id = some 5;
  notes = none;
}

abbrev pub to_status : ShipmentStatus → UpdateShipmentStatusDto
to_status status = record {
  status = status;
  latitude = undefined;
  longitude = undefined;
  checkpoint_id = undefined;
  description = none;
  occurred_at = none;
}

-- An update that clears the arrival.
abbrev pub clear_arrival : UpdateShipmentDto
clear_arrival = record {
  description = undefined;
  cargo_type = undefined;
  weight_kg = undefined;
  volume_m3 = undefined;
  origin_address = undefined;
  destination_address = undefined;
  origin_city = undefined;
  destination_city = undefined;
  estimated_departure_at = value 150;
  estimated_arrival_at = null;
  carrier_organization_id = undefined;
  route_id = undefined;
  notes = undefined;
}

abbrev pub blank : Shipment
blank = record {
  shipment_id = 0;
  shipper_organization_id = 10;
  carrier_organization_id = none;
  carrier_user_id = none;
  route_id = none;
  created_by_user_id = none;
  shipment_reference_number = "SHP-0";
  shipment_status = draft;
  shipment_description = none;
  shipment_cargo_type = none;
  shipment_weight_kg = none;
  shipment_volume_m3 = none;
  shipment_origin_address = "";
  shipment_destination_address = "";
  shipment_origin_city = "";
  shipment_destination_city = "";
  shipment_estimated_departure_at = none;
  shipment_estimated_arrival_at = none;
  shipment_actual_departure_at = none;
  shipment_actual_arrival_at = none;
  shipment_current_checkpoint_id = none;
  shipment_current_latitude = none;
  shipment_current_longitude = none;
  shipment_notes = none;
  shipment_created_at = 0;
}

-- What a call returned, if it succeeded.
abbrev pub returned : Result (State in_memory × Shipment) → State in_memory × Shipment
returned (ok r) = r
returned (err e) = (at_start, blank)

-- Created by the admin, accepted by the driver, picked up, and on its way.
abbrev pub drafted : State in_memory × Shipment
drafted = returned (create in_memory at_start (call 1) shipper_admin cargo)

abbrev pub accepted : State in_memory × Shipment
accepted = returned (accept in_memory drafted.0 (call 2) driver 1)

abbrev pub loaded : State in_memory × Shipment
loaded = returned (update_status in_memory accepted.0 (call 3) driver 1 (to_status picked_up))

abbrev pub moving : State in_memory × Shipment
moving = returned (update_status in_memory loaded.0 (call 4) driver 1 (to_status in_transit))

abbrev pub cleared : State in_memory × Shipment
cleared = returned (update in_memory drafted.0 shipper_admin 1 clear_arrival)

pub drafted_ok : create in_memory at_start (call 1) shipper_admin cargo ≡ ok (drafted.0, drafted.1)
unfolding create
drafted_ok = refl

pub accepted_ok : accept in_memory drafted.0 (call 2) driver 1 ≡ ok (accepted.0, accepted.1)
unfolding create accept
accepted_ok = refl

pub loaded_ok :
    update_status in_memory accepted.0 (call 3) driver 1 (to_status picked_up)
    ≡ ok (loaded.0, loaded.1)
unfolding create accept update_status
loaded_ok = refl

pub moving_ok :
    update_status in_memory loaded.0 (call 4) driver 1 (to_status in_transit)
    ≡ ok (moving.0, moving.1)
unfolding create accept update_status
moving_ok = refl

pub cleared_ok :
    update in_memory drafted.0 shipper_admin 1 clear_arrival ≡ ok (cleared.0, cleared.1)
unfolding create update
cleared_ok = refl

-- A life by evaluation: the status, the driver and the departure at its end.
moving_row :
    (moving.1.shipment_status ≡ in_transit)
    × (moving.1.carrier_user_id ≡ some 2)
    × (moving.1.shipment_actual_departure_at ≡ some 4)
unfolding create accept update_status
moving_row = (refl, refl, refl)

-- Both dates moved.
abbrev pub new_dates : UpdateShipmentDto
new_dates = record clear_arrival { estimated_arrival_at = value 300 }

abbrev pub rescheduled : State in_memory × Shipment
rescheduled = returned (update in_memory drafted.0 shipper_admin 1 new_dates)

pub rescheduled_ok :
    update in_memory drafted.0 shipper_admin 1 new_dates ≡ ok (rescheduled.0, rescheduled.1)
unfolding create update
rescheduled_ok = refl

-- A cancelled shipment of the driver, who has taken another since.
abbrev pub given_up : Shipment
given_up = record blank {
  shipment_id = 1;
  carrier_organization_id = some 20;
  carrier_user_id = some 2;
  shipment_status = cancelled;
}

abbrev pub taken_since : Shipment
taken_since = record given_up { shipment_id = 2; shipment_status = confirmed }

abbrev pub stranded : State in_memory
stranded = record at_start {
  shipments = save_slot (save_slot (no_rows Shipment) 1 given_up) 2 taken_since;
}

abbrev pub restored : State in_memory × Shipment
restored =
    returned (update_status in_memory stranded (call 5) platform_admin 1 (to_status confirmed))

pub restored_ok :
    update_status in_memory stranded (call 5) platform_admin 1 (to_status confirmed)
    ≡ ok (restored.0, restored.1)
unfolding update_status
restored_ok = refl
