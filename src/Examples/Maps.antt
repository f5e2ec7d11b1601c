-- ===== src/Examples/Maps.antt =====
-- The theorems on routes and checkpoints, each applied to the route of the company in memory.
use egypt_supply_chain_visib.Base.{
  ℕ, ◌≡◌, ◌⊎◌, refl, true, false, some, [], ok, err, conflict, arith, Result,
}
use egypt_supply_chain_visib.Domain.{Shipment, pos, confirmed}
use egypt_supply_chain_visib.Store.Indexed.{indexed}
use egypt_supply_chain_visib.Store.Slots.{save_slot}
use egypt_supply_chain_visib.Store.Database.{in_memory}
use egypt_supply_chain_visib.Network.{
  RouteCheckpoint, route_remove, route_deactivate, Atlas, Network,
}
use egypt_supply_chain_visib.Network.Routes.{
  occupies, set_route_active, remove_route, deactivate_route,
}
use egypt_supply_chain_visib.Network.Checkpoints.{CreateCheckpointDto, create_checkpoint}
use egypt_supply_chain_visib.Network.Stops.{add_checkpoint}
use egypt_supply_chain_visib.Network.Chart.{IsCharted}
use egypt_supply_chain_visib.Network.Chart.Calls.{
  creates_checkpoint, adds_checkpoint, removes_route, Edits, unedited, then_edit, Edits-IsCharted,
}
use egypt_supply_chain_visib.Network.Closing.{deactivate-remove_route}
use egypt_supply_chain_visib.Examples.Setup.{at_start, no_rows, cairo_alexandria, blank}

abbrev atlas : Atlas
atlas = record { db = in_memory; stops_table = indexed RouteCheckpoint }

-- A confirmed shipment is on the only route.
abbrev mapped : Network atlas
mapped = record {
  state = record at_start {
    shipments =
        save_slot (no_rows Shipment) 1
          (record blank { shipment_id = 1; shipment_status = confirmed; route_id = some 5 });
  };
  stops = no_rows RouteCheckpoint;
  audited = [];
}

abbrev gate : CreateCheckpointDto
gate = record {
  name = "Gate 3";
  code = "ALX-G3";
  type = "port";
  city = "Alexandria";
  latitude = pos 312001;
  longitude = pos 299187;
}

abbrev result_of : {A : Type 0} → Result (Network atlas × A) → Network atlas
result_of (ok r) = r.0
result_of (err e) = mapped

abbrev with_gate : Network atlas
with_gate = result_of (create_checkpoint atlas mapped 7 gate)

abbrev with_stop : Network atlas
with_stop =
    result_of
      (add_checkpoint atlas with_gate 8 5 (record { checkpoint_id = 7; sequence_order = 1 }))

abbrev closed : Network atlas
closed = (set_route_active atlas with_stop route_remove false 5 cairo_alexandria).0

mapped-IsCharted : IsCharted atlas mapped
mapped-IsCharted = record {
  routes_once = λ i j a b here there same. ground arith;
  checkpoints_once = λ i j a b here there same. ground arith;
  positions_once = λ i j a b here there same. ground arith;
  passages_once = λ i j a b here there same. ground arith;
  placed = λ id stop found. ground arith;
}

to_closed : Edits atlas mapped closed
unfolding create_checkpoint add_checkpoint remove_route
to_closed =
    then_edit
      (then_edit (then_edit unedited (creates_checkpoint 7 gate refl))
        (adds_checkpoint 8 5 (record { checkpoint_id = 7; sequence_order = 1 }) refl))
      (removes_route 5 refl)

Edits-IsCharted_example : IsCharted atlas closed
Edits-IsCharted_example = Edits-IsCharted atlas mapped-IsCharted to_closed

deactivate-remove_route_example :
    ((deactivate_route atlas mapped 5 ≡ err conflict)
      × ((k : ℕ) × (shipment : Shipment) × (in_memory.shipments_table.find mapped.state.shipments k
            ≡ some shipment)
          × (occupies 5 shipment ≡ true))
      × (remove_route atlas mapped 5
          ≡ ok (set_route_active atlas mapped route_remove false 5 cairo_alexandria).0))
    ⊎ ((deactivate_route atlas mapped 5
          ≡ ok (set_route_active atlas mapped route_deactivate false 5 cairo_alexandria))
        × ((k : ℕ) (shipment : Shipment)
            → in_memory.shipments_table.find mapped.state.shipments k ≡ some shipment
            → occupies 5 shipment ≡ false)
        × (remove_route atlas mapped 5
            ≡ ok (set_route_active atlas mapped route_remove false 5 cairo_alexandria).0))
deactivate-remove_route_example = deactivate-remove_route atlas mapped 5 cairo_alexandria refl
