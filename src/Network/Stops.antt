-- ===== src/Network/Stops.antt =====
-- addCheckpoint and removeCheckpoint of routes.service.ts.
use egypt_supply_chain_visib.Base.{
  ℕ, ◌==◌, ltb, Bool, false, ◌&&◌, Option, none, some, is_some, ◌is◌, Result, ok, conflict,
  not_found, bad_request, throw_if, or_throw, ◌>>=◌, ◌>>◌,
}
use egypt_supply_chain_visib.Domain.{Shipment, ShipmentEvent}
use egypt_supply_chain_visib.Network.{
  RouteCheckpoint, route_checkpoint_add, route_checkpoint_remove, Atlas, Network, route_at,
  checkpoint_at, logged,
}

pub record AddRouteCheckpointDto : Type 0 where
  pub checkpoint_id : ℕ
  pub sequence_order : ℕ

abbrev pub at_position : ℕ → ℕ → RouteCheckpoint → Bool
at_position route_id order stop = stop.route_id == route_id && stop.sequence_order == order

abbrev pub at_checkpoint : ℕ → ℕ → RouteCheckpoint → Bool
at_checkpoint route_id checkpoint_id stop =
    stop.route_id == route_id && stop.checkpoint_id == checkpoint_id

-- `shipment: { route_id: routeId }`
abbrev pub is_on_route : ℕ → Option Shipment → Bool
is_on_route route_id none = false
is_on_route route_id (some shipment) = shipment.route_id is route_id

module _ (a : Atlas) (n : Network a) where
  abbrev pub new_stop : ℕ → AddRouteCheckpointDto → RouteCheckpoint
  new_stop route_id dto = record {
    route_id = route_id;
    checkpoint_id = dto.checkpoint_id;
    sequence_order = dto.sequence_order;
    checkpoint_is_optional = false;
  }

  abbrev pub save_stop : ℕ → RouteCheckpoint → Network a
  save_stop id stop = record n {
    stops = a.stops_table.save n.stops id stop;
    audited = logged a n route_checkpoint_add stop.route_id;
  }

  abbrev pub drop_stop : ℕ → ℕ → Network a
  drop_stop id route_id = record n {
    stops = a.stops_table.delete n.stops id;
    audited = logged a n route_checkpoint_remove route_id;
  }

  unfoldable pub add_checkpoint :
      ℕ → ℕ → AddRouteCheckpointDto → Result (Network a × RouteCheckpoint)
  add_checkpoint new_id route_id dto = do
    route ← or_throw (route_at a n route_id) not_found
    checkpoint ← or_throw (checkpoint_at a n dto.checkpoint_id) not_found
    throw_if (is_some (a.stops_table.first n.stops (at_position route_id dto.sequence_order)))
        conflict
    throw_if (is_some (a.stops_table.first n.stops (at_checkpoint route_id dto.checkpoint_id)))
        conflict
    ok (save_stop new_id (new_stop route_id dto), new_stop route_id dto)

  -- `where` of the events at a checkpoint of the shipments on a route.
  abbrev pub passed : ℕ → ℕ → ShipmentEvent → Bool
  passed route_id checkpoint_id event =
      event.event_checkpoint_id is checkpoint_id
      && is_on_route route_id (a.db.shipments_table.find n.state.shipments event.event_shipment_id)

  unfoldable pub remove_stop : ℕ → ℕ → Result (Network a)
  remove_stop route_id checkpoint_id = do
    route ← or_throw (route_at a n route_id) not_found
    stop ← or_throw (a.stops_table.first n.stops (at_checkpoint route_id checkpoint_id)) not_found
    throw_if (ltb 0 (a.db.events_table.count n.state.events (passed route_id checkpoint_id)))
        bad_request
    ok (drop_stop stop.0 route_id)
