-- ===== src/Network/Chart/Calls.antt =====
-- Histories of the network, and that the map is well formed throughout.
use egypt_supply_chain_visib.Base.{ℕ, ◌≡◌, ok}
use egypt_supply_chain_visib.Domain.{Route, Checkpoint}
use egypt_supply_chain_visib.Network.{RouteCheckpoint, Atlas, Network}
use egypt_supply_chain_visib.Network.Routes.{
  CreateRouteDto, UpdateRouteDto, create_route, update_route, remove_route, activate_route,
  deactivate_route,
}
use egypt_supply_chain_visib.Network.Checkpoints.{
  CreateCheckpointDto, UpdateCheckpointDto, create_checkpoint, update_checkpoint, remove_checkpoint,
  activate_checkpoint, deactivate_checkpoint,
}
use egypt_supply_chain_visib.Network.Stops.{AddRouteCheckpointDto, add_checkpoint, remove_stop}
use egypt_supply_chain_visib.Network.Chart.{IsCharted}
use egypt_supply_chain_visib.Network.Chart.RouteCalls.{
  create_route-IsCharted, update_route-IsCharted, remove_route-IsCharted, activate_route-IsCharted,
  deactivate_route-IsCharted, add_checkpoint-IsCharted, remove_stop-IsCharted,
}
use egypt_supply_chain_visib.Network.Chart.CheckpointCalls.{
  create_checkpoint-IsCharted, update_checkpoint-IsCharted, remove_checkpoint-IsCharted,
  activate_checkpoint-IsCharted, deactivate_checkpoint-IsCharted,
}

module _ (a : Atlas) where
  -- A call that succeeded.
  pub data Edit (n : Network a) : Network a → Type 0 where
    creates_route :
        (new_id : ℕ) (dto : CreateRouteDto) {after : Network a} {route : Route}
        → create_route a n new_id dto ≡ ok (after, route)
        → Edit n after
    updates_route :
        (id : ℕ) (dto : UpdateRouteDto) {after : Network a} {route : Route}
        → update_route a n id dto ≡ ok (after, route)
        → Edit n after
    removes_route : (id : ℕ) {after : Network a} → remove_route a n id ≡ ok after → Edit n after
    activates_route :
        (id : ℕ) {after : Network a} {route : Route}
        → activate_route a n id ≡ ok (after, route)
        → Edit n after
    deactivates_route :
        (id : ℕ) {after : Network a} {route : Route}
        → deactivate_route a n id ≡ ok (after, route)
        → Edit n after
    adds_checkpoint :
        (new_id route_id : ℕ) (dto : AddRouteCheckpointDto) {after : Network a}
        {stop : RouteCheckpoint}
        → add_checkpoint a n new_id route_id dto ≡ ok (after, stop)
        → Edit n after
    removes_stop :
        (route_id checkpoint_id : ℕ) {after : Network a}
        → remove_stop a n route_id checkpoint_id ≡ ok after
        → Edit n after
    creates_checkpoint :
        (new_id : ℕ) (dto : CreateCheckpointDto) {after : Network a} {checkpoint : Checkpoint}
        → create_checkpoint a n new_id dto ≡ ok (after, checkpoint)
        → Edit n after
    updates_checkpoint :
        (id : ℕ) (dto : UpdateCheckpointDto) {after : Network a} {checkpoint : Checkpoint}
        → update_checkpoint a n id dto ≡ ok (after, checkpoint)
        → Edit n after
    removes_checkpoint :
        (id : ℕ) {after : Network a} → remove_checkpoint a n id ≡ ok after → Edit n after
    activates_checkpoint :
        (id : ℕ) {after : Network a} {checkpoint : Checkpoint}
        → activate_checkpoint a n id ≡ ok (after, checkpoint)
        → Edit n after
    deactivates_checkpoint :
        (id : ℕ) {after : Network a} {checkpoint : Checkpoint}
        → deactivate_checkpoint a n id ≡ ok (after, checkpoint)
        → Edit n after

  pub data Edits (n : Network a) : Network a → Type 0 where
    unedited : Edits n n
    then_edit : {middle after : Network a} → Edits n middle → Edit middle after → Edits n after

  Edit-IsCharted : {n after : Network a} → IsCharted a n → Edit n after → IsCharted a after
  Edit-IsCharted {n = n} charted (creates_route new_id dto {after = after} {route = route} h) =
      create_route-IsCharted a n charted new_id dto after route h
  Edit-IsCharted {n = n} charted (updates_route id dto {after = after} {route = route} h) =
      update_route-IsCharted a n charted id dto after route h
  Edit-IsCharted {n = n} charted (removes_route id {after = after} h) =
      remove_route-IsCharted a n charted id after h
  Edit-IsCharted {n = n} charted (activates_route id {after = after} {route = route} h) =
      activate_route-IsCharted a n charted id after route h
  Edit-IsCharted {n = n} charted (deactivates_route id {after = after} {route = route} h) =
      deactivate_route-IsCharted a n charted id after route h
  Edit-IsCharted {n = n} charted
        (adds_checkpoint new_id route_id dto {after = after} {stop = stop} h) =
      add_checkpoint-IsCharted a n charted new_id route_id dto after stop h
  Edit-IsCharted {n = n} charted (removes_stop route_id checkpoint_id {after = after} h) =
      remove_stop-IsCharted a n charted route_id checkpoint_id after h
  Edit-IsCharted {n = n} charted
        (creates_checkpoint new_id dto {after = after} {checkpoint = checkpoint} h) =
      create_checkpoint-IsCharted a n charted new_id dto after checkpoint h
  Edit-IsCharted {n = n} charted
        (updates_checkpoint id dto {after = after} {checkpoint = checkpoint} h) =
      update_checkpoint-IsCharted a n charted id dto after checkpoint h
  Edit-IsCharted {n = n} charted (removes_checkpoint id {after = after} h) =
      remove_checkpoint-IsCharted a n charted id after h
  Edit-IsCharted {n = n} charted
        (activates_checkpoint id {after = after} {checkpoint = checkpoint} h) =
      activate_checkpoint-IsCharted a n charted id after checkpoint h
  Edit-IsCharted {n = n} charted
        (deactivates_checkpoint id {after = after} {checkpoint = checkpoint} h) =
      deactivate_checkpoint-IsCharted a n charted id after checkpoint h

  -- Whatever calls on routes and checkpoints succeed: no two routes and no two checkpoints share a
  -- code, no route has two checkpoints at one position or one checkpoint twice, and each refers to
  -- a route and a checkpoint that are there, if all that held at first.
  pub Edits-IsCharted : {n after : Network a} → IsCharted a n → Edits n after → IsCharted a after
  Edits-IsCharted charted unedited = charted
  Edits-IsCharted charted (then_edit edits edit) =
      Edit-IsCharted (Edits-IsCharted charted edits) edit
