-- ===== src/Network/Chart/RouteCalls.antt =====
-- Each method of routes.service.ts keeps the map well formed.
use egypt_supply_chain_visib.Base.{
  ℕ, ltb, ◌⊎◌, ◌≡◌, ap, subst, refl, same_text, same_text_iff, Bool, true, false, Bool-cases, some,
  is_some, ok, arith, inl, inr, guard-eq-ok, bind-eq-ok, ok-injective, conflict, not_found,
  bad_request, throw_if, throw_if-eq-ok, or_throw, or_throw-eq-ok,
}
use egypt_supply_chain_visib.Domain.{Route}
use egypt_supply_chain_visib.Shipments.Update.{value, patch_required}
use egypt_supply_chain_visib.Network.{
  RouteCheckpoint, NetworkAction, route_create, route_update, route_remove, route_activate,
  route_deactivate, Atlas, Network, route_at, checkpoint_at, write_route, route_by_code,
}
use egypt_supply_chain_visib.Network.Routes.{
  CreateRouteDto, UpdateRouteDto, new_route, patch_route, create_route, route_code_taken,
  update_route, remove_route, activate_route, deactivate_route, set_route_active, occupies,
}
use egypt_supply_chain_visib.Network.Stops.{
  AddRouteCheckpointDto, at_position, at_checkpoint, add_checkpoint, remove_stop, passed,
}
use egypt_supply_chain_visib.Network.Chart.{
  IsCharted, free_code-IsCharted, same_code-IsCharted, save_stop-IsCharted, drop_stop-IsCharted,
}
use egypt_supply_chain_visib.Network.Chart.Patched.{absent, patch_required-eq-ok}

-- The code of a row that was patched.
patch_route-code :
    (dto : UpdateRouteDto) (route updated : Route)
    → patch_route dto route ≡ ok updated
    → (updated.route_code ≡ route.route_code) ⊎ (dto.code ≡ value updated.route_code)
unfolding patch_route
patch_route-code dto route updated h =
    let (name, named, h1) = bind-eq-ok (patch_required dto.name route.route_name) _ h in
    let (code, coded, h2) = bind-eq-ok (patch_required dto.code route.route_code) _ h1 in
    let (origin, from, h3) =
      bind-eq-ok (patch_required dto.origin_city route.route_origin_city) _ h2 in
    let (destination, to, h4) =
      bind-eq-ok (patch_required dto.destination_city route.route_destination_city) _ h3 in
    subst (λ (x : Route). (x.route_code ≡ route.route_code) ⊎ (dto.code ≡ value x.route_code))
      (ok-injective h4) (patch_required-eq-ok dto.code route.route_code code coded)

module _ (a : Atlas) (n : Network a) (charted : IsCharted a n) where
  pub create_route-IsCharted :
      (new_id : ℕ) (dto : CreateRouteDto) (after : Network a) (route : Route)
      → create_route a n new_id dto ≡ ok (after, route)
      → IsCharted a after
  unfolding create_route new_route
  create_route-IsCharted new_id dto after route h =
      let (free, e) = guard-eq-ok (throw_if (is_some (route_by_code a n dto.code)) conflict) _ h in
      subst (IsCharted a) (ap (λ p. p.0) (ok-injective e)) (
        free_code-IsCharted a n charted route_create new_id (new_route new_id dto)
          (absent (route_by_code a n dto.code) (ground arith)))

  -- A code that was given is the old one, or nobody's.
  patched_route-IsCharted :
      (id : ℕ) (dto : UpdateRouteDto) (route updated : Route)
      → route_at a n id ≡ some route
      → route_code_taken a n dto.code route ≡ false
      → (updated.route_code ≡ route.route_code) ⊎ (dto.code ≡ value updated.route_code)
      → IsCharted a (write_route a n route_update id updated)
  unfolding route_code_taken
  patched_route-IsCharted id dto route updated there free (inl same) =
      same_code-IsCharted a n charted route_update id route updated there same
  patched_route-IsCharted id dto route updated there free (inr given) =
      elim (Bool-cases (same_text updated.route_code route.route_code)) [
        | inl same ↦
            same_code-IsCharted a n charted route_update id route updated there
              ((same_text_iff updated.route_code route.route_code).0 same)
        | inr other ↦
            free_code-IsCharted a n charted route_update id updated
              (absent (route_by_code a n updated.route_code) (ground arith))
      ]

  pub update_route-IsCharted :
      (id : ℕ) (dto : UpdateRouteDto) (after : Network a) (updated : Route)
      → update_route a n id dto ≡ ok (after, updated)
      → IsCharted a after
  unfolding update_route
  update_route-IsCharted id dto after updated h =
      let (route, got, h1) = bind-eq-ok (or_throw (route_at a n id) not_found) _ h in
      let (free, h2) = guard-eq-ok (throw_if (route_code_taken a n dto.code route) conflict) _ h1 in
      let (new, patched, h3) = bind-eq-ok (patch_route dto route) _ h2 in
      subst (IsCharted a) (ap (λ p. p.0) (ok-injective h3)) (
        patched_route-IsCharted id dto route new (or_throw-eq-ok (route_at a n id) not_found got)
          (throw_if-eq-ok (route_code_taken a n dto.code route) conflict free)
          (patch_route-code dto route new patched))

  -- A route of which only the flag is written.
  flag_route-IsCharted :
      (action : NetworkAction) (active : Bool) (id : ℕ) (route : Route)
      → or_throw (route_at a n id) not_found ≡ ok route
      → IsCharted a (set_route_active a n action active id route).0
  flag_route-IsCharted action active id route got =
      same_code-IsCharted a n charted action id route (record route { route_is_active = active })
        (or_throw-eq-ok (route_at a n id) not_found got) refl

  pub remove_route-IsCharted :
      (id : ℕ) (after : Network a) → remove_route a n id ≡ ok after → IsCharted a after
  unfolding remove_route
  remove_route-IsCharted id after h =
      let (route, got, e) = bind-eq-ok (or_throw (route_at a n id) not_found) _ h in
      subst (IsCharted a) (ok-injective e) (flag_route-IsCharted route_remove false id route got)

  pub activate_route-IsCharted :
      (id : ℕ) (after : Network a) (updated : Route)
      → activate_route a n id ≡ ok (after, updated)
      → IsCharted a after
  unfolding activate_route
  activate_route-IsCharted id after updated h =
      let (route, got, e) = bind-eq-ok (or_throw (route_at a n id) not_found) _ h in
      subst (IsCharted a) (ap (λ p. p.0) (ok-injective e))
        (flag_route-IsCharted route_activate true id route got)

  pub deactivate_route-IsCharted :
      (id : ℕ) (after : Network a) (updated : Route)
      → deactivate_route a n id ≡ ok (after, updated)
      → IsCharted a after
  unfolding deactivate_route
  deactivate_route-IsCharted id after updated h =
      let (route, got, h1) = bind-eq-ok (or_throw (route_at a n id) not_found) _ h in
      let (idle, e) =
        guard-eq-ok
          (throw_if (ltb 0 (a.db.shipments_table.count n.state.shipments (occupies id))) conflict) _
          h1 in
      subst (IsCharted a) (ap (λ p. p.0) (ok-injective e))
        (flag_route-IsCharted route_deactivate false id route got)

  pub add_checkpoint-IsCharted :
      (new_id route_id : ℕ) (dto : AddRouteCheckpointDto) (after : Network a)
      (stop : RouteCheckpoint)
      → add_checkpoint a n new_id route_id dto ≡ ok (after, stop)
      → IsCharted a after
  unfolding add_checkpoint
  add_checkpoint-IsCharted new_id route_id dto after stop h =
      let at = a.stops_table.first n.stops (at_position route_id dto.sequence_order) in
      let through = a.stops_table.first n.stops (at_checkpoint route_id dto.checkpoint_id) in
      let (route, got, h1) = bind-eq-ok (or_throw (route_at a n route_id) not_found) _ h in
      let (checkpoint, got', h2) =
        bind-eq-ok (or_throw (checkpoint_at a n dto.checkpoint_id) not_found) _ h1 in
      let (free, h3) = guard-eq-ok (throw_if (is_some at) conflict) _ h2 in
      let (new, e) = guard-eq-ok (throw_if (is_some through) conflict) _ h3 in
      subst (IsCharted a) (ap (λ p. p.0) (ok-injective e)) (
        save_stop-IsCharted a n charted new_id route_id dto
          (ap is_some (or_throw-eq-ok (route_at a n route_id) not_found got))
          (ap is_some (or_throw-eq-ok (checkpoint_at a n dto.checkpoint_id) not_found got'))
          (absent at (throw_if-eq-ok (is_some at) conflict free))
          (absent through (throw_if-eq-ok (is_some through) conflict new)))

  pub remove_stop-IsCharted :
      (route_id checkpoint_id : ℕ) (after : Network a)
      → remove_stop a n route_id checkpoint_id ≡ ok after
      → IsCharted a after
  unfolding remove_stop
  remove_stop-IsCharted route_id checkpoint_id after h =
      let (route, got, h1) = bind-eq-ok (or_throw (route_at a n route_id) not_found) _ h in
      let (stop, got', h2) =
        bind-eq-ok
          (or_throw (a.stops_table.first n.stops (at_checkpoint route_id checkpoint_id)) not_found)
          _ h1 in
      let (unpassed, e) =
        guard-eq-ok
          (throw_if
            (ltb 0 (a.db.events_table.count n.state.events (passed a n route_id checkpoint_id)))
            bad_request)
          _ h2 in
      subst (IsCharted a) (ok-injective e) (drop_stop-IsCharted a n charted stop.0 route_id)
