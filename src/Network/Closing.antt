-- ===== src/Network/Closing.antt =====
-- deactivate and remove of a route and of a checkpoint: both clear the flag, one of them first asks
-- what is still in use.
use egypt_supply_chain_visib.Base.{
  ℕ, ltb, ◌≡◌, refl, ◌⊎◌, inl, inr, true, false, Bool-cases, some, ok, err, conflict, arith,
}
use egypt_supply_chain_visib.Domain.{Route, Checkpoint, Shipment}
use egypt_supply_chain_visib.Network.{
  RouteCheckpoint, route_remove, route_deactivate, checkpoint_remove, checkpoint_deactivate, Atlas,
  Network, route_at, checkpoint_at,
}
use egypt_supply_chain_visib.Network.Routes.{
  occupies, set_route_active, remove_route, deactivate_route,
}
use egypt_supply_chain_visib.Network.Checkpoints.{
  serves, set_checkpoint_active, remove_checkpoint, deactivate_checkpoint,
}

module _ (a : Atlas) (n : Network a) (id : ℕ) where
  -- A route that a shipment under way is on is refused by deactivate, and taken out of use by
  -- remove all the same; any other both take out of use alike, and every shipment on it is
  -- delivered or cancelled.
  pub deactivate-remove_route :
      (route : Route)
      → route_at a n id ≡ some route
      → ((deactivate_route a n id ≡ err conflict)
          × ((k : ℕ) × (shipment : Shipment) × (a.db.shipments_table.find n.state.shipments k
                ≡ some shipment)
              × (occupies id shipment ≡ true))
          × (remove_route a n id ≡ ok (set_route_active a n route_remove false id route).0))
        ⊎ ((deactivate_route a n id ≡ ok (set_route_active a n route_deactivate false id route))
            × ((k : ℕ) (shipment : Shipment)
                → a.db.shipments_table.find n.state.shipments k ≡ some shipment
                → occupies id shipment ≡ false)
            × (remove_route a n id ≡ ok (set_route_active a n route_remove false id route).0))
  unfolding deactivate_route remove_route
  deactivate-remove_route route found =
      let used = a.db.shipments_table.count n.state.shipments (occupies id) in
      let removed : remove_route a n id ≡ ok (set_route_active a n route_remove false id route).0 =
        rw (found, remove_route) refl in
      elim (Bool-cases (ltb 0 used)) [
        | inl busy ↦ inl (
          rw (found, busy, deactivate_route) refl,
          a.db.shipments_table.count_find n.state.shipments (occupies id) (ground arith),
          removed,
        )
        | inr free ↦ inr (
          rw (found, free, deactivate_route) refl,
          (λ k shipment there. elim (Bool-cases (occupies id shipment)) [
            | inl on ↦ absurd (
                ground (
                  arith,
                  a.db.shipments_table.count_pos n.state.shipments (occupies id) k shipment there
                      on,
                ))
            | inr off ↦ off
          ]),
          removed,
        )
      ]

  -- A checkpoint of a route in use is refused by deactivate, and taken out of use by remove all the
  -- same; any other both take out of use alike, and no route in use has it.
  deactivate-remove_checkpoint :
      (checkpoint : Checkpoint)
      → checkpoint_at a n id ≡ some checkpoint
      → ((deactivate_checkpoint a n id ≡ err conflict)
          × ((k : ℕ) × (stop : RouteCheckpoint) × (a.stops_table.find n.stops k ≡ some stop)
              × (serves a n id stop ≡ true))
          × (remove_checkpoint a n id
              ≡ ok (set_checkpoint_active a n checkpoint_remove false id checkpoint).0))
        ⊎ ((deactivate_checkpoint a n id
              ≡ ok (set_checkpoint_active a n checkpoint_deactivate false id checkpoint))
            × ((k : ℕ) (stop : RouteCheckpoint)
                → a.stops_table.find n.stops k ≡ some stop
                → serves a n id stop ≡ false)
            × (remove_checkpoint a n id
                ≡ ok (set_checkpoint_active a n checkpoint_remove false id checkpoint).0))
  unfolding deactivate_checkpoint remove_checkpoint
  deactivate-remove_checkpoint checkpoint found =
      let used = a.stops_table.count n.stops (serves a n id) in
      let removed : remove_checkpoint a n id
          ≡ ok (set_checkpoint_active a n checkpoint_remove false id checkpoint).0 =
        rw (found, remove_checkpoint) refl in
      elim (Bool-cases (ltb 0 used)) [
        | inl busy ↦ inl (
          rw (found, busy, deactivate_checkpoint) refl,
          a.stops_table.count_find n.stops (serves a n id) (ground arith),
          removed,
        )
        | inr free ↦ inr (
          rw (found, free, deactivate_checkpoint) refl,
          (λ k stop there. elim (Bool-cases (serves a n id stop)) [
            | inl on ↦
                absurd
                  (ground (arith, a.stops_table.count_pos n.stops (serves a n id) k stop there on))
            | inr off ↦ off
          ]),
          removed,
        )
      ]
