-- ===== src/Network/Chart.antt =====
-- What holds of the map of routes whatever is called: codes are not shared, no position of a route
-- and no checkpoint in a route occurs twice, and every checkpoint of a route is there.
pub mod Patched
pub mod RouteCalls
pub mod CheckpointCalls
pub mod Calls
use egypt_supply_chain_visib.Base.{
  ℕ, ◌==◌, ◌≡◌, ◌≢◌, sym, ap, subst, ◌∙◌, same_text, same_text_iff, Bool, true, false, not, ◌&&◌,
  Bool-cases, Option-cases, Option, none, some, is_some, String, Result, ok, err, arith, inl, inr,
  refl,
}
use egypt_supply_chain_visib.Domain.{Route, Checkpoint}
use egypt_supply_chain_visib.Store.{Table}
use egypt_supply_chain_visib.Store.Saves.{save-cases, delete-eq-some, save_here}
use egypt_supply_chain_visib.Store.Unique.{
  IsUnique, save-IsUnique, resave-IsUnique, delete-IsUnique,
}
use egypt_supply_chain_visib.Network.{
  RouteCheckpoint, NetworkAction, Atlas, Network, route_at, checkpoint_at, write_route,
  write_checkpoint, route_by_code, checkpoint_by_code,
}
use egypt_supply_chain_visib.Network.Stops.{
  AddRouteCheckpointDto, at_position, at_checkpoint, new_stop, save_stop, drop_stop,
}

-- The columns of `@@unique([route_id, sequence_order])`, and those that `addCheckpoint` tests.
abbrev pub position : RouteCheckpoint → ℕ × ℕ
position stop = (stop.route_id, stop.sequence_order)

abbrev pub passage : RouteCheckpoint → ℕ × ℕ
passage stop = (stop.route_id, stop.checkpoint_id)

module _ (a : Atlas) where
  pub record IsCharted (n : Network a) : Type 0 where
    pub routes_once : IsUnique a.db.routes_table (λ route. route.route_code) n.state.routes
    pub checkpoints_once :
        IsUnique a.db.checkpoints_table
          (λ checkpoint. checkpoint.checkpoint_code)
          n.state.checkpoints
    pub positions_once : IsUnique a.stops_table position n.stops
    pub passages_once : IsUnique a.stops_table passage n.stops
    pub placed :
        (id : ℕ) (stop : RouteCheckpoint)
        → a.stops_table.find n.stops id ≡ some stop
        → (is_some (route_at a n stop.route_id) ≡ true)
          × (is_some (checkpoint_at a n stop.checkpoint_id) ≡ true)

-- A row that is there is there after any write.
save-is_some :
    {R : Type 0} (t : Table R) (rows : t.Rows) (k j : ℕ) (row : R)
    → is_some (t.find rows j) ≡ true
    → is_some (t.find (t.save rows k row) j) ≡ true
save-is_some t rows k j row there = ground (arith, t.find-save rows k j row)

module _ (a : Atlas) (n : Network a) (charted : IsCharted a n) where
  write_route-IsCharted :
      (action : NetworkAction) (id : ℕ) (route : Route)
      → IsUnique a.db.routes_table
          (λ row. row.route_code)
          (a.db.routes_table.save n.state.routes id route)
      → IsCharted a (write_route a n action id route)
  write_route-IsCharted action id route once = record {
    routes_once = once;
    checkpoints_once = charted.checkpoints_once;
    positions_once = charted.positions_once;
    passages_once = charted.passages_once;
    placed = λ k stop found.
        let (route_there, checkpoint_there) = charted.placed k stop found in
        (
          save-is_some a.db.routes_table n.state.routes id stop.route_id route route_there,
          checkpoint_there,
        );
  }

  write_checkpoint-IsCharted :
      (action : NetworkAction) (id : ℕ) (checkpoint : Checkpoint)
      → IsUnique a.db.checkpoints_table
          (λ row. row.checkpoint_code)
          (a.db.checkpoints_table.save n.state.checkpoints id checkpoint)
      → IsCharted a (write_checkpoint a n action id checkpoint)
  write_checkpoint-IsCharted action id checkpoint once = record {
    routes_once = charted.routes_once;
    checkpoints_once = once;
    positions_once = charted.positions_once;
    passages_once = charted.passages_once;
    placed = λ k stop found.
        let (route_there, checkpoint_there) = charted.placed k stop found in
        (
          route_there,
          save-is_some a.db.checkpoints_table n.state.checkpoints id stop.checkpoint_id checkpoint
              checkpoint_there,
        );
  }

  -- A code that no row has.
  pub free_code-IsCharted :
      (action : NetworkAction) (id : ℕ) (route : Route)
      → route_by_code a n route.route_code ≡ none
      → IsCharted a (write_route a n action id route)
  unfolding route_by_code
  free_code-IsCharted action id route free = write_route-IsCharted action id route (
      save-IsUnique a.db.routes_table (λ (row : Route). row.route_code) n.state.routes
        charted.routes_once id route
        (λ j b off there same.
          let miss = a.db.routes_table.first-eq-none n.state.routes _ j b free there in
          absurd (ground (arith, (same_text_iff b.route_code route.route_code).1 (sym same)))))

  pub same_code-IsCharted :
      (action : NetworkAction) (id : ℕ) (old route : Route)
      → route_at a n id ≡ some old
      → route.route_code ≡ old.route_code
      → IsCharted a (write_route a n action id route)
  same_code-IsCharted action id old route found same = write_route-IsCharted action id route (
      resave-IsUnique a.db.routes_table (λ (row : Route). row.route_code) n.state.routes
        charted.routes_once id old route found same)

  pub free_checkpoint-IsCharted :
      (action : NetworkAction) (id : ℕ) (checkpoint : Checkpoint)
      → checkpoint_by_code a n checkpoint.checkpoint_code ≡ none
      → IsCharted a (write_checkpoint a n action id checkpoint)
  unfolding checkpoint_by_code
  free_checkpoint-IsCharted action id checkpoint free =
      write_checkpoint-IsCharted action id checkpoint (
        save-IsUnique a.db.checkpoints_table (λ (row : Checkpoint). row.checkpoint_code)
          n.state.checkpoints charted.checkpoints_once id checkpoint
          (λ j b off there same.
            let miss = a.db.checkpoints_table.first-eq-none n.state.checkpoints _ j b free there in
            absurd (
              ground (
                arith,
                (same_text_iff b.checkpoint_code checkpoint.checkpoint_code).1 (sym same),
              ))))

  pub same_checkpoint-IsCharted :
      (action : NetworkAction) (id : ℕ) (old checkpoint : Checkpoint)
      → checkpoint_at a n id ≡ some old
      → checkpoint.checkpoint_code ≡ old.checkpoint_code
      → IsCharted a (write_checkpoint a n action id checkpoint)
  same_checkpoint-IsCharted action id old checkpoint found same =
      write_checkpoint-IsCharted action id checkpoint (
        resave-IsUnique a.db.checkpoints_table (λ (row : Checkpoint). row.checkpoint_code)
          n.state.checkpoints charted.checkpoints_once id old checkpoint found same)

  pub save_stop-IsCharted :
      (id route_id : ℕ) (dto : AddRouteCheckpointDto)
      → is_some (route_at a n route_id) ≡ true
      → is_some (checkpoint_at a n dto.checkpoint_id) ≡ true
      → a.stops_table.first n.stops (at_position route_id dto.sequence_order) ≡ none
      → a.stops_table.first n.stops (at_checkpoint route_id dto.checkpoint_id) ≡ none
      → IsCharted a (save_stop a n id (new_stop a n route_id dto))
  save_stop-IsCharted id route_id dto route_there checkpoint_there free absent = record {
    routes_once = charted.routes_once;
    checkpoints_once = charted.checkpoints_once;
    positions_once =
        save-IsUnique a.stops_table position n.stops charted.positions_once id
          (new_stop a n route_id dto)
          (λ j b off there same.
            let miss = a.stops_table.first-eq-none n.stops _ j b free there in
            let one : route_id ≡ b.route_id = ap (λ p. p.0) same in
            let two : dto.sequence_order ≡ b.sequence_order = ap (λ p. p.1) same in
            absurd (ground arith));
    passages_once =
        save-IsUnique a.stops_table passage n.stops charted.passages_once id
          (new_stop a n route_id dto)
          (λ j b off there same.
            let miss = a.stops_table.first-eq-none n.stops _ j b absent there in
            let one : route_id ≡ b.route_id = ap (λ p. p.0) same in
            let two : dto.checkpoint_id ≡ b.checkpoint_id = ap (λ p. p.1) same in
            absurd (ground arith));
    placed = λ k stop found.
        elim (save-cases a.stops_table n.stops id k (new_stop a n route_id dto) stop found) [
          | inl (at, e) ↦
              subst
                (λ (x : RouteCheckpoint).
                  (is_some (route_at a n x.route_id) ≡ true)
                  × (is_some (checkpoint_at a n x.checkpoint_id) ≡ true))
                e (route_there, checkpoint_there)
          | inr (off, old) ↦ charted.placed k stop old
        ];
  }

  pub drop_stop-IsCharted : (id route_id : ℕ) → IsCharted a (drop_stop a n id route_id)
  drop_stop-IsCharted id route_id = record {
    routes_once = charted.routes_once;
    checkpoints_once = charted.checkpoints_once;
    positions_once = delete-IsUnique a.stops_table position n.stops charted.positions_once id;
    passages_once = delete-IsUnique a.stops_table passage n.stops charted.passages_once id;
    placed = λ k stop found.
        charted.placed k stop (delete-eq-some a.stops_table n.stops id k stop found).1;
  }
