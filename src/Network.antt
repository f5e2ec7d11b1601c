-- ===== src/Network.antt =====
-- Routes, checkpoints and the checkpoints of a route: routes/routes.service.ts and
-- checkpoints/checkpoints.service.ts. Every exception comes before the one write of a method, so a
-- failure leaves the tables as they were.
pub mod Routes
pub mod Checkpoints
pub mod Stops
pub mod Chart
pub mod Closing
use egypt_supply_chain_visib.Base.{ℕ, Bool, Option, some, List, ◌∷◌, same_text, String, ◌is◌, ◌&&◌}
use egypt_supply_chain_visib.Domain.{Route, Checkpoint}
use egypt_supply_chain_visib.Store.{Table}
use egypt_supply_chain_visib.Store.Database.{Database, State}

pub record RouteCheckpoint : Type 0 where
  pub route_id : ℕ
  pub checkpoint_id : ℕ
  pub sequence_order : ℕ
  pub checkpoint_is_optional : Bool

pub data NetworkAction : Type 0 where
  route_create route_update route_remove route_activate route_deactivate : NetworkAction
  route_checkpoint_add route_checkpoint_remove : NetworkAction
  checkpoint_create checkpoint_update checkpoint_remove : NetworkAction
  checkpoint_activate checkpoint_deactivate : NetworkAction

-- An audit row, without its old and new values.
pub record NetworkAudit : Type 0 where
  pub action : NetworkAction
  pub resource_id : ℕ

-- The tables of the shipment service, and the one of the checkpoints of each route.
pub record Atlas : Type 1 where
  pub db : Database
  pub stops_table : Table RouteCheckpoint

pub record Network (a : Atlas) : Type 0 where
  pub state : State a.db
  pub stops : a.stops_table.Rows
  pub audited : List NetworkAudit

module _ (a : Atlas) (n : Network a) where
  abbrev pub route_at : ℕ → Option Route
  route_at id = a.db.routes_table.find n.state.routes id

  abbrev pub checkpoint_at : ℕ → Option Checkpoint
  checkpoint_at id = a.db.checkpoints_table.find n.state.checkpoints id

  abbrev pub logged : NetworkAction → ℕ → List NetworkAudit
  logged action id = record { action = action; resource_id = id } ∷ n.audited

  abbrev pub write_route : NetworkAction → ℕ → Route → Network a
  write_route action id route = record n {
    state = record n.state { routes = a.db.routes_table.save n.state.routes id route };
    audited = logged action id;
  }

  abbrev pub write_checkpoint : NetworkAction → ℕ → Checkpoint → Network a
  write_checkpoint action id checkpoint = record n {
    state = record n.state {
      checkpoints = a.db.checkpoints_table.save n.state.checkpoints id checkpoint;
    };
    audited = logged action id;
  }

  -- `findUnique` by the code.
  unfoldable pub route_by_code : String → Option (ℕ × Route)
  route_by_code code =
      a.db.routes_table.first n.state.routes (λ route. same_text route.route_code code)

  unfoldable pub checkpoint_by_code : String → Option (ℕ × Checkpoint)
  checkpoint_by_code code =
      a.db.checkpoints_table.first n.state.checkpoints
        (λ checkpoint. same_text checkpoint.checkpoint_code code)
