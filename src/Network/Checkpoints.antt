-- ===== src/Network/Checkpoints.antt =====
-- create, update, remove, activate and deactivate of checkpoints.service.ts.
use egypt_supply_chain_visib.Base.{
  ℕ, ◌==◌, ltb, same_text, Bool, true, false, not, ◌&&◌, Option, none, some, is_some, String,
  Result, ok, conflict, not_found, throw_if, or_throw, ◌>>=◌, ◌>>◌,
}
use egypt_supply_chain_visib.Domain.{Route, Checkpoint, ℤ}
use egypt_supply_chain_visib.Shipments.Update.{Patch, undefined, null, value, patch_required}
use egypt_supply_chain_visib.Network.{
  NetworkAction, checkpoint_create, checkpoint_update, checkpoint_remove, checkpoint_activate,
  checkpoint_deactivate, RouteCheckpoint, Atlas, Network, route_at, checkpoint_at, write_checkpoint,
  checkpoint_by_code,
}

pub record CreateCheckpointDto : Type 0 where
  pub name : String
  pub code : String
  pub type : String
  pub city : String
  pub latitude : ℤ
  pub longitude : ℤ

-- `PartialType(CreateCheckpointDto)`; its `@IsNotEmpty` admits no empty code.
pub record UpdateCheckpointDto : Type 0 where
  pub name : Patch String
  pub code : Patch String
  pub type : Patch String
  pub city : Patch String
  pub latitude : Patch ℤ
  pub longitude : Patch ℤ

unfoldable pub new_checkpoint : CreateCheckpointDto → Checkpoint
new_checkpoint dto = record {
  checkpoint_name = dto.name;
  checkpoint_code = dto.code;
  checkpoint_type = dto.type;
  checkpoint_city = dto.city;
  checkpoint_latitude = dto.latitude;
  checkpoint_longitude = dto.longitude;
  checkpoint_is_active = true;
}

unfoldable pub patch_checkpoint : UpdateCheckpointDto → Checkpoint → Result Checkpoint
patch_checkpoint dto checkpoint = do
  name ← patch_required dto.name checkpoint.checkpoint_name
  code ← patch_required dto.code checkpoint.checkpoint_code
  type ← patch_required dto.type checkpoint.checkpoint_type
  city ← patch_required dto.city checkpoint.checkpoint_city
  latitude ← patch_required dto.latitude checkpoint.checkpoint_latitude
  longitude ← patch_required dto.longitude checkpoint.checkpoint_longitude
  ok (record {
    checkpoint_name = name;
    checkpoint_code = code;
    checkpoint_type = type;
    checkpoint_city = city;
    checkpoint_latitude = latitude;
    checkpoint_longitude = longitude;
    checkpoint_is_active = checkpoint.checkpoint_is_active;
  })

-- `route: { route_is_active: true }`
abbrev pub is_active_route : Option Route → Bool
is_active_route none = false
is_active_route (some route) = route.route_is_active

module _ (a : Atlas) (n : Network a) where
  unfoldable pub create_checkpoint : ℕ → CreateCheckpointDto → Result (Network a × Checkpoint)
  unfolding checkpoint_by_code new_checkpoint
  create_checkpoint new_id dto = do
    throw_if (is_some (checkpoint_by_code a n dto.code)) conflict
    ok (write_checkpoint a n checkpoint_create new_id (new_checkpoint dto), new_checkpoint dto)

  unfoldable pub checkpoint_code_taken : Patch String → Checkpoint → Bool
  unfolding checkpoint_by_code
  checkpoint_code_taken undefined checkpoint = false
  checkpoint_code_taken null checkpoint = false
  checkpoint_code_taken (value code) checkpoint =
      not (same_text code checkpoint.checkpoint_code) && is_some (checkpoint_by_code a n code)

  unfoldable pub update_checkpoint : ℕ → UpdateCheckpointDto → Result (Network a × Checkpoint)
  unfolding checkpoint_code_taken patch_checkpoint
  update_checkpoint id dto = do
    checkpoint ← or_throw (checkpoint_at a n id) not_found
    throw_if (checkpoint_code_taken dto.code checkpoint) conflict
    updated ← patch_checkpoint dto checkpoint
    ok (write_checkpoint a n checkpoint_update id updated, updated)

  abbrev pub set_checkpoint_active : NetworkAction → Bool → ℕ → Checkpoint → Network a × Checkpoint
  set_checkpoint_active action active id checkpoint =
      let updated : Checkpoint = record checkpoint { checkpoint_is_active = active } in
      (write_checkpoint a n action id updated, updated)

  unfoldable pub remove_checkpoint : ℕ → Result (Network a)
  remove_checkpoint id = do
    checkpoint ← or_throw (checkpoint_at a n id) not_found
    ok (set_checkpoint_active checkpoint_remove false id checkpoint).0

  unfoldable pub activate_checkpoint : ℕ → Result (Network a × Checkpoint)
  activate_checkpoint id = do
    checkpoint ← or_throw (checkpoint_at a n id) not_found
    ok (set_checkpoint_active checkpoint_activate true id checkpoint)

  -- `where` of the routes in use that have the checkpoint.
  abbrev pub serves : ℕ → RouteCheckpoint → Bool
  serves id stop = stop.checkpoint_id == id && is_active_route (route_at a n stop.route_id)

  unfoldable pub deactivate_checkpoint : ℕ → Result (Network a × Checkpoint)
  deactivate_checkpoint id = do
    checkpoint ← or_throw (checkpoint_at a n id) not_found
    throw_if (ltb 0 (a.stops_table.count n.stops (serves id))) conflict
    ok (set_checkpoint_active checkpoint_deactivate false id checkpoint)
