-- ===== src/Network/Routes.antt =====
-- create, update, remove, activate and deactivate of routes.service.ts.
use egypt_supply_chain_visib.Base.{
  ℕ, ltb, same_text, Bool, true, false, not, ◌&&◌, Option, is_some, ◌is◌, String, Result, ok,
  conflict, not_found, throw_if, or_throw, ◌>>=◌, ◌>>◌,
}
use egypt_supply_chain_visib.Domain.{Route, Shipment}
use egypt_supply_chain_visib.Shipments.Accept.{is_active}
use egypt_supply_chain_visib.Shipments.Update.{Patch, undefined, null, value, patch, patch_required}
use egypt_supply_chain_visib.Network.{
  NetworkAction, route_create, route_update, route_remove, route_activate, route_deactivate, Atlas,
  Network, route_at, write_route, route_by_code,
}

pub record CreateRouteDto : Type 0 where
  pub name : String
  pub code : String
  pub origin_city : String
  pub destination_city : String
  pub estimated_days : Option ℕ

-- `PartialType(CreateRouteDto)`; its `@IsNotEmpty` admits no empty code.
pub record UpdateRouteDto : Type 0 where
  pub name : Patch String
  pub code : Patch String
  pub origin_city : Patch String
  pub destination_city : Patch String
  pub estimated_days : Patch ℕ

unfoldable pub new_route : ℕ → CreateRouteDto → Route
new_route id dto = record {
  route_id = id;
  route_name = dto.name;
  route_code = dto.code;
  route_origin_city = dto.origin_city;
  route_destination_city = dto.destination_city;
  route_estimated_days = dto.estimated_days;
  route_is_active = true;
}

-- The columns that `update` writes, or the error of a null where there must be a value.
unfoldable pub patch_route : UpdateRouteDto → Route → Result Route
patch_route dto route = do
  name ← patch_required dto.name route.route_name
  code ← patch_required dto.code route.route_code
  origin_city ← patch_required dto.origin_city route.route_origin_city
  destination_city ← patch_required dto.destination_city route.route_destination_city
  ok (record route {
    route_name = name;
    route_code = code;
    route_origin_city = origin_city;
    route_destination_city = destination_city;
    route_estimated_days = patch dto.estimated_days route.route_estimated_days;
  })

-- `where` of the shipments that are on a route and not over.
abbrev pub occupies : ℕ → Shipment → Bool
occupies id shipment = shipment.route_id is id && is_active shipment

module _ (a : Atlas) (n : Network a) where
  unfoldable pub create_route : ℕ → CreateRouteDto → Result (Network a × Route)
  unfolding route_by_code new_route
  create_route new_id dto = do
    throw_if (is_some (route_by_code a n dto.code)) conflict
    ok (write_route a n route_create new_id (new_route new_id dto), new_route new_id dto)

  -- The code is looked up only where it is given and changes.
  unfoldable pub route_code_taken : Patch String → Route → Bool
  unfolding route_by_code
  route_code_taken undefined route = false
  route_code_taken null route = false
  route_code_taken (value code) route =
      not (same_text code route.route_code) && is_some (route_by_code a n code)

  unfoldable pub update_route : ℕ → UpdateRouteDto → Result (Network a × Route)
  unfolding route_code_taken patch_route
  update_route id dto = do
    route ← or_throw (route_at a n id) not_found
    throw_if (route_code_taken dto.code route) conflict
    updated ← patch_route dto route
    ok (write_route a n route_update id updated, updated)

  abbrev pub set_route_active : NetworkAction → Bool → ℕ → Route → Network a × Route
  set_route_active action active id route =
      let updated : Route = record route { route_is_active = active } in
      (write_route a n action id updated, updated)

  unfoldable pub remove_route : ℕ → Result (Network a)
  remove_route id = do
    route ← or_throw (route_at a n id) not_found
    ok (set_route_active route_remove false id route).0

  unfoldable pub activate_route : ℕ → Result (Network a × Route)
  activate_route id = do
    route ← or_throw (route_at a n id) not_found
    ok (set_route_active route_activate true id route)

  unfoldable pub deactivate_route : ℕ → Result (Network a × Route)
  deactivate_route id = do
    route ← or_throw (route_at a n id) not_found
    throw_if (ltb 0 (a.db.shipments_table.count n.state.shipments (occupies id))) conflict
    ok (set_route_active route_deactivate false id route)
