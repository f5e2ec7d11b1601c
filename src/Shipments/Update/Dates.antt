-- ===== src/Shipments/Update/Dates.antt =====
-- What `update` does to the estimated dates.
use egypt_supply_chain_visib.Base.{
  ℕ, ◌<◌, ◌≡◌, ◌≢◌, refl, ap, Option, none, some, arith, ok, false, throw_if-eq-ok, guard-eq-ok,
  bind-eq-ok, ok-injective, throw_if, ◌&&◌, bad_request, forbidden,
}
use egypt_supply_chain_visib.Domain.{
  RequestUser, Shipment, delivered, cancelled, same_status, is_carrier,
}
use egypt_supply_chain_visib.Store.Database.{Database, State}
use egypt_supply_chain_visib.Shipments.Access.{enforce_edit_access}
use egypt_supply_chain_visib.Shipments.Runs.{update_run}
use egypt_supply_chain_visib.Shipments.Checks.{dates_out_of_order, check_carrier, check_route}
use egypt_supply_chain_visib.Shipments.Update.{
  Patch, undefined, null, value, UpdateShipmentDto, given, patch_date, patch_required, checked_date,
  patch_shipment, check_update, save_update, update,
}

-- Where both dates are known, the arrival is after the departure.
abbrev pub InOrder : Option ℕ → Option ℕ → Type 0
InOrder (some departure) (some arrival) = departure < arrival
InOrder _ _ = Unit {0}

patch_shipment_dates :
    (dto : UpdateShipmentDto) (old updated : Shipment)
    → patch_shipment dto old ≡ ok updated
    → (updated.shipment_estimated_departure_at
        ≡ patch_date dto.estimated_departure_at old.shipment_estimated_departure_at)
      × (updated.shipment_estimated_arrival_at
          ≡ patch_date dto.estimated_arrival_at old.shipment_estimated_arrival_at)
unfolding patch_shipment
patch_shipment_dates dto old updated h = ground arith

-- The test of the code against its meaning.
checked-InOrder :
    (departure arrival : Option ℕ)
    → dates_out_of_order departure arrival ≡ false
    → InOrder departure arrival
checked-InOrder none arrival h = tt
checked-InOrder (some d) none h = tt
checked-InOrder (some d) (some a) h = ground arith

check_update_dates :
    (db : Database) (s : State db) (user : RequestUser) (old : Shipment) (dto : UpdateShipmentDto)
    → check_update db s user old dto ≡ ok tt
    → InOrder
        (checked_date dto.estimated_departure_at old.shipment_estimated_departure_at)
        (checked_date dto.estimated_arrival_at old.shipment_estimated_arrival_at)
unfolding check_update
check_update_dates db s user old dto h =
    let (editable, h₁) = guard-eq-ok (enforce_edit_access db s user old) _ h in
    let (open_status, h₂) =
      guard-eq-ok (throw_if (same_status old.shipment_status delivered) bad_request) _ h₁ in
    let (mine, h₃) =
      guard-eq-ok
        (throw_if (same_status old.shipment_status cancelled && is_carrier user.role) forbidden) _
        h₂ in
    let (carrier, h₄) =
      guard-eq-ok
        (check_carrier db s (given dto.carrier_organization_id) old.shipper_organization_id) _ h₃ in
    let (route, dates) = guard-eq-ok (check_route db s (given dto.route_id)) _ h₄ in
    checked-InOrder _ _ (throw_if-eq-ok _ bad_request dates)

-- Neither date is sent as null.
abbrev pub HasNoNullDate : UpdateShipmentDto → Type 0
HasNoNullDate dto = (dto.estimated_departure_at ≢ null) × (dto.estimated_arrival_at ≢ null)

stored_as_checked :
    (p : Patch ℕ) (old : Option ℕ) → p ≢ null → patch_date p old ≡ checked_date p old
stored_as_checked undefined old h = refl
stored_as_checked null old h = absurd (h refl)
stored_as_checked (value a) old h = refl

-- If no date is sent as null, the estimated dates that a successful `update` stores are in order:
-- where both are known, the arrival is after the departure.
pub update-InOrder :
    (db : Database) (s s' : State db) (user : RequestUser) (id : ℕ) (dto : UpdateShipmentDto)
    (updated : Shipment)
    → HasNoNullDate dto
    → update db s user id dto ≡ ok (s', updated)
    → InOrder updated.shipment_estimated_departure_at updated.shipment_estimated_arrival_at
update-InOrder db s s' user id dto updated nulls h =
    let (old, row, at, checked, patched, e) = update_run db s user id dto h in
    let (departure, arrival) = patch_shipment_dates dto old row patched in
    rw
      (
        ap (λ p. p.1) e,
        departure,
        arrival,
        stored_as_checked _ _ nulls.0,
        stored_as_checked _ _ nulls.1,
      )
      (check_update_dates db s user old dto checked)

-- The update with its arrival sent as null.
abbrev pub without_arrival : UpdateShipmentDto → UpdateShipmentDto
without_arrival dto = record dto { estimated_arrival_at = null }

without_arrival-checked :
    (db : Database) (s : State db) (user : RequestUser) (old : Shipment) (dto : UpdateShipmentDto)
    → check_update db s user old dto ≡ ok tt
    → check_update db s user old (without_arrival dto) ≡ ok tt
unfolding check_update
without_arrival-checked db s user old dto h =
    let (editable, h₁) = guard-eq-ok (enforce_edit_access db s user old) _ h in
    let (open_status, h₂) =
      guard-eq-ok (throw_if (same_status old.shipment_status delivered) bad_request) _ h₁ in
    let (mine, h₃) =
      guard-eq-ok
        (throw_if (same_status old.shipment_status cancelled && is_carrier user.role) forbidden) _
        h₂ in
    let (carrier, h₄) =
      guard-eq-ok
        (check_carrier db s (given dto.carrier_organization_id) old.shipper_organization_id) _ h₃ in
    let (route, dates) = guard-eq-ok (check_route db s (given dto.route_id)) _ h₄ in
    rw (editable, open_status, mine, carrier, route)
      (unbounded (checked_date dto.estimated_departure_at old.shipment_estimated_departure_at))
  where
    unbounded :
        (departure : Option ℕ) → throw_if (dates_out_of_order departure none) bad_request ≡ ok tt
    unbounded none = refl
    unbounded (some d) = refl

without_arrival-patched :
    (dto : UpdateShipmentDto) (old row : Shipment)
    → patch_shipment dto old ≡ ok row
    → patch_shipment (without_arrival dto) old
      ≡ ok (record row { shipment_estimated_arrival_at = some 0 })
unfolding patch_shipment
without_arrival-patched dto old row h =
    let (origin_address, e₁, h₁) =
      bind-eq-ok (patch_required dto.origin_address old.shipment_origin_address) _ h in
    let (destination_address, e₂, h₂) =
      bind-eq-ok (patch_required dto.destination_address old.shipment_destination_address) _ h₁ in
    let (origin_city, e₃, h₃) =
      bind-eq-ok (patch_required dto.origin_city old.shipment_origin_city) _ h₂ in
    let (destination_city, e₄, h₄) =
      bind-eq-ok (patch_required dto.destination_city old.shipment_destination_city) _ h₃ in
    rw (e₁, e₂, e₃, e₄)
      (ap (λ (x : Shipment). ok (record x { shipment_estimated_arrival_at = some 0 }))
        (ok-injective h₄))

-- The other case is a fault. If an update that gives a departure, not before 1970, succeeds, then so
-- does the same update with its arrival sent as null; but that stores as the arrival not nothing
-- but the start of 1970, beside the departure, so that the stored dates are out of order.
pub update_null_arrival :
    (db : Database) (s s' : State db) (user : RequestUser) (id : ℕ) (dto : UpdateShipmentDto)
    (updated : Shipment) (departure : ℕ)
    → dto.estimated_departure_at ≡ value departure
    → update db s user id dto ≡ ok (s', updated)
    → (after : State db) × (cleared : Shipment) × (update db s user id (without_arrival dto)
        ≡ ok (after, cleared))
      × (cleared.shipment_estimated_departure_at ≡ some departure)
      × (cleared.shipment_estimated_arrival_at ≡ some 0)
      × ¬ InOrder cleared.shipment_estimated_departure_at cleared.shipment_estimated_arrival_at
unfolding update
update_null_arrival db s s' user id dto updated departure leaves h =
    let (old, row, at, checked, patched, e) = update_run db s user id dto h in
    let (departs, arrives) = patch_shipment_dates dto old row patched in
    let cleared : Shipment = record row { shipment_estimated_arrival_at = some 0 } in
    let stored : row.shipment_estimated_departure_at ≡ some departure = rw (departs, leaves) refl in
    (
      save_update db s user id old cleared,
      cleared,
      rw
          (
            at,
            without_arrival-checked db s user old dto checked,
            without_arrival-patched dto old row patched,
          )
          refl,
      stored,
      refl,
      rw stored (λ l. omega arith),
    )
