-- ===== src/Shipments/Timeline/Steps.antt =====
-- Each operation of the service keeps the stored shipments sound.
use egypt_supply_chain_visib.Base.{ℕ, ◌≡◌, refl, ◌⊎◌, true, Option, ok, arith, some, String, ◌≢◌}
use egypt_supply_chain_visib.Domain.{
  RequestUser, User, Checkpoint, Shipment, ShipmentStatus, in_transit,
}
use egypt_supply_chain_visib.Store.Messages.{AuditValue}
use egypt_supply_chain_visib.Store.Database.{Database, State, Ambient}
use egypt_supply_chain_visib.Shipments.Create.{
  CreateShipmentDto, create, new_shipment, insert_shipment, created_event,
}
use egypt_supply_chain_visib.Shipments.Update.{
  UpdateShipmentDto, update, patch_shipment, save_update,
}
use egypt_supply_chain_visib.Shipments.AssignRoute.{assign_route, save_route}
use egypt_supply_chain_visib.Shipments.UpdateStatus.{
  UpdateShipmentStatusDto, update_status, valid_transition, next_shipment, status_event,
  save_status,
}
use egypt_supply_chain_visib.Shipments.Accept.{
  Claim, claimed_by_organization, already_mine, accept, accept_branch, assign_driver,
  claim_shipment, save_claim,
}
use egypt_supply_chain_visib.Shipments.Remove.{remove, is_event_of}
use egypt_supply_chain_visib.Shipments.Runs.{
  At, create_run, update_run, assign_route_run, update_status_run, accept_run, remove_run,
  check_update_status_run,
}
use egypt_supply_chain_visib.Shipments.Timeline.{
  is_underway, IsTimed, HasEvent, IsSound, IsFresh, write-IsSound, HasEvent-kept, HasEvent-added,
}

-- A status after departure is entered from such a status, or is `in_transit` itself.
is_underway-transition :
    (a b : ShipmentStatus)
    → valid_transition a b ≡ true
    → is_underway b ≡ true
    → (b ≡ in_transit) ⊎ (is_underway a ≡ true)
unfolding valid_transition
is_underway-transition a b h u = ground arith

next_shipment-IsTimed :
    (now : ℕ) (checkpoint : Option Checkpoint) (dto : UpdateShipmentStatusDto) (old : Shipment)
    → valid_transition old.shipment_status dto.status ≡ true
    → IsTimed old
    → IsTimed (next_shipment now checkpoint dto old)
unfolding next_shipment
next_shipment-IsTimed now checkpoint dto old h t = record {
  departed = λ u. ground (arith, is_underway-transition old.shipment_status dto.status h u);
  arrived = λ d. ground arith;
}

new_shipment-IsTimed :
    (env : Ambient) (user : RequestUser) (db_user : User) (dto : CreateShipmentDto)
    → IsTimed (new_shipment env user db_user dto)
unfolding new_shipment
new_shipment-IsTimed env user db_user dto = ground arith

patch_shipment-IsTimed :
    (dto : UpdateShipmentDto) (old updated : Shipment)
    → patch_shipment dto old ≡ ok updated
    → IsTimed old
    → IsTimed updated
unfolding patch_shipment
patch_shipment-IsTimed dto old updated h t = ground arith

assign_driver-IsTimed : (user : ℕ) (old : Shipment) → IsTimed old → IsTimed (assign_driver user old)
unfolding assign_driver
assign_driver-IsTimed user old t = ground arith

claim_shipment-IsTimed :
    (organization user : ℕ) (old : Shipment)
    → IsTimed old
    → IsTimed (claim_shipment organization user old)
unfolding claim_shipment
claim_shipment-IsTimed organization user old t = ground arith

-- No event is written, and the written row is sound.
unchanged-HasEvent :
    (db : Database) (s s' : State db)
    → s'.events ≡ s.events
    → (j : ℕ) → HasEvent db s j
    → HasEvent db s' j
unchanged-HasEvent db s s' e j (k, event, at, mine) = (k, event, rw e at, mine)

module _ (db : Database) (s : State db) (sound : IsSound db s) where
  pub create-IsSound :
      (env : Ambient) (user : RequestUser) (dto : CreateShipmentDto) {r : State db × Shipment}
      → IsFresh db s env
      → create db s env user dto ≡ ok r
      → IsSound db r.0
  unfolding insert_shipment new_shipment
  create-IsSound env user dto {r} fresh h =
      let (db_user, checked, e) = create_run db s env user dto h in
      let row = new_shipment env user db_user dto in
      let s' = insert_shipment db s env user row in
      rw e (
        write-IsSound db s s' env.new_shipment_id row refl sound
          (new_shipment-IsTimed env user db_user dto)
          (HasEvent-kept db s s' env fresh (created_event env user row) refl)
          (HasEvent-added db s s' env fresh (created_event env user row) refl))

  pub update-IsSound :
      (user : RequestUser) (id : ℕ) (dto : UpdateShipmentDto) {r : State db × Shipment}
      → update db s user id dto ≡ ok r
      → IsSound db r.0
  unfolding save_update
  update-IsSound user id dto h =
      let (old, updated, at, checked, patched, e) = update_run db s user id dto h in
      let s' = save_update db s user id old updated in
      let kept = unchanged-HasEvent db s s' refl in
      rw e (
        write-IsSound db s s' id updated refl sound
          (patch_shipment-IsTimed dto old updated patched (sound.timed id old at)) kept
          (kept id (sound.recorded id old at)))

  pub assign_route-IsSound :
      (env : Ambient) (user : RequestUser) (id route_id : ℕ) {r : State db × Shipment}
      → IsFresh db s env
      → assign_route db s env user id route_id ≡ ok r
      → IsSound db r.0
  unfolding save_route
  assign_route-IsSound env user id route_id fresh h =
      let (old, route, at, checked, known, e) = assign_route_run db s env user id route_id h in
      let s' = save_route db s env user id route_id old route in
      let kept = HasEvent-kept db s s' env fresh _ refl in
      rw e (
        write-IsSound db s s' id (record old { route_id = some route_id }) refl sound
          (record {
            departed = (sound.timed id old at).departed;
            arrived = (sound.timed id old at).arrived;
          })
          kept (kept id (sound.recorded id old at)))

  pub update_status-IsSound :
      (env : Ambient) (user : RequestUser) (id : ℕ) (dto : UpdateShipmentStatusDto)
      {r : State db × Shipment}
      → IsFresh db s env
      → update_status db s env user id dto ≡ ok r
      → IsSound db r.0
  unfolding save_status
  update_status-IsSound env user id dto fresh h =
      let (old, checkpoint, at, checked, known, e) = update_status_run db s env user id dto h in
      let (db_user, found, allowed, valid, restored) =
        check_update_status_run db s user old dto checked in
      let row = next_shipment env.now checkpoint dto old in
      let event = status_event env user id checkpoint dto in
      let s' = save_status db s env user id dto old row event in
      let kept = HasEvent-kept db s s' env fresh event refl in
      rw e (
        write-IsSound db s s' id row refl sound
          (next_shipment-IsTimed env.now checkpoint dto old valid (sound.timed id old at)) kept
          (kept id (sound.recorded id old at)))

  claim-IsSound :
      (env : Ambient) (user : RequestUser) (id : ℕ) (old updated : Shipment) (text : String)
      (before after : AuditValue)
      → IsFresh db s env
      → At db s id old
      → IsTimed updated
      → IsSound db (save_claim db s env user id updated text before after)
  unfolding save_claim
  claim-IsSound env user id old updated text before after fresh at timed =
      let s' = save_claim db s env user id updated text before after in
      let kept = HasEvent-kept db s s' env fresh _ refl in
      write-IsSound db s s' id updated refl sound timed kept (kept id (sound.recorded id old at))

  accept_branch-IsSound :
      (env : Ambient) (user : RequestUser) (organization id : ℕ) (old : Shipment) (claim : Claim)
      → IsFresh db s env
      → At db s id old
      → IsSound db (accept_branch db s env user organization id old claim).0
  unfolding accept_branch
  accept_branch-IsSound env user organization id old already_mine fresh at = sound
  accept_branch-IsSound env user organization id old claimed_by_organization fresh at =
      claim-IsSound env user id old (assign_driver user.sub old) _ _ _ fresh at
        (assign_driver-IsTimed user.sub old (sound.timed id old at))
  accept_branch-IsSound env user organization id old _ fresh at =
      claim-IsSound env user id old (claim_shipment organization user.sub old) _ _ _ fresh at
        (claim_shipment-IsTimed organization user.sub old (sound.timed id old at))

  pub accept-IsSound :
      (env : Ambient) (user : RequestUser) (id : ℕ) {r : State db × Shipment}
      → IsFresh db s env
      → accept db s env user id ≡ ok r
      → IsSound db r.0
  accept-IsSound env user id fresh h =
      let (old, db_user, claim, at, checked, e) = accept_run db s env user id h in
      rw e (accept_branch-IsSound env user db_user.organization_id id old claim fresh at)

  -- In a sound state nobody can delete a shipment: the database refuses to drop a row that an
  -- event refers to.
  pub remove-never :
      (env : Ambient) (user : RequestUser) (id : ℕ) (s' : State db)
      → remove db s env user id ≢ ok s'
  remove-never env user id s' h =
      let (old, at, editable, drafted, unreferenced, e) = remove_run db s env user id h in
      let (k, event, there, mine) = sound.recorded id old at in
      ground (arith, db.events_table.count_pos s.events (is_event_of id) k event there mine)
