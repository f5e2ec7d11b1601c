-- ===== src/Shipments/History.antt =====
-- Histories: any sequence of successful calls of the service, by any users at any times.
pub mod Next
pub mod Causes
pub mod Statuses
use egypt_supply_chain_visib.Base.{
  ℕ, ◌==◌, ==_iff, ◌≡◌, refl, sym, ap, ◌⊎◌, inl, inr, true, false, Bool-cases, some, arith, ok,
  if◌then◌else◌, ◌≢◌,
}
use egypt_supply_chain_visib.Domain.{
  RequestUser, Shipment, ShipmentStatus, delivered, draft, confirmed,
}
use egypt_supply_chain_visib.Store.Database.{Database, State, Ambient}
use egypt_supply_chain_visib.Shipments.Status.{is_valid_transition}
use egypt_supply_chain_visib.Shipments.Status.Graph.{Leads, here, step, Leads-delivered}
use egypt_supply_chain_visib.Shipments.Create.{
  CreateShipmentDto, create, new_shipment, insert_shipment,
}
use egypt_supply_chain_visib.Shipments.Update.{
  UpdateShipmentDto, update, patch_shipment, save_update,
}
use egypt_supply_chain_visib.Shipments.AssignRoute.{assign_route, save_route}
use egypt_supply_chain_visib.Shipments.UpdateStatus.{
  UpdateShipmentStatusDto, update_status, valid_transition, next_shipment, status_event,
  save_status,
}
use egypt_supply_chain_visib.Shipments.Accept.{
  Claim, unclaimed, claimed_by_organization, already_mine, taken_by_driver, taken_by_organization,
  accept, accept_branch, assign_driver, claim_shipment, save_claim,
}
use egypt_supply_chain_visib.Shipments.Remove.{remove}
use egypt_supply_chain_visib.Shipments.Runs.{
  At, create_run, update_run, assign_route_run, update_status_run, accept_run,
  check_update_status_run,
}
use egypt_supply_chain_visib.Shipments.Timeline.{IsSound, IsFresh, find_written}
use egypt_supply_chain_visib.Shipments.Timeline.Steps.{
  create-IsSound, update-IsSound, assign_route-IsSound, update_status-IsSound, accept-IsSound,
  remove-never,
}

module _ (db : Database) where
  pub data Step (s s' : State db) : Type 0 where
    creates :
        (env : Ambient) (user : RequestUser) (dto : CreateShipmentDto) (row : Shipment)
        → IsFresh db s env
        → create db s env user dto ≡ ok (s', row)
        → Step s s'
    updates :
        (user : RequestUser) (id : ℕ) (dto : UpdateShipmentDto) (row : Shipment)
        → update db s user id dto ≡ ok (s', row)
        → Step s s'
    assigns_route :
        (env : Ambient) (user : RequestUser) (id route_id : ℕ) (row : Shipment)
        → IsFresh db s env
        → assign_route db s env user id route_id ≡ ok (s', row)
        → Step s s'
    updates_status :
        (env : Ambient) (user : RequestUser) (id : ℕ) (dto : UpdateShipmentStatusDto)
        (row : Shipment)
        → IsFresh db s env
        → update_status db s env user id dto ≡ ok (s', row)
        → Step s s'
    accepts :
        (env : Ambient) (user : RequestUser) (id : ℕ) (row : Shipment)
        → IsFresh db s env
        → accept db s env user id ≡ ok (s', row)
        → Step s s'
    removes :
        (env : Ambient) (user : RequestUser) (id : ℕ) → remove db s env user id ≡ ok s' → Step s s'

  pub data Reach (s : State db) : State db → Type 0 where
    start : Reach s s
    next : {t u : State db} → Reach s t → Step t u → Reach s u

  Step-IsSound : {s s' : State db} → IsSound db s → Step s s' → IsSound db s'
  Step-IsSound {s} sound (creates env user dto row fresh h) =
      create-IsSound db s sound env user dto fresh h
  Step-IsSound {s} sound (updates user id dto row h) = update-IsSound db s sound user id dto h
  Step-IsSound {s} sound (assigns_route env user id route_id row fresh h) =
      assign_route-IsSound db s sound env user id route_id fresh h
  Step-IsSound {s} sound (updates_status env user id dto row fresh h) =
      update_status-IsSound db s sound env user id dto fresh h
  Step-IsSound {s} sound (accepts env user id row fresh h) =
      accept-IsSound db s sound env user id fresh h
  Step-IsSound {s} {s'} sound (removes env user id h) =
      absurd (remove-never db s sound env user id s' h)

  -- After any history from a sound state (a database with no shipments is one), the timestamps
  -- and events that the statuses promise are there, and a call of `remove` still fails.
  pub Reach-IsSound :
      {s s' : State db}
      → IsSound db s
      → Reach s s'
      → IsSound db s'
        × ((env : Ambient) (user : RequestUser) (id : ℕ) (t : State db)
            → remove db s' env user id ≢ ok t)
  Reach-IsSound sound start = (sound, λ env user id t. remove-never db _ sound env user id t)
  Reach-IsSound sound (next {u = u} r st) =
      let sound' = Step-IsSound (Reach-IsSound sound r).0 st in
      (sound', λ env user id t. remove-never db u sound' env user id t)
