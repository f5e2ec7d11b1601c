-- ===== src/Shipments/UpdateStatus/Effects.antt =====
-- Who may change a status, and what the change writes.
use egypt_supply_chain_visib.Base.{
  ℕ, ==_iff, ==_refl, ◌≡◌, ◌≢◌, refl, sym, subst, ◌⊎◌, true, Option, some, is_some, ok, arith,
}
use egypt_supply_chain_visib.Domain.{
  RequestUser, User, Shipment, ShipmentEvent, Checkpoint, carrier, admin, super_admin, cancelled,
  delivered, in_transit,
}
use egypt_supply_chain_visib.Store.Database.{Database, State, Ambient}
use egypt_supply_chain_visib.Shipments.Access.{find_user}
use egypt_supply_chain_visib.Shipments.Accept.{drives}
use egypt_supply_chain_visib.Shipments.UpdateStatus.{
  UpdateShipmentStatusDto, may_update_status, may_restore, valid_transition, next_shipment,
  status_event, save_status, update_status,
}
use egypt_supply_chain_visib.Shipments.Runs.{At, update_status_run, check_update_status_run}
use egypt_supply_chain_visib.Shipments.Timeline.{find_written}

-- The user is a super admin, belongs to the shipper's or the carrier's organization, or drives.
abbrev pub IsInvolved : RequestUser → User → Shipment → Type 0
IsInvolved user db_user shipment =
    (user.role ≡ super_admin)
    ⊎ ((shipment.shipper_organization_id ≡ db_user.organization_id)
        ⊎ ((shipment.carrier_organization_id ≡ some db_user.organization_id)
            ⊎ (shipment.carrier_user_id ≡ some db_user.user_id)))

pub record IsPermitted (user : RequestUser) (db_user : User) (shipment : Shipment) : Type 0 where
  pub involved : IsInvolved user db_user shipment
  pub own_shipment : user.role ≡ carrier → shipment.carrier_user_id ≡ some db_user.user_id
  pub restorer :
      shipment.shipment_status ≡ cancelled
      → (user.role ≡ super_admin)
        ⊎ ((db_user.user_role ≡ admin)
            × (db_user.organization_id ≡ shipment.shipper_organization_id))

may_update_status-IsInvolved :
    (user : RequestUser) (db_user : User) (shipment : Shipment)
    → may_update_status user db_user shipment ≡ true
    → IsInvolved user db_user shipment
unfolding may_update_status
may_update_status-IsInvolved user db_user shipment h = ground arith

may_update_status-carrier :
    (user : RequestUser) (db_user : User) (shipment : Shipment)
    → may_update_status user db_user shipment ≡ true
    → user.role ≡ carrier
    → shipment.carrier_user_id ≡ some db_user.user_id
unfolding may_update_status
may_update_status-carrier user db_user shipment h c = ground arith

may_restore-restorer :
    (user : RequestUser) (db_user : User) (shipment : Shipment)
    → may_restore user db_user shipment ≡ true
    → (user.role ≡ super_admin)
      ⊎ ((db_user.user_role ≡ admin) × (db_user.organization_id ≡ shipment.shipper_organization_id))
unfolding may_restore
may_restore-restorer user db_user shipment h = ground arith

-- Whoever changes a status is known and permitted to: a driver only where the shipment is theirs,
-- others only where their organization ships or carries it or they are super admin; and a cancelled
-- shipment is only touched by a super admin or an admin of the shipper's organization.
pub update_status-IsPermitted :
    (db : Database) (s s' : State db) (env : Ambient) (user : RequestUser) (id : ℕ)
    (dto : UpdateShipmentStatusDto) (row : Shipment)
    → update_status db s env user id dto ≡ ok (s', row)
    → (old : Shipment) × (db_user : User) × At db s id old
      × (find_user db s user.sub ≡ some db_user)
      × IsPermitted user db_user old
update_status-IsPermitted db s s' env user id dto row h =
    let (old, checkpoint, at, checked, known, e) = update_status_run db s env user id dto h in
    let (db_user, found, allowed, valid, restored) =
      check_update_status_run db s user old dto checked in
    (
      old,
      db_user,
      at,
      found,
      record {
        involved = may_update_status-IsInvolved user db_user old allowed;
        own_shipment = may_update_status-carrier user db_user old allowed;
        restorer = λ c. may_restore-restorer user db_user old (restored c);
      },
    )

-- What a change of status does to the row.
pub record IsMoved (now : ℕ) (dto : UpdateShipmentStatusDto) (old row : Shipment) : Type 0 where
  pub status : row.shipment_status ≡ dto.status
  pub allowed : valid_transition old.shipment_status dto.status ≡ true
  pub departure_kept :
      is_some old.shipment_actual_departure_at ≡ true
      → row.shipment_actual_departure_at ≡ old.shipment_actual_departure_at
  pub departure_set :
      old.shipment_actual_departure_at ≡ Option.none
      → dto.status ≡ in_transit
      → row.shipment_actual_departure_at ≡ some now
  pub arrival_set : dto.status ≡ delivered → row.shipment_actual_arrival_at ≡ some now
  pub arrival_kept :
      dto.status ≢ delivered → row.shipment_actual_arrival_at ≡ old.shipment_actual_arrival_at
  pub carrier_kept : row.carrier_organization_id ≡ old.carrier_organization_id
  pub driver_kept : row.carrier_user_id ≡ old.carrier_user_id

next_shipment-IsMoved :
    (now : ℕ) (checkpoint : Option Checkpoint) (dto : UpdateShipmentStatusDto) (old : Shipment)
    → valid_transition old.shipment_status dto.status ≡ true
    → IsMoved now dto old (next_shipment now checkpoint dto old)
unfolding next_shipment
next_shipment-IsMoved now checkpoint dto old h = record {
  status = refl;
  allowed = h;
  departure_kept = λ d. ground arith;
  departure_set = λ d t. ground arith;
  arrival_set = λ d. ground arith;
  arrival_kept = λ d. ground arith;
  carrier_kept = refl;
  driver_kept = refl;
}

-- The row is stored, every other shipment is as before, and an event of the new status is recorded.
pub record IsWritten (db : Database) (s s' : State db) (env : Ambient) (id : ℕ)
    (dto : UpdateShipmentStatusDto) (row : Shipment) : Type 0 where
  pub stored : At db s' id row
  pub others :
      (j : ℕ)
      → id ≢ j
      → db.shipments_table.find s'.shipments j ≡ db.shipments_table.find s.shipments j
  pub event : ShipmentEvent
  pub event_stored : db.events_table.find s'.events env.new_event_id ≡ some event
  pub event_owner : event.event_shipment_id ≡ id
  pub event_status : event.event_status ≡ dto.status

-- A restored shipment is neither cancelled nor, at once, delivered.
restored_drives :
    (old row : Shipment) (driver : ℕ) (dto : UpdateShipmentStatusDto) (now : ℕ)
    → IsMoved now dto old row
    → old.carrier_user_id ≡ some driver
    → old.shipment_status ≡ cancelled
    → dto.status ≢ cancelled
    → drives driver row ≡ true
unfolding valid_transition
restored_drives old row driver dto now moved mine gone back =
    ground (arith, ==_refl driver, moved.allowed, moved.status, moved.driver_kept)

module _ (db : Database) (s : State db) (env : Ambient) (user : RequestUser) (id : ℕ)
    (dto : UpdateShipmentStatusDto) (old row : Shipment) (checkpoint : Option Checkpoint) where
  save_status-IsWritten :
      IsWritten db s
        (save_status db s env user id dto old row (status_event env user id checkpoint dto))
        env
        id
        dto
        row
  unfolding save_status status_event
  save_status-IsWritten =
      let event = status_event env user id checkpoint dto in
      let s' = save_status db s env user id dto old row event in
      record {
        stored = ground (arith, find_written db s s' id row refl id, ==_refl id);
        others = λ j different. ground (arith, find_written db s s' id row refl j, ==_iff id j);
        event = event;
        event_stored = ground (
          arith,
          db.events_table.find-save s.events env.new_event_id env.new_event_id event,
          ==_refl env.new_event_id,
        );
        event_owner = refl;
        event_status = refl;
      }

pub update_status-IsMoved :
    (db : Database) (s s' : State db) (env : Ambient) (user : RequestUser) (id : ℕ)
    (dto : UpdateShipmentStatusDto) (row : Shipment)
    → update_status db s env user id dto ≡ ok (s', row)
    → (old : Shipment) × At db s id old
      × IsMoved env.now dto old row
      × IsWritten db s s' env id dto row
update_status-IsMoved db s s' env user id dto row h =
    let (old, checkpoint, at, checked, known, e) = update_status_run db s env user id dto h in
    let (db_user, found, allowed, valid, restored) =
      check_update_status_run db s user old dto checked in
    (
      old,
      at,
      subst (λ (r : State db × Shipment). IsMoved env.now dto old r.1) (sym e)
          (next_shipment-IsMoved env.now checkpoint dto old valid),
      subst (λ (r : State db × Shipment). IsWritten db s r.0 env id dto r.1) (sym e)
          (save_status-IsWritten db s env user id dto old (next_shipment env.now checkpoint dto old)
            checkpoint),
    )

-- Restoring a cancelled shipment gives its driver a second active one, whenever they have taken
-- another in the meantime: the rule that `accept` enforces is not kept.
pub restore_second_active :
    (db : Database) (s s' : State db) (env : Ambient) (user : RequestUser) (id j driver : ℕ)
    (dto : UpdateShipmentStatusDto) (old row other : Shipment)
    → At db s id old
    → old.carrier_user_id ≡ some driver
    → old.shipment_status ≡ cancelled
    → dto.status ≢ cancelled
    → id ≢ j
    → At db s j other
    → drives driver other ≡ true
    → update_status db s env user id dto ≡ ok (s', row)
    → At db s' id row × (drives driver row ≡ true) × At db s' j other
restore_second_active db s s' env user id j driver dto old row other at mine gone back different
      there driven h =
    let (found, at', moved, written) = update_status-IsMoved db s s' env user id dto row h in
    let same : found ≡ old = cc in
    (
      written.stored,
      restored_drives found row driver dto env.now moved (rw same mine) (rw same gone) back,
      ground (arith, written.others j different),
    )
