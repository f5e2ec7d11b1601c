-- ===== src/Shipments/Runs.antt =====
-- What a successful call of the service has read, checked and written.
use egypt_supply_chain_visib.Base.{
  throw_if, foreign_key, ltb, ap, sym, ◌∙◌, not, ◌&&◌, true, false, Bool, conflict, forbidden,
  not-eq-false, throw_if-eq-ok, ok-injective, arith, throw_if, ℕ, ◌≡◌, Option, some, ok, not_found,
  bad_request, bind-eq-ok, guard-eq-ok, or_throw-eq-ok,
}
use egypt_supply_chain_visib.Shipments.Access.{find_user, enforce_edit_access}
use egypt_supply_chain_visib.Shipments.Remove.{remove, delete_shipment, is_event_of}
use egypt_supply_chain_visib.Shipments.Checks.{organization_type_of}
use egypt_supply_chain_visib.Domain.{
  same_status, cancelled, draft, is_carrier_type, RequestUser, User, Route, Checkpoint, Shipment,
}
use egypt_supply_chain_visib.Store.Database.{Database, State, Ambient}
use egypt_supply_chain_visib.Shipments.Create.{
  CreateShipmentDto, create, check_create, new_shipment, insert_shipment,
}
use egypt_supply_chain_visib.Shipments.Update.{
  UpdateShipmentDto, update, check_update, patch_shipment, save_update,
}
use egypt_supply_chain_visib.Shipments.AssignRoute.{assign_route, check_assign_route, save_route}
use egypt_supply_chain_visib.Shipments.UpdateStatus.{
  UpdateShipmentStatusDto, update_status, may_update_status, may_restore, valid_transition,
  check_update_status, find_checkpoint, next_shipment, status_event, save_status,
}
use egypt_supply_chain_visib.Shipments.Accept.{
  Claim, claim_of, drives, is_taken_by_organization, is_taken_by_driver, accept, check_accept,
  accept_branch,
}

module _ (db : Database) (s : State db) where
  -- The row under an identifier.
  abbrev pub At : ℕ → Shipment → Type 0
  At id shipment = db.shipments_table.find s.shipments id ≡ some shipment

  pub create_run :
      (env : Ambient) (user : RequestUser) (dto : CreateShipmentDto) {r : State db × Shipment}
      → create db s env user dto ≡ ok r
      → (db_user : User) × (check_create db s user dto ≡ ok db_user)
        × (r ≡ (
          insert_shipment db s env user (new_shipment env user db_user dto),
          new_shipment env user db_user dto,
        ))
  unfolding create
  create_run env user dto h =
      let (db_user, checked, done) = bind-eq-ok (check_create db s user dto) _ h in
      (db_user, checked, cc)

  pub update_run :
      (user : RequestUser) (id : ℕ) (dto : UpdateShipmentDto) {r : State db × Shipment}
      → update db s user id dto ≡ ok r
      → (old : Shipment) × (updated : Shipment) × At id old
        × (check_update db s user old dto ≡ ok tt)
        × (patch_shipment dto old ≡ ok updated)
        × (r ≡ (save_update db s user id old updated, updated))
  unfolding update
  update_run user id dto h =
      let (old, found, h') = bind-eq-ok _ _ h in
      let (checked, h'') = guard-eq-ok _ _ h' in
      let (updated, patched, done) = bind-eq-ok _ _ h'' in
      (old, updated, or_throw-eq-ok _ not_found found, checked, patched, cc)

  pub assign_route_run :
      (env : Ambient) (user : RequestUser) (id route_id : ℕ) {r : State db × Shipment}
      → assign_route db s env user id route_id ≡ ok r
      → (old : Shipment) × (route : Route) × At id old
        × (check_assign_route db s user old ≡ ok tt)
        × (db.routes_table.find s.routes route_id ≡ some route)
        × (r ≡ (
          save_route db s env user id route_id old route,
          record old { route_id = some route_id },
        ))
  unfolding assign_route
  assign_route_run env user id route_id h =
      let (old, found, h') = bind-eq-ok _ _ h in
      let (checked, h'') = guard-eq-ok _ _ h' in
      let (route, known, done) = bind-eq-ok _ _ h'' in
      (
        old,
        route,
        or_throw-eq-ok _ not_found found,
        checked,
        or_throw-eq-ok _ bad_request known,
        cc,
      )

  pub update_status_run :
      (env : Ambient) (user : RequestUser) (id : ℕ) (dto : UpdateShipmentStatusDto)
      {r : State db × Shipment}
      → update_status db s env user id dto ≡ ok r
      → (old : Shipment) × (checkpoint : Option Checkpoint) × At id old
        × (check_update_status db s user old dto ≡ ok tt)
        × (find_checkpoint db s dto.checkpoint_id ≡ ok checkpoint)
        × (r ≡ (
          save_status db s env user id dto old
              (next_shipment env.now checkpoint dto old)
              (status_event env user id checkpoint dto),
          next_shipment env.now checkpoint dto old,
        ))
  unfolding update_status
  update_status_run env user id dto h =
      let (old, found, h') = bind-eq-ok _ _ h in
      let (checked, h'') = guard-eq-ok _ _ h' in
      let (checkpoint, known, done) = bind-eq-ok _ _ h'' in
      (old, checkpoint, or_throw-eq-ok _ not_found found, checked, known, cc)

  pub accept_run :
      (env : Ambient) (user : RequestUser) (id : ℕ) {r : State db × Shipment}
      → accept db s env user id ≡ ok r
      → (old : Shipment) × (db_user : User) × (claim : Claim) × At id old
        × (check_accept db s user old ≡ ok (db_user, claim))
        × (r ≡ accept_branch db s env user db_user.organization_id id old claim)
  unfolding accept
  accept_run env user id h =
      let (old, found, h') = bind-eq-ok _ _ h in
      let (checked, passed, done) = bind-eq-ok _ _ h' in
      (old, checked.0, checked.1, or_throw-eq-ok _ not_found found, passed, cc)

  -- The guards of `updateStatus`, once passed.
  pub check_update_status_run :
      (user : RequestUser) (shipment : Shipment) (dto : UpdateShipmentStatusDto)
      → check_update_status db s user shipment dto ≡ ok tt
      → (db_user : User) × (find_user db s user.sub ≡ some db_user)
        × (may_update_status user db_user shipment ≡ true)
        × (valid_transition shipment.shipment_status dto.status ≡ true)
        × (shipment.shipment_status ≡ cancelled → may_restore user db_user shipment ≡ true)
  unfolding check_update_status
  check_update_status_run user shipment dto h =
      let (db_user, found, h') = bind-eq-ok _ _ h in
      let (allowed, h'') = guard-eq-ok _ _ h' in
      let (valid, restored) = guard-eq-ok _ _ h'' in
      (
        db_user,
        or_throw-eq-ok _ not_found found,
        not-eq-false _ (throw_if-eq-ok _ forbidden allowed),
        not-eq-false _ (throw_if-eq-ok _ bad_request valid),
        λ e. restore (may_restore user db_user shipment) e restored,
      )
    where
      restore :
          (b : Bool)
          → shipment.shipment_status ≡ cancelled
          → throw_if (same_status shipment.shipment_status cancelled && not b) forbidden ≡ ok tt
          → b ≡ true
      restore b e g = ground arith

  -- The guards of `accept`, once passed.
  pub check_accept_run :
      (user : RequestUser) (shipment : Shipment) {db_user : User} {claim : Claim}
      → check_accept db s user shipment ≡ ok (db_user, claim)
      → (find_user db s user.sub ≡ some db_user)
        × (same_status shipment.shipment_status cancelled ≡ false)
        × (is_carrier_type (organization_type_of db s db_user) ≡ true)
        × (claim ≡ claim_of db_user.organization_id user.sub shipment)
        × (is_taken_by_organization claim ≡ false)
        × (ltb 0 (db.shipments_table.count s.shipments (drives user.sub)) ≡ false)
        × (is_taken_by_driver claim ≡ false)
  unfolding check_accept
  check_accept_run user shipment {db_user} {claim} h =
      let (live, h₁) = guard-eq-ok _ _ h in
      let (role, h₂) = guard-eq-ok _ _ h₁ in
      let (row, found, h₃) = bind-eq-ok _ _ h₂ in
      let (acting, h₄) = guard-eq-ok _ _ h₃ in
      let (carrier, h₅) = guard-eq-ok _ _ h₄ in
      let (ours, h₆) = guard-eq-ok _ _ h₅ in
      let (idle, h₇) = guard-eq-ok _ _ h₆ in
      let (untaken, done) = guard-eq-ok _ _ h₇ in
      let same_row : row ≡ db_user = ap (λ p. p.0) (ok-injective done) in
      let same_claim : claim_of row.organization_id user.sub shipment ≡ claim =
        ap (λ p. p.1) (ok-injective done) in
      (
        or_throw-eq-ok _ not_found found ∙ ap some same_row,
        throw_if-eq-ok _ bad_request live,
        rw (← same_row) (not-eq-false _ (throw_if-eq-ok _ forbidden carrier)),
        rw (← same_row) (sym same_claim),
        rw (← same_claim) (throw_if-eq-ok _ forbidden ours),
        throw_if-eq-ok _ conflict idle,
        rw (← same_claim) (throw_if-eq-ok _ conflict untaken),
      )

  pub remove_run :
      (env : Ambient) (user : RequestUser) (id : ℕ) {r : State db}
      → remove db s env user id ≡ ok r
      → (old : Shipment) × At id old
        × (enforce_edit_access db s user old ≡ ok tt)
        × (same_status old.shipment_status draft ≡ true)
        × (ltb 0 (db.events_table.count s.events (is_event_of id)) ≡ false)
        × (r ≡ delete_shipment db s env user id old)
  unfolding remove
  remove_run env user id h =
      let (old, found, h₁) = bind-eq-ok _ _ h in
      let (editable, h₂) = guard-eq-ok _ _ h₁ in
      let (drafted, h₃) = guard-eq-ok _ _ h₂ in
      let (unreferenced, done) = guard-eq-ok _ _ h₃ in
      (
        old,
        or_throw-eq-ok _ not_found found,
        editable,
        not-eq-false _ (throw_if-eq-ok _ bad_request drafted),
        throw_if-eq-ok _ foreign_key unreferenced,
        cc,
      )
