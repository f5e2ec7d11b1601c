-- ===== src/Shipments/History/Causes.antt =====
-- Which call moves the status of a shipment: `updateStatus` of it, and `accept` of a draft.
use egypt_supply_chain_visib.Base.{
  ℕ, ◌==◌, ==_iff, ◌≡◌, refl, sym, ◌∙◌, subst, ap, inl, inr, ◌⊎◌, Bool-cases, true, some, arith, ok,
}
use egypt_supply_chain_visib.Domain.{
  RequestUser, Shipment, ShipmentStatus, draft, confirmed, same_status,
}
use egypt_supply_chain_visib.Store.Database.{Database, State, Ambient}
use egypt_supply_chain_visib.Shipments.Create.{insert_shipment}
use egypt_supply_chain_visib.Shipments.Update.{UpdateShipmentDto, patch_shipment, save_update}
use egypt_supply_chain_visib.Shipments.AssignRoute.{save_route}
use egypt_supply_chain_visib.Shipments.UpdateStatus.{next_shipment, status_event, save_status}
use egypt_supply_chain_visib.Shipments.Accept.{
  Claim, claimed_by_organization, already_mine, accept_branch, assign_driver, claim_shipment,
  save_claim,
}
use egypt_supply_chain_visib.Shipments.Runs.{
  At, create_run, update_run, assign_route_run, update_status_run, accept_run,
}
use egypt_supply_chain_visib.Shipments.Timeline.{IsSound, IsFresh, find_written}
use egypt_supply_chain_visib.Shipments.Timeline.Steps.{remove-never}
use egypt_supply_chain_visib.Shipments.History.{
  Step, creates, updates, assigns_route, updates_status, accepts, removes,
}

pub patch_shipment_status :
    (dto : UpdateShipmentDto) (old updated : Shipment)
    → patch_shipment dto old ≡ ok updated
    → updated.shipment_status ≡ old.shipment_status
unfolding patch_shipment
patch_shipment_status dto old updated h = ground arith

-- A claim confirms a draft and leaves the status of any other.
claim_shipment_status :
    (organization user : ℕ) (old : Shipment)
    → ((claim_shipment organization user old).shipment_status ≡ old.shipment_status)
      ⊎ ((old.shipment_status ≡ draft)
          × ((claim_shipment organization user old).shipment_status ≡ confirmed))
unfolding claim_shipment
claim_shipment_status organization user old =
    elim (Bool-cases (same_status old.shipment_status draft)) [
      | inl is_draft ↦ inr (drafted old.shipment_status is_draft, rw is_draft refl)
      | inr other ↦ inl (rw other refl)
    ]
  where
    drafted : (a : ShipmentStatus) → same_status a draft ≡ true → a ≡ draft
    drafted a h = ground arith

module _ (db : Database) where
  -- The call is one that takes the shipment from the one status to the other.
  abbrev pub Takes : {s s' : State db} → Step db s s' → ℕ → ShipmentStatus → ShipmentStatus → Type 0
  Takes (creates env user dto made fresh h) j old new = ⊥
  Takes (updates user id dto made h) j old new = ⊥
  Takes (assigns_route env user id route_id made fresh h) j old new = ⊥
  Takes (updates_status env user id dto made fresh h) j old new = (id ≡ j) × (new ≡ dto.status)
  Takes (accepts env user id made fresh h) j old new = (id ≡ j) × (old ≡ draft) × (new ≡ confirmed)
  Takes (removes env user id h) j old new = ⊥

  -- One row written.
  write-cause :
      (s s' : State db) (id : ℕ) (old updated : Shipment) (Cause : ShipmentStatus → Type 0)
      → s'.shipments ≡ db.shipments_table.save s.shipments id updated
      → At db s id old
      → (j : ℕ) (row new : Shipment) → At db s j row
      → At db s' j new
      → (id ≡ j
          → old ≡ row
          → (updated.shipment_status ≡ old.shipment_status) ⊎ Cause updated.shipment_status)
      → (new.shipment_status ≡ row.shipment_status) ⊎ Cause new.shipment_status
  write-cause s s' id old updated Cause written at j row new there after cause =
      elim (Bool-cases (id == j)) [
        | inl same ↦
            let here : id ≡ j = (==_iff id j).0 same in
            let one : old ≡ row = cc in
            let is_new : updated ≡ new =
              ground (arith, find_written db s s' id updated written j) in
            subst
              (λ (x : Shipment).
                (x.shipment_status ≡ row.shipment_status) ⊎ Cause x.shipment_status)
              is_new
              (subst
                (λ (x : Shipment).
                  (updated.shipment_status ≡ x.shipment_status) ⊎ Cause updated.shipment_status)
                one (cause here one))
        | inr other ↦
            let kept : row ≡ new = ground (arith, find_written db s s' id updated written j) in
            inl (ap (λ (x : Shipment). x.shipment_status) (sym kept))
      ]

  -- The new row's status under a claim, by what the claim was of.
  accept_branch-cause :
      (s : State db) (env : Ambient) (user : RequestUser) (organization id : ℕ) (old : Shipment)
      (claim : Claim)
      → At db s id old
      → (j : ℕ) (row new : Shipment) → At db s j row
      → At db (accept_branch db s env user organization id old claim).0 j new
      → (new.shipment_status ≡ row.shipment_status)
        ⊎ ((id ≡ j) × (row.shipment_status ≡ draft) × (new.shipment_status ≡ confirmed))
  unfolding accept_branch save_claim assign_driver
  accept_branch-cause s env user organization id old already_mine at j row new there after =
      let kept : row ≡ new = cc in inl (ap (λ (x : Shipment). x.shipment_status) (sym kept))
  accept_branch-cause s env user organization id old claimed_by_organization at j row new there
        after =
      write-cause s (accept_branch db s env user organization id old claimed_by_organization).0 id
        old (assign_driver user.sub old)
        (λ x. (id ≡ j) × (row.shipment_status ≡ draft) × (x ≡ confirmed)) refl at j row new there
        after (λ here one. inl refl)
  accept_branch-cause s env user organization id old claim at j row new there after =
      write-cause s (accept_branch db s env user organization id old claim).0 id old
        (claim_shipment organization user.sub old)
        (λ x. (id ≡ j) × (row.shipment_status ≡ draft) × (x ≡ confirmed)) refl at j row new there
        after
        (λ here one. elim (claim_shipment_status organization user.sub old) [
          | inl same ↦ inl same
          | inr (was, now) ↦
              inr (here, ap (λ (x : Shipment). x.shipment_status) (sym one) ∙ was, now)
        ])

  create-kept :
      (s : State db) (env : Ambient) (user : RequestUser) (made : Shipment)
      → IsFresh db s env
      → (j : ℕ) (row new : Shipment) → At db s j row
      → At db (insert_shipment db s env user made) j new
      → new.shipment_status ≡ row.shipment_status
  unfolding insert_shipment
  create-kept s env user made fresh j row new there after =
      let kept : row ≡ new = ground (
        arith,
        find_written db s (insert_shipment db s env user made) env.new_shipment_id made refl j,
        fresh.new_shipment,
        ==_iff env.new_shipment_id j,
      ) in
      ap (λ (x : Shipment). x.shipment_status) (sym kept)

  pub Step-Takes :
      {s s' : State db}
      → IsSound db s
      → (st : Step db s s') (j : ℕ) (row new : Shipment) → At db s j row
      → At db s' j new
      → (new.shipment_status ≡ row.shipment_status)
        ⊎ Takes st j row.shipment_status new.shipment_status
  unfolding insert_shipment save_update save_route save_status next_shipment
  Step-Takes {s} {s'} sound (creates env user dto made fresh h) j row new there after =
      let (db_user, checked, e) = create_run db s env user dto h in
      inl (
        create-kept s env user _ fresh j row new there
          (subst (λ (x : State db). At db x j new) (ap (λ p. p.0) e) after))
  Step-Takes {s} {s'} sound (updates user id dto made h) j row new there after =
      let (old, updated, at, checked, patched, e) = update_run db s user id dto h in
      write-cause s (save_update db s user id old updated) id old updated (λ x. ⊥) refl at j row new
        there (subst (λ (x : State db). At db x j new) (ap (λ p. p.0) e) after)
        (λ here one. inl (patch_shipment_status dto old updated patched))
  Step-Takes {s} {s'} sound (assigns_route env user id route_id made fresh h) j row new there
        after =
      let (old, route, at, checked, known, e) = assign_route_run db s env user id route_id h in
      write-cause s (save_route db s env user id route_id old route) id old
        (record old { route_id = some route_id }) (λ x. ⊥) refl at j row new there
        (subst (λ (x : State db). At db x j new) (ap (λ p. p.0) e) after) (λ here one. inl refl)
  Step-Takes {s} {s'} sound (updates_status env user id dto made fresh h) j row new there after =
      let (old, checkpoint, at, checked, known, e) = update_status_run db s env user id dto h in
      write-cause s
        (save_status db s env user id dto old (next_shipment env.now checkpoint dto old)
          (status_event env user id checkpoint dto))
        id old (next_shipment env.now checkpoint dto old) (λ x. (id ≡ j) × (x ≡ dto.status)) refl at
        j row new there (subst (λ (x : State db). At db x j new) (ap (λ p. p.0) e) after)
        (λ here one. inr (here, refl))
  Step-Takes {s} {s'} sound (accepts env user id made fresh h) j row new there after =
      let (old, db_user, claim, at, checked, e) = accept_run db s env user id h in
      accept_branch-cause s env user db_user.organization_id id old claim at j row new there
        (subst (λ (x : State db). At db x j new) (ap (λ p. p.0) e) after)
  Step-Takes {s} {s'} sound (removes env user id h) j row new there after =
      absurd (remove-never db s sound env user id s' h)
