-- ===== src/Shipments/History/Statuses.antt =====
-- What a history does to the status of a shipment: it refines the state machine.
use egypt_supply_chain_visib.Shipments.History.Causes.{patch_shipment_status, Takes, Step-Takes}
use egypt_supply_chain_visib.Shipments.History.Next.{
  ComesNext, valid_transition-ComesNext, stays_delivered,
}
use egypt_supply_chain_visib.Base.{
  ℕ, ◌==◌, ==_iff, ◌≡◌, refl, ap, inl, inr, ◌⊎◌, true, Bool-cases, some, arith,
}
use egypt_supply_chain_visib.Domain.{RequestUser, Shipment, ShipmentStatus, delivered}
use egypt_supply_chain_visib.Store.Database.{Database, State, Ambient}
use egypt_supply_chain_visib.Shipments.Create.{insert_shipment}
use egypt_supply_chain_visib.Shipments.Update.{save_update}
use egypt_supply_chain_visib.Shipments.AssignRoute.{save_route}
use egypt_supply_chain_visib.Shipments.UpdateStatus.{
  valid_transition, next_shipment, status_event, save_status,
}
use egypt_supply_chain_visib.Shipments.Accept.{
  Claim, claimed_by_organization, already_mine, accept_branch, assign_driver, claim_shipment,
  save_claim,
}
use egypt_supply_chain_visib.Shipments.Runs.{
  At, create_run, update_run, assign_route_run, update_status_run, accept_run,
  check_update_status_run,
}
use egypt_supply_chain_visib.Shipments.Timeline.{IsSound, IsFresh, find_written}
use egypt_supply_chain_visib.Shipments.Timeline.Steps.{remove-never}
use egypt_supply_chain_visib.Shipments.History.{
  Step, creates, updates, assigns_route, updates_status, accepts, removes, Reach, start, next,
  Reach-IsSound,
}

claim_shipment-valid :
    (organization user : ℕ) (old : Shipment)
    → valid_transition old.shipment_status (claim_shipment organization user old).shipment_status
      ≡ true
unfolding claim_shipment valid_transition
claim_shipment-valid organization user old = ground arith

module _ (db : Database) where
  -- The shipment under `id` is still there, in the same status or in one that the state machine
  -- allows next.
  abbrev pub Moves : State db → ℕ → Shipment → Type 0
  Moves s' id old =
      (new : Shipment) × At db s' id new
      × (valid_transition old.shipment_status new.shipment_status ≡ true)

  valid_transition_refl : (a : ShipmentStatus) → valid_transition a a ≡ true
  unfolding valid_transition
  valid_transition_refl a = ground arith

  -- One row written, with a status that may follow.
  write-Moves :
      (s s' : State db) (id : ℕ) (old updated : Shipment)
      → s'.shipments ≡ db.shipments_table.save s.shipments id updated
      → At db s id old
      → valid_transition old.shipment_status updated.shipment_status ≡ true
      → (j : ℕ) (row : Shipment) → At db s j row
      → Moves s' j row
  write-Moves s s' id old updated written at valid j row there = elim (Bool-cases (id == j)) [
    | inl same ↦ (
      updated,
      ground (arith, find_written db s s' id updated written j),
      rw (row_is_old same) valid,
    )
    | inr other ↦ (
      row,
      ground (arith, find_written db s s' id updated written j),
      valid_transition_refl row.shipment_status,
    )
  ]
    where
      row_is_old : (id == j) ≡ true → row ≡ old
      row_is_old same = cc ((==_iff id j).0 same)

  stay : (s : State db) (j : ℕ) (row : Shipment) → At db s j row → Moves s j row
  stay s j row there = (row, there, valid_transition_refl row.shipment_status)

  create-Moves :
      (s : State db) (env : Ambient) (user : RequestUser) (row : Shipment)
      → IsFresh db s env
      → (j : ℕ) (old : Shipment) → At db s j old
      → Moves (insert_shipment db s env user row) j old
  unfolding insert_shipment
  create-Moves s env user row fresh j old there = (
    old,
    ground (
      arith,
      find_written db s (insert_shipment db s env user row) env.new_shipment_id row refl j,
      fresh.new_shipment,
      ==_iff env.new_shipment_id j,
    ),
    valid_transition_refl old.shipment_status,
  )

  accept_branch-Moves :
      (s : State db) (env : Ambient) (user : RequestUser) (organization id : ℕ) (old : Shipment)
      (claim : Claim)
      → At db s id old
      → (j : ℕ) (row : Shipment) → At db s j row
      → Moves (accept_branch db s env user organization id old claim).0 j row
  unfolding accept_branch save_claim assign_driver
  accept_branch-Moves s env user organization id old already_mine at j row there =
      stay s j row there
  accept_branch-Moves s env user organization id old claimed_by_organization at j row there =
      write-Moves s (accept_branch db s env user organization id old claimed_by_organization).0 id
        old (assign_driver user.sub old) refl at (valid_transition_refl old.shipment_status) j row
        there
  accept_branch-Moves s env user organization id old claim at j row there =
      write-Moves s (accept_branch db s env user organization id old claim).0 id old
        (claim_shipment organization user.sub old) refl at
        (claim_shipment-valid organization user.sub old) j row there

  Step-Moves :
      {s s' : State db}
      → IsSound db s
      → Step db s s'
      → (j : ℕ) (row : Shipment) → At db s j row
      → Moves s' j row
  unfolding save_update save_route save_status next_shipment
  Step-Moves {s} {s'} sound (creates env user dto made fresh h) j row there =
      let (db_user, checked, e) = create_run db s env user dto h in
      rw (ap (λ p. p.0) e) (create-Moves s env user _ fresh j row there)
  Step-Moves {s} {s'} sound (updates user id dto made h) j row there =
      let (old, updated, at, checked, patched, e) = update_run db s user id dto h in
      rw (ap (λ p. p.0) e) (
        write-Moves s (save_update db s user id old updated) id old updated refl at
          (rw (patch_shipment_status dto old updated patched)
            (valid_transition_refl old.shipment_status))
          j row there)
  Step-Moves {s} {s'} sound (assigns_route env user id route_id made fresh h) j row there =
      let (old, route, at, checked, known, e) = assign_route_run db s env user id route_id h in
      rw (ap (λ p. p.0) e) (
        write-Moves s (save_route db s env user id route_id old route) id old
          (record old { route_id = some route_id }) refl at
          (valid_transition_refl old.shipment_status) j row there)
  Step-Moves {s} {s'} sound (updates_status env user id dto made fresh h) j row there =
      let (old, checkpoint, at, checked, known, e) = update_status_run db s env user id dto h in
      let (db_user, found, allowed, valid, restored) =
        check_update_status_run db s user old dto checked in
      rw (ap (λ p. p.0) e) (
        write-Moves s
          (save_status db s env user id dto old (next_shipment env.now checkpoint dto old)
            (status_event env user id checkpoint dto))
          id old (next_shipment env.now checkpoint dto old) refl at valid j row there)
  Step-Moves {s} {s'} sound (accepts env user id made fresh h) j row there =
      let (old, db_user, claim, at, checked, e) = accept_run db s env user id h in
      rw (ap (λ p. p.0) e)
        (accept_branch-Moves s env user db_user.organization_id id old claim at j row there)
  Step-Moves {s} {s'} sound (removes env user id h) j row there =
      absurd (remove-never db s sound env user id s' h)

  -- The shipment under `id` is there after the call, in the same status, or the call is one that
  -- takes it to another that comes next.
  abbrev pub Follows : {s s' : State db} → Step db s s' → ℕ → Shipment → Type 0
  Follows {s' = s'} st id old =
      (new : Shipment) × At db s' id new
      × ((new.shipment_status ≡ old.shipment_status)
          ⊎ (ComesNext old.shipment_status new.shipment_status
              × Takes db st id old.shipment_status new.shipment_status))

  -- The shipment under `id` is there, delivered if it was, and whichever call is next, its status
  -- follows.
  abbrev pub Progress : State db → ℕ → Shipment → Type 0
  Progress s' id old =
      (mid : Shipment) × At db s' id mid
      × (old.shipment_status ≡ delivered → mid.shipment_status ≡ delivered)
      × ((later : State db) → (st : Step db s' later) → Follows st id mid)

  Step-Follows :
      {s s' : State db}
      → IsSound db s
      → (st : Step db s s') (id : ℕ) (old : Shipment) → At db s id old
      → Follows st id old
  Step-Follows {s} {s'} sound st id old there =
      let (new, at, move) = Step-Moves sound st id old there in
      (
        new,
        at,
        both (valid_transition-ComesNext old.shipment_status new.shipment_status move)
            (Step-Takes db sound st id old new there at),
      )
    where
      both : {Same Next Taken : Type 0} → Same ⊎ Next → Same ⊎ Taken → Same ⊎ (Next × Taken)
      both (inl same) taken = inl same
      both (inr comes) (inl same) = inl same
      both (inr comes) (inr taken) = inr (comes, taken)

  forget_cause : {Same Next Taken : Type 0} → Same ⊎ (Next × Taken) → Same ⊎ Next
  forget_cause (inl same) = inl same
  forget_cause (inr (comes, taken)) = inr comes

  -- Whatever successful calls follow a sound state, no shipment is lost, and a delivered one stays
  -- delivered; and in every state that is reached so, whichever successful call is the next, it
  -- leaves the status of a shipment, or takes it one step along the table of `ComesNext`: only as
  -- `updateStatus` of that shipment to the status that it asks for, or as `accept` of that shipment,
  -- from draft to confirmed.
  pub Reach-Progress :
      {s s' : State db}
      → IsSound db s
      → Reach db s s'
      → (id : ℕ) (old : Shipment) → At db s id old
      → Progress s' id old
  Reach-Progress sound start id old there =
      (old, there, λ e. e, λ later st. Step-Follows sound st id old there)
  Reach-Progress {s} {s'} sound (next {t} r st) id old there =
      let (mid, at, final, onward) = Reach-Progress sound r id old there in
      let (new, at', move) = onward s' st in
      (
        new,
        at',
        λ e. stays_delivered mid.shipment_status new.shipment_status (forget_cause move) (final e),
        λ later st'. Step-Follows (Reach-IsSound db sound (next {t = t} r st)).0 st' id new at',
      )
