-- ===== src/Shipments/Accept/Exclusive.antt =====
-- A driver has one active shipment at a time, as far as `accept` sees to it.
use egypt_supply_chain_visib.Base.{
  ℕ, ◌==◌, ==_iff, ==_refl, ltb, ◌≡◌, refl, sym, subst, ◌≢◌, inl, inr, true, false, Bool-cases,
  some, arith, ok,
}
use egypt_supply_chain_visib.Domain.{RequestUser, Shipment}
use egypt_supply_chain_visib.Store.Database.{Database, State, Ambient}
use egypt_supply_chain_visib.Shipments.Accept.{
  Claim, claimed_by_organization, already_mine, is_active, drives, claim_of, assign_driver,
  claim_shipment, save_claim, accept, accept_branch,
}
use egypt_supply_chain_visib.Shipments.Runs.{At, accept_run, check_accept_run}
use egypt_supply_chain_visib.Shipments.Timeline.{find_written}

-- No row is counted, so none is selected.
count_zero :
    (db : Database) (s : State db) (user j : ℕ) (row : Shipment)
    → ltb 0 (db.shipments_table.count s.shipments (drives user)) ≡ false
    → At db s j row
    → drives user row ≡ false
count_zero db s user j row none_active at = elim (Bool-cases (drives user row)) [
  | inl driven ↦
      absurd
        (ground (arith, db.shipments_table.count_pos s.shipments (drives user) j row at driven))
  | inr idle ↦ idle
]

-- What `accept` promises of the state and the row that it returns.
abbrev pub IsSoleDriver : (db : Database) → State db → ℕ → ℕ → Shipment → Type 0
IsSoleDriver db s user id row =
    At db s id row
    × (row.carrier_user_id ≡ some user)
    × ((j : ℕ) (other : Shipment) → At db s j other → drives user other ≡ true → j ≡ id)

module _ (db : Database) (s : State db) (user : ℕ)
    (none_active : ltb 0 (db.shipments_table.count s.shipments (drives user)) ≡ false) where
  write-IsSoleDriver :
      (s' : State db) (id : ℕ) (updated : Shipment)
      → s'.shipments ≡ db.shipments_table.save s.shipments id updated
      → updated.carrier_user_id ≡ some user
      → IsSoleDriver db s' user id updated
  write-IsSoleDriver s' id updated written mine = (
    ground (arith, find_written db s s' id updated written id, ==_refl id),
    mine,
    λ j other at driven. elim (Bool-cases (id == j)) [
      | inl same ↦ sym ((==_iff id j).0 same)
      | inr different ↦ absurd (
          ground (
            arith,
            count_zero db s user j other none_active
                (ground (arith, find_written db s s' id updated written j)),
          ))
    ],
  )

  unchanged-IsSoleDriver :
      (id : ℕ) (row : Shipment)
      → At db s id row
      → row.carrier_user_id ≡ some user
      → IsSoleDriver db s user id row
  unchanged-IsSoleDriver id row at mine = (
    at,
    mine,
    λ j other there driven. absurd (ground (arith, count_zero db s user j other none_active there)),
  )

already_mine-driver :
    (organization user : ℕ) (row : Shipment)
    → already_mine ≡ claim_of organization user row
    → row.carrier_user_id ≡ some user
unfolding claim_of
already_mine-driver organization user row e = ground arith

module _ (db : Database) (s : State db) (env : Ambient) (user : RequestUser)
    (none_active : ltb 0 (db.shipments_table.count s.shipments (drives user.sub)) ≡ false) where
  branch-IsSoleDriver :
      (organization id : ℕ) (old : Shipment) (claim : Claim)
      → At db s id old
      → claim ≡ claim_of organization user.sub old
      → let r = accept_branch db s env user organization id old claim in
        IsSoleDriver db r.0 user.sub id r.1
  unfolding accept_branch assign_driver claim_shipment save_claim
  branch-IsSoleDriver organization id old already_mine at e =
      unchanged-IsSoleDriver db s user.sub none_active id old at
        (already_mine-driver organization user.sub old e)
  branch-IsSoleDriver organization id old claimed_by_organization at e =
      write-IsSoleDriver db s user.sub none_active
        (accept_branch db s env user organization id old claimed_by_organization).0 id
        (assign_driver user.sub old) refl refl
  branch-IsSoleDriver organization id old claim at e =
      write-IsSoleDriver db s user.sub none_active
        (accept_branch db s env user organization id old claim).0 id
        (claim_shipment organization user.sub old) refl refl

-- After a successful `accept` the caller drives the shipment that it returns, the row is stored,
-- and no other shipment is an active one of theirs.
pub accept-IsSoleDriver :
    (db : Database) (s s' : State db) (env : Ambient) (user : RequestUser) (id : ℕ) (row : Shipment)
    → accept db s env user id ≡ ok (s', row)
    → IsSoleDriver db s' user.sub id row
accept-IsSoleDriver db s s' env user id row h =
    let (old, db_user, claim, at, checked, e) = accept_run db s env user id h in
    let (found, live, carrier, claimed, untaken, idle, free) =
      check_accept_run db s user old checked in
    subst (λ (r : State db × Shipment). IsSoleDriver db r.0 user.sub id r.1) (sym e)
      (branch-IsSoleDriver db s env user idle db_user.organization_id id old claim at claimed)

-- A driver with an active shipment cannot accept any.
accept_busy :
    (db : Database) (s : State db) (env : Ambient) (user : RequestUser) (id j : ℕ) (mine : Shipment)
    → At db s j mine
    → drives user.sub mine ≡ true
    → (r : State db × Shipment) → accept db s env user id ≢ ok r
accept_busy db s env user id j mine at driven r h =
    let (old, db_user, claim, there, checked, e) = accept_run db s env user id h in
    let (found, live, carrier, claimed, untaken, idle, free) =
      check_accept_run db s user old checked in
    cc (count_zero db s user.sub j mine idle at, driven)

-- Once a caller has accepted a shipment that is not delivered, no further call of `accept` by them
-- succeeds, for that shipment or another: the branch that returns a shipment which is already
-- theirs is reached only when that shipment is delivered.
accept_twice :
    (db : Database) (s s' : State db) (env env' : Ambient) (user : RequestUser) (id id' : ℕ)
    (row : Shipment)
    → accept db s env user id ≡ ok (s', row)
    → is_active row ≡ true
    → (r : State db × Shipment) → accept db s' env' user id' ≢ ok r
accept_twice db s s' env env' user id id' row h active r =
    let (at, mine, sole) = accept-IsSoleDriver db s s' env user id row h in
    accept_busy db s' env' user id' id row at (ground (arith, ==_refl user.sub)) r
