-- ===== src/Shipments/Accept.antt =====
-- `accept` of shipments.service.ts: a carrier claims a shipment. Every exception comes before the
-- first write.
pub mod Exclusive
use egypt_supply_chain_visib.Base.{
  ℕ, ◌==◌, ◌is◌, ltb, Bool, true, false, not, ◌&&◌, ◌||◌, none, some, String, ◌∷◌, if◌then◌else◌,
  Result, ok, forbidden, not_found, bad_request, conflict, throw_if, or_throw, ◌>>=◌, ◌>>◌,
}
use egypt_supply_chain_visib.Domain.{
  RequestUser, User, Shipment, draft, confirmed, delivered, cancelled, same_status,
  carrier_assigned, is_admin, is_carrier, is_super_admin, is_carrier_type,
}
use egypt_supply_chain_visib.Store.Messages.{
  AuditValue, shipment_event, key_accepted, audit_accept, driver, assignment, claim,
}
use egypt_supply_chain_visib.Store.Database.{Database, State, Ambient}
use egypt_supply_chain_visib.Shipments.Access.{find_user}
use egypt_supply_chain_visib.Shipments.Checks.{organization_type_of}

-- `notIn: ['delivered', 'cancelled']`
abbrev pub is_active : Shipment → Bool
is_active shipment = not (
    same_status shipment.shipment_status delivered
    || same_status shipment.shipment_status cancelled)

-- The `where` of `activeShipmentCount`.
abbrev pub drives : ℕ → Shipment → Bool
drives user_id shipment = shipment.carrier_user_id is user_id && is_active shipment

-- How a shipment stands to the caller's organization, as the last three branches see it.
pub data Claim : Type 0 where
  unclaimed claimed_by_organization already_mine taken_by_driver taken_by_organization : Claim

unfoldable pub claim_of : ℕ → ℕ → Shipment → Claim
claim_of organization_id user_id shipment = elim shipment.carrier_organization_id [
  | none ↦ unclaimed
  | some carrier ↦
      if carrier == organization_id
      then elim shipment.carrier_user_id [
        | none ↦ claimed_by_organization
        | some assigned ↦ if assigned == user_id then already_mine else taken_by_driver
      ]
      else taken_by_organization
]

abbrev pub is_taken_by_organization : Claim → Bool
is_taken_by_organization taken_by_organization = true
is_taken_by_organization _ = false

abbrev pub is_taken_by_driver : Claim → Bool
is_taken_by_driver taken_by_driver = true
is_taken_by_driver _ = false

-- The `data` of the two writes; `draft` becomes `confirmed` in the second alone.
unfoldable pub assign_driver : ℕ → Shipment → Shipment
assign_driver user_id shipment = record shipment { carrier_user_id = some user_id }

unfoldable pub claim_shipment : ℕ → ℕ → Shipment → Shipment
claim_shipment organization_id user_id shipment = record shipment {
  carrier_organization_id = some organization_id;
  carrier_user_id = some user_id;
  shipment_status =
      if same_status shipment.shipment_status draft then confirmed else shipment.shipment_status;
}

module _ (db : Database) (s : State db) where
  -- The guards, up to the three branches: the caller's row and the claim on the shipment.
  unfoldable pub check_accept : RequestUser → Shipment → Result (User × Claim)
  unfolding find_user organization_type_of claim_of
  check_accept user shipment = do
    throw_if (same_status shipment.shipment_status cancelled) bad_request
    throw_if (not (is_carrier user.role || is_admin user.role || is_super_admin user.role))
        forbidden
    db_user ← or_throw (find_user db s user.sub) not_found
    throw_if (is_super_admin db_user.user_role) forbidden
    throw_if (not (is_carrier_type (organization_type_of db s db_user))) forbidden
    let claim = claim_of db_user.organization_id user.sub shipment
    throw_if (is_taken_by_organization claim) forbidden
    throw_if (ltb 0 (db.shipments_table.count s.shipments (drives user.sub))) conflict
    throw_if (is_taken_by_driver claim) conflict
    ok (db_user, claim)

  unfoldable pub save_claim :
      Ambient → RequestUser → ℕ → Shipment → String → AuditValue → AuditValue → State db
  save_claim env user id updated description before after = record s {
    shipments = db.shipments_table.save s.shipments id updated;
    events = db.events_table.save s.events env.new_event_id (record {
      event_shipment_id = id;
      event_type = carrier_assigned;
      event_status = confirmed;
      event_description = some description;
      event_latitude = none;
      event_longitude = none;
      event_checkpoint_id = none;
      recorded_by_user_id = some user.sub;
      event_occurred_at = env.now;
    });
    published =
        shipment_event key_accepted (record {
          shipment_id = updated.shipment_id;
          reference_number = updated.shipment_reference_number;
          old_status = none;
          new_status = none;
          status = updated.shipment_status;
          route_id = none;
          event_id = none;
          occurred_at = env.now;
          latitude = none;
          longitude = none;
          estimated_arrival_at = updated.shipment_estimated_arrival_at;
          shipper_organization_id = updated.shipper_organization_id;
          carrier_organization_id = updated.carrier_organization_id;
          carrier_user_id = updated.carrier_user_id;
        })
        ∷ s.published;
    audited =
        record {
          action = audit_accept;
          resource_id = id;
          user_id = user.sub;
          old_value = before;
          new_value = after;
        }
        ∷ s.audited;
  }

  -- The branch for a shipment that the organization has claimed, with no driver yet.
  unfoldable pub accept_driver : Ambient → RequestUser → ℕ → Shipment → State db × Shipment
  unfolding assign_driver save_claim
  accept_driver env user id shipment =
      let updated = assign_driver user.sub shipment in
      (
        save_claim env user id updated "Carrier user assigned to this shipment"
            (driver shipment.carrier_user_id)
            (assignment updated.carrier_user_id updated.carrier_organization_id),
        updated,
      )

  -- The branch for a shipment that nobody has claimed.
  unfoldable pub accept_claim : Ambient → RequestUser → ℕ → ℕ → Shipment → State db × Shipment
  unfolding claim_shipment save_claim
  accept_claim env user organization_id id shipment =
      let updated = claim_shipment organization_id user.sub shipment in
      (
        save_claim env user id updated "Carrier user claimed this shipment"
            (claim shipment.carrier_organization_id shipment.carrier_user_id
              shipment.shipment_status)
            (claim updated.carrier_organization_id updated.carrier_user_id updated.shipment_status),
        updated,
      )

  -- The three branches; the claims of others have been refused.
  unfoldable pub accept_branch :
      Ambient → RequestUser → ℕ → ℕ → Shipment → Claim → State db × Shipment
  unfolding accept_driver accept_claim
  accept_branch env user organization_id id shipment already_mine = (s, shipment)
  accept_branch env user organization_id id shipment claimed_by_organization =
      accept_driver env user id shipment
  accept_branch env user organization_id id shipment _ =
      accept_claim env user organization_id id shipment

  unfoldable pub accept : Ambient → RequestUser → ℕ → Result (State db × Shipment)
  unfolding check_accept accept_branch
  accept env user id = do
    shipment ← or_throw (db.shipments_table.find s.shipments id) not_found
    checked ← check_accept user shipment
    ok (accept_branch env user checked.0.organization_id id shipment checked.1)
