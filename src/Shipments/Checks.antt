-- ===== src/Shipments/Checks.antt =====
-- The checks that `create` and `update` of shipments.service.ts share.
use egypt_supply_chain_visib.Base.{
  ℕ, ◌==◌, leb, Bool, false, Option, none, some, Result, ok, bad_request, throw_if, or_throw, ◌>>=◌,
  ◌>>◌,
}
use egypt_supply_chain_visib.Domain.{OrganizationType, User}
use egypt_supply_chain_visib.Store.Database.{Database, State}

-- `newDeparture && newArrival && newArrival <= newDeparture`
abbrev pub dates_out_of_order : Option ℕ → Option ℕ → Bool
dates_out_of_order (some departure) (some arrival) = leb arrival departure
dates_out_of_order _ _ = false

module _ (db : Database) (s : State db) where
  -- `dbUser.organization?.organization_type`
  unfoldable pub organization_type_of : User → Option OrganizationType
  organization_type_of user =
      elim (db.organizations_table.find s.organizations user.organization_id) [
        | none ↦ none
        | some organization ↦ some organization.organization_type
      ]

  -- A carrier organization, if one is given, exists and is not the shipper's own.
  unfoldable pub check_carrier : Option ℕ → ℕ → Result (Unit {0})
  check_carrier none shipper = ok tt
  check_carrier (some carrier) shipper = do
    throw_if (carrier == shipper) bad_request
    organization ← or_throw (db.organizations_table.find s.organizations carrier) bad_request
    ok tt

  -- A route, if one is given, exists.
  unfoldable pub check_route : Option ℕ → Result (Unit {0})
  check_route none = ok tt
  check_route (some route) = do
    found ← or_throw (db.routes_table.find s.routes route) bad_request
    ok tt
