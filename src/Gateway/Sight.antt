-- ===== src/Gateway/Sight.antt =====
-- Who is told of a shipment (`canViewShipment`) against who may open it (`enforceViewAccess`).
use egypt_supply_chain_visib.Base.{
  ==_refl, ◌≡◌, ◌≢◌, ◌⊎◌, true, none, some, ok, err, forbidden, arith,
}
use egypt_supply_chain_visib.Domain.{RequestUser, User, Shipment, carrier}
use egypt_supply_chain_visib.Store.Database.{Database, State}
use egypt_supply_chain_visib.Store.Messages.{ShipmentEventPayload}
use egypt_supply_chain_visib.Shipments.Access.{find_user, enforce_view_access}
use egypt_supply_chain_visib.Gateway.{SocketUser, can_view_shipment}

-- The payload is about the shipment.
pub record IsAbout (payload : ShipmentEventPayload) (shipment : Shipment) : Type 0 where
  pub same_shipper : payload.shipper_organization_id ≡ shipment.shipper_organization_id
  pub same_carrier : payload.carrier_organization_id ≡ shipment.carrier_organization_id
  pub same_driver : payload.carrier_user_id ≡ shipment.carrier_user_id

module _ (db : Database) (s : State db) (user : SocketUser) (db_user : User) (shipment : Shipment)
    (payload : ShipmentEventPayload) (found : find_user db s user.sub ≡ some db_user)
    (current : user.organization_id ≡ some db_user.organization_id)
    (about : IsAbout payload shipment) where
  -- The same user over HTTP.
  abbrev request_user : RequestUser
  request_user = record { sub = user.sub; role = user.role }

  -- A socket whose claims are those of its user's row is told of a shipment only if the user may
  -- open it, or if the user is a driver and no carrier has claimed the shipment.
  pub can_view_shipment-viewable :
      can_view_shipment (some user) payload ≡ true
      → (enforce_view_access db s request_user shipment ≡ ok tt)
        ⊎ ((user.role ≡ carrier) × (shipment.carrier_organization_id ≡ none))
  unfolding can_view_shipment enforce_view_access
  can_view_shipment-viewable seen =
      grind (arith, about.same_shipper, about.same_carrier, about.same_driver, ==_refl)

  -- A driver is told of a shipment that nobody has claimed, though findOne refuses it to the driver
  -- unless their organization ships it.
  pub can_view_unclaimed :
      user.role ≡ carrier
      → shipment.carrier_organization_id ≡ none
      → shipment.carrier_user_id ≡ none
      → shipment.shipper_organization_id ≢ db_user.organization_id
      → (can_view_shipment (some user) payload ≡ true)
        × (enforce_view_access db s request_user shipment ≡ err forbidden)
  unfolding can_view_shipment enforce_view_access
  can_view_unclaimed driving unclaimed no_driver not_shipper =
      ground (arith, about.same_shipper, about.same_carrier, about.same_driver)
