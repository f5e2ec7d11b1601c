-- ===== src/Examples/Sockets.antt =====
-- The theorems on sockets, applied to a socket of the driver.
use egypt_supply_chain_visib.Base.{
  ◌≡◌, ◌⊎◌, refl, true, none, some, List, [], ◌∷◌, All, ok, err, forbidden, arith,
}
use egypt_supply_chain_visib.Domain.{Shipment, carrier, in_transit}
use egypt_supply_chain_visib.Store.Messages.{ShipmentEventPayload}
use egypt_supply_chain_visib.Store.Database.{in_memory}
use egypt_supply_chain_visib.Shipments.Access.{find_user, enforce_view_access}
use egypt_supply_chain_visib.Sessions.{backend_in_memory}
use egypt_supply_chain_visib.Sessions.Tokens.{open_session, create_token_pair}
use egypt_supply_chain_visib.Sessions.Revocation.{logout}
use egypt_supply_chain_visib.Gateway.{
  SocketUser, SocketClaims, Socket, force_logout, can_view_shipment, handle_session_revoked,
  handle_connection, dismiss,
}
use egypt_supply_chain_visib.Gateway.Sight.{IsAbout, can_view_shipment-viewable, can_view_unclaimed}
use egypt_supply_chain_visib.Gateway.Logout.{IsOff, OthersKept, logout-disconnected}
use egypt_supply_chain_visib.Examples.Setup.{driver, driver_row, at_start, blank, given_up}
use egypt_supply_chain_visib.Examples.SignIns.{
  draw, cookie, driver_token, signed_in, signed_in-IsLinked, signed_in-IsKeyed,
}

abbrev driver_user : SocketUser
driver_user = record {
  sub = 2;
  email = none;
  role = carrier;
  organization_id = some 20;
  session_id = 101;
}

-- What is published when the shipment moves.
abbrev payload_of : Shipment → ShipmentEventPayload
payload_of shipment = record {
  shipment_id = shipment.shipment_id;
  reference_number = shipment.shipment_reference_number;
  old_status = none;
  new_status = some in_transit;
  status = in_transit;
  route_id = none;
  event_id = some 1;
  occurred_at = 1;
  latitude = none;
  longitude = none;
  estimated_arrival_at = none;
  shipper_organization_id = shipment.shipper_organization_id;
  carrier_organization_id = shipment.carrier_organization_id;
  carrier_user_id = shipment.carrier_user_id;
}

payload_of-IsAbout : (shipment : Shipment) → IsAbout (payload_of shipment) shipment
payload_of-IsAbout shipment = record {
  same_shipper = refl;
  same_carrier = refl;
  same_driver = refl;
}

can_view_shipment-viewable_example :
    (enforce_view_access in_memory at_start driver given_up ≡ ok tt)
    ⊎ ((carrier ≡ carrier) × (given_up.carrier_organization_id ≡ none))
unfolding find_user can_view_shipment
can_view_shipment-viewable_example =
    can_view_shipment-viewable in_memory at_start driver_user driver_row given_up
      (payload_of given_up) refl refl (payload_of-IsAbout given_up) refl

can_view_unclaimed_example :
    (can_view_shipment (some driver_user) (payload_of blank) ≡ true)
    × (enforce_view_access in_memory at_start driver blank ≡ err forbidden)
unfolding find_user
can_view_unclaimed_example =
    can_view_unclaimed in_memory at_start driver_user driver_row blank (payload_of blank) refl refl
      (payload_of-IsAbout blank) refl refl refl (omega arith)

abbrev one_socket : List Socket
one_socket =
    record { is_connected = true; user = some driver_user; user_rooms = 2 ∷ []; received = [] } ∷ []

logout-disconnected_example :
    ((logout backend_in_memory signed_in (draw 10) cookie).0.revoked ≡ (2, 101) ∷ [])
    × All (IsOff 2 101) (handle_session_revoked (2, 101) one_socket)
    × OthersKept 2 101 one_socket (handle_session_revoked (2, 101) one_socket)
    × ((claims : SocketClaims) (socket : Socket)
        → claims.sub ≡ some 2
        → claims.session_id ≡ some 101
        → handle_connection backend_in_memory
            (logout backend_in_memory signed_in (draw 10) cookie).0
            (some claims)
            socket
          ≡ dismiss force_logout socket)
unfolding create_token_pair open_session
logout-disconnected_example =
    logout-disconnected backend_in_memory signed_in (draw 10) signed_in-IsLinked signed_in-IsKeyed
      cookie 201 driver_token one_socket refl refl
