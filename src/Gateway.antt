-- ===== src/Gateway.antt =====
-- The sockets of websocket/websocket.gateway.ts, and the messages that websocket.consumer.ts hands
-- to it. A socket that has been disconnected stays in the list with its flag down.
pub mod Sight
pub mod Logout
use egypt_supply_chain_visib.Base.{
  ℕ, ◌==◌, ◌is◌, any, Bool, true, false, not, ◌&&◌, ◌||◌, Option, none, some, is_some, String, List,
  [], ◌∷◌, map, if◌then◌else◌,
}
use egypt_supply_chain_visib.Domain.{
  Role, shipper, carrier, admin, org_admin, regulator, super_admin, other_role,
}
use egypt_supply_chain_visib.Store.Messages.{ShipmentEventPayload}
use egypt_supply_chain_visib.Sessions.{Backend, SessionState}

pub record SocketUser : Type 0 where
  pub sub : ℕ
  pub email : Option String
  pub role : Role
  pub organization_id : Option ℕ
  pub session_id : ℕ

-- The claims that `verifyAsync` gives; one of another type is `none`.
pub record SocketClaims : Type 0 where
  pub sub : Option ℕ
  pub email : Option String
  pub role : Option Role
  pub organization_id : Option ℕ
  pub session_id : Option ℕ

-- What a client receives; an alert is known by its id.
pub data Emission : Type 0 where
  shipment_updated : ShipmentEventPayload → Emission
  alert_new : ℕ → Emission
  force_logout auth_required : Emission

-- `user_rooms` are the rooms `user:<id>` that it joined; `received` has the newest first.
pub record Socket : Type 0 where
  pub is_connected : Bool
  pub user : Option SocketUser
  pub user_rooms : List ℕ
  pub received : List Emission

-- `emit`, to a client that is connected, then `disconnect(true)`.
abbrev pub dismiss : Emission → Socket → Socket
dismiss emission socket = record socket {
  is_connected = false;
  received = emission ∷ socket.received;
}

abbrev pub send : Emission → Socket → Socket
send emission socket = record socket { received = emission ∷ socket.received }

-- `payload.role ?? 'user'`
abbrev pub role_or : Option Role → Role
role_or none = other_role ""
role_or (some role) = role

-- `handleConnection` once both claims are there.
unfoldable pub admit : (b : Backend) → SessionState b → SocketUser → Socket → Socket
admit b s user socket =
    if b.sessions_store.is_member s.sessions user.sub user.session_id
    then record socket { user = some user; user_rooms = user.sub ∷ socket.user_rooms }
    else dismiss force_logout socket

-- `handleConnection`; the claims are `none` where there is no token or it does not verify.
unfoldable pub handle_connection :
    (b : Backend) → SessionState b → Option SocketClaims → Socket → Socket
unfolding admit
handle_connection b s none socket = dismiss auth_required socket
handle_connection b s (some claims) socket = elim claims.sub [
  | none ↦ dismiss auth_required socket
  | some sub ↦ elim claims.session_id [
    | none ↦ dismiss auth_required socket
    | some session ↦
        admit b s
          (record {
            sub = sub;
            email = claims.email;
            role = role_or claims.role;
            organization_id = claims.organization_id;
            session_id = session;
          })
          socket
  ]
]

-- `===` of two identifiers that may be null.
abbrev pub same_id : Option ℕ → Option ℕ → Bool
same_id none none = true
same_id none (some j) = false
same_id (some i) o = o is i

unfoldable pub can_view_shipment : Option SocketUser → ShipmentEventPayload → Bool
can_view_shipment none payload = false
can_view_shipment (some user) payload = elim user.role [
  | super_admin ↦ true
  | regulator ↦ true
  | shipper ↦ same_id (some payload.shipper_organization_id) user.organization_id
  | admin ↦
      same_id (some payload.shipper_organization_id) user.organization_id
      || same_id payload.carrier_organization_id user.organization_id
  | org_admin ↦
      same_id (some payload.shipper_organization_id) user.organization_id
      || same_id payload.carrier_organization_id user.organization_id
  | carrier ↦
      payload.carrier_user_id is user.sub
      || ((same_id payload.carrier_organization_id user.organization_id
            && not (is_some payload.carrier_user_id))
          || not (is_some payload.carrier_organization_id))
  | other_role text ↦ false
]

-- The body of the loop of emitShipmentEvent.
unfoldable pub update_one : ShipmentEventPayload → Socket → Socket
unfolding can_view_shipment
update_one payload socket =
    if socket.is_connected && can_view_shipment socket.user payload
    then send (shipment_updated payload) socket
    else socket

unfoldable pub emit_shipment_event : ShipmentEventPayload → List Socket → List Socket
unfolding update_one
emit_shipment_event payload sockets = map (update_one payload) sockets

-- The user of a socket, one of the given users.
abbrev pub is_target : List ℕ → Option SocketUser → Bool
is_target user_ids none = false
is_target user_ids (some user) = any (λ id. id == user.sub) user_ids

unfoldable pub emit_alerts : List ℕ → ℕ → List Socket → List Socket
emit_alerts user_ids alert sockets =
    map
      (λ socket.
        if socket.is_connected && is_target user_ids socket.user
        then send (alert_new alert) socket
        else socket)
      sockets

-- `user.sub === userId && (!sessionId || user.sessionId === sessionId)`
unfoldable pub is_revoked : ℕ → Option ℕ → Option SocketUser → Bool
is_revoked user_id session none = false
is_revoked user_id none (some user) = user.sub == user_id
is_revoked user_id (some session) (some user) = user.sub == user_id && user.session_id == session

unfoldable pub logout_one : ℕ → Option ℕ → Socket → Socket
unfolding is_revoked
logout_one user_id session socket =
    if socket.is_connected && is_revoked user_id session socket.user
    then dismiss force_logout socket
    else socket

unfoldable pub emit_force_logout : ℕ → Option ℕ → List Socket → List Socket
unfolding logout_one
emit_force_logout user_id session sockets = map (logout_one user_id session) sockets

-- `handleSessionRevoked` of the consumer, for the messages of publishSessionRevoked.
unfoldable pub handle_session_revoked : ℕ × ℕ → List Socket → List Socket
unfolding emit_force_logout
handle_session_revoked (user_id, session) sockets = emit_force_logout user_id (some session) sockets
