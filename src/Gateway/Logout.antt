-- ===== src/Gateway/Logout.antt =====
-- Sockets after a session has ended.
use egypt_supply_chain_visib.Base.{ℕ, ◌≡◌, refl, true, false, some, List, [], ◌∷◌, All, arith}
use egypt_supply_chain_visib.Sessions.{TokenData, Backend, SessionState, Draw, Cookie}
use egypt_supply_chain_visib.Sessions.Tokens.{drop_keys, drop_session}
use egypt_supply_chain_visib.Sessions.Revocation.{logout}
use egypt_supply_chain_visib.Sessions.Links.{token_at, IsLinked}
use egypt_supply_chain_visib.Sessions.Closed.{IsKeyed}
use egypt_supply_chain_visib.Sessions.Closed.Ends.{logout-IsClosed}
use egypt_supply_chain_visib.Gateway.{
  SocketClaims, Socket, force_logout, handle_connection, dismiss, is_revoked, logout_one,
  emit_force_logout, handle_session_revoked,
}

-- Where a socket is connected, it is not one of the session.
abbrev pub IsOff : ℕ → ℕ → Socket → Type 0
IsOff user_id session socket =
    socket.is_connected ≡ true → is_revoked user_id (some session) socket.user ≡ false

logout_one-IsOff :
    (user_id session : ℕ) (socket : Socket)
    → IsOff user_id session (logout_one user_id (some session) socket)
unfolding logout_one
logout_one-IsOff user_id session socket = ground arith

emit_force_logout-IsOff :
    (user_id session : ℕ) (sockets : List Socket)
    → All (IsOff user_id session) (emit_force_logout user_id (some session) sockets)
unfolding emit_force_logout
emit_force_logout-IsOff user_id session [] = tt
emit_force_logout-IsOff user_id session (socket ∷ sockets) =
    (logout_one-IsOff user_id session socket, emit_force_logout-IsOff user_id session sockets)

-- Each socket that is not of the session stays as it is, at its place.
abbrev pub OthersKept : ℕ → ℕ → List Socket → List Socket → Type 0
OthersKept user_id session [] [] = Unit {0}
OthersKept user_id session [] (j ∷ js) = ⊥
OthersKept user_id session (i ∷ is) [] = ⊥
OthersKept user_id session (i ∷ is) (j ∷ js) =
    (is_revoked user_id (some session) i.user ≡ false → j ≡ i) × OthersKept user_id session is js

emit_force_logout-OthersKept :
    (user_id session : ℕ) (sockets : List Socket)
    → OthersKept user_id session sockets (emit_force_logout user_id (some session) sockets)
unfolding emit_force_logout logout_one
emit_force_logout-OthersKept user_id session [] = tt
emit_force_logout-OthersKept user_id session (socket ∷ sockets) =
    ((λ other. ground arith), emit_force_logout-OthersKept user_id session sockets)

-- A socket that asks with a session that is over is sent away.
handle_connection-refused :
    (b : Backend) (s : SessionState b) (claims : SocketClaims) (socket : Socket)
    (user_id session : ℕ)
    → claims.sub ≡ some user_id
    → claims.session_id ≡ some session
    → b.sessions_store.is_member s.sessions user_id session ≡ false
    → handle_connection b s (some claims) socket ≡ dismiss force_logout socket
unfolding handle_connection
handle_connection-refused b s claims socket user_id session own claimed over = ground arith

module _ (b : Backend) (s : SessionState b) (env : Draw) (linked : IsLinked b env.now s)
    (keyed : IsKeyed b s) where
  -- Logging out with a live refresh token publishes its session; once the gateway has handled that
  -- message no socket of the session is connected, every other socket is as before, and a socket
  -- that comes back with a token of the session is sent away.
  pub logout-disconnected :
      (cookie : Cookie) (token : ℕ) (held : TokenData) (sockets : List Socket)
      → cookie.token_part ≡ some token
      → token_at b s env.now token ≡ some held
      → ((logout b s env cookie).0.revoked ≡ (held.user_id, held.family_id) ∷ s.revoked)
        × All
            (IsOff held.user_id held.family_id)
            (handle_session_revoked (held.user_id, held.family_id) sockets)
        × OthersKept held.user_id held.family_id sockets
            (handle_session_revoked (held.user_id, held.family_id) sockets)
        × ((claims : SocketClaims) (socket : Socket)
            → claims.sub ≡ some held.user_id
            → claims.session_id ≡ some held.family_id
            → handle_connection b (logout b s env cookie).0 (some claims) socket
              ≡ dismiss force_logout socket)
  unfolding handle_session_revoked logout drop_session drop_keys
  logout-disconnected cookie token held sockets given live =
      let closed = (logout-IsClosed b s env linked keyed cookie token held given live).1 in
      (
        rw (given, live, logout) refl,
        emit_force_logout-IsOff held.user_id held.family_id sockets,
        emit_force_logout-OthersKept held.user_id held.family_id sockets,
        λ claims socket own claimed.
            handle_connection-refused b (logout b s env cookie).0 claims socket held.user_id
              held.family_id own claimed closed.left_set,
      )
