-- ===== src/Examples/SignIns.antt =====
-- The theorems on sessions, each applied to a sign-in of the driver in memory.
use egypt_supply_chain_visib.Base.{
  ℕ, ◌+◌, ◌≡◌, ◌≢◌, ◌⊎◌, refl, false, none, some, [], ok, err, unauthorized, not_found, arith,
}
use egypt_supply_chain_visib.Sessions.{
  TokenData, SessionFamilyData, AccessPayload, Cookie, SessionState, Draw, backend_in_memory,
}
use egypt_supply_chain_visib.Sessions.Tokens.{
  open_session, create_token_pair, refresh_token, token_pair,
}
use egypt_supply_chain_visib.Sessions.Revocation.{logout, revoke_session, revoke_all_sessions}
use egypt_supply_chain_visib.Sessions.Guard.{check_claims}
use egypt_supply_chain_visib.Sessions.Links.{token_at, family_at, IsLinked, IsFresh, IsLinked-later}
use egypt_supply_chain_visib.Sessions.History.{
  signs_in, refreshes, Calls, no_call, then_call, Calls-IsSingle,
}
use egypt_supply_chain_visib.Sessions.Closed.{IsKeyed, IsClosed}
use egypt_supply_chain_visib.Sessions.Closed.Ends.{logout-IsClosed, revoke_session-IsClosed}
use egypt_supply_chain_visib.Sessions.Closed.Replay.{refresh_twice-IsClosed}
use egypt_supply_chain_visib.Sessions.Closed.Everywhere.{revoke_all_sessions-refused}
use egypt_supply_chain_visib.Examples.Setup.{at_start, driver_row}

abbrev pub nobody : SessionState backend_in_memory
nobody = record {
  users = at_start.users;
  tokens = λ token. none;
  consumed = λ token. none;
  families = λ family. none;
  sessions = λ user. [];
  revoked = [];
}

abbrev pub draw : ℕ → Draw
draw n = record { now = n; new_family = n + 100; new_token = n + 200 }

nobody-IsKeyed : IsKeyed backend_in_memory nobody
nobody-IsKeyed id user found = ground arith

nobody-IsLinked : IsLinked backend_in_memory 0 nobody
nobody-IsLinked = record {
  latest = λ later token held after h. cc;
  spent = λ later token family after h. cc;
}

-- The driver signs in at second 1 and refreshes at second 10.
abbrev pub signed_in : SessionState backend_in_memory
signed_in = (create_token_pair backend_in_memory nobody (draw 1) 2).0

abbrev pub cookie : Cookie
cookie = record { family_part = some 101; token_part = some 201 }

abbrev pub driver_token : TokenData
driver_token = record { user_id = 2; family_id = 101 }

abbrev refreshed : SessionState backend_in_memory
refreshed = (refresh_token backend_in_memory signed_in (draw 10) cookie).0

to_signed_in : Calls backend_in_memory 0 nobody 1 signed_in
to_signed_in =
    then_call no_call (omega arith)
      (signs_in 2 (record { fresh_token = refl; fresh_consumed = refl; fresh_family = refl }))

signed_in-IsFresh : IsFresh backend_in_memory signed_in (draw 10)
unfolding create_token_pair open_session
signed_in-IsFresh = record { fresh_token = refl; fresh_consumed = refl; fresh_family = refl }

to_refreshed : Calls backend_in_memory 0 nobody 10 refreshed
to_refreshed = then_call to_signed_in (omega arith) (refreshes cookie signed_in-IsFresh)

Calls-IsSingle_example :
    ((t u : ℕ) (one two : TokenData)
      → token_at backend_in_memory refreshed 10 t ≡ some one
      → token_at backend_in_memory refreshed 10 u ≡ some two
      → one.family_id ≡ two.family_id
      → t ≡ u)
    × IsLinked backend_in_memory 10 refreshed
Calls-IsSingle_example = Calls-IsSingle backend_in_memory nobody-IsLinked to_refreshed

to_signed_in-IsLinked : IsLinked backend_in_memory 1 signed_in
to_signed_in-IsLinked = (Calls-IsSingle backend_in_memory nobody-IsLinked to_signed_in).1

pub signed_in-IsKeyed : IsKeyed backend_in_memory signed_in
unfolding create_token_pair open_session
signed_in-IsKeyed = nobody-IsKeyed

pub signed_in-IsLinked : IsLinked backend_in_memory 10 signed_in
signed_in-IsLinked =
    IsLinked-later backend_in_memory signed_in 1 10 (omega arith) to_signed_in-IsLinked

logout-IsClosed_example :
    ((logout backend_in_memory signed_in (draw 10) cookie).1 ≡ ok (some 2))
    × IsClosed backend_in_memory 10 (logout backend_in_memory signed_in (draw 10) cookie).0 2 101
logout-IsClosed_example =
    logout-IsClosed backend_in_memory signed_in (draw 10) signed_in-IsLinked signed_in-IsKeyed
      cookie 201 driver_token refl (unfold create_token_pair in unfold open_session in refl)

revoke_session-IsClosed_example :
    (((revoke_session backend_in_memory signed_in (draw 10) 2 101).1 ≡ ok tt)
      × ((family : SessionFamilyData) × (family_at backend_in_memory signed_in 10 101 ≡ some family)
          × (family.user_id ≡ 2))
      × IsClosed backend_in_memory 10
          (revoke_session backend_in_memory signed_in (draw 10) 2 101).0
          2
          101)
    ⊎ (((revoke_session backend_in_memory signed_in (draw 10) 2 101).1 ≡ err not_found)
        × ((family : SessionFamilyData)
            → family_at backend_in_memory signed_in 10 101 ≡ some family
            → family.user_id ≢ 2)
        × ((revoke_session backend_in_memory signed_in (draw 10) 2 101).0 ≡ signed_in))
revoke_session-IsClosed_example =
    revoke_session-IsClosed backend_in_memory signed_in (draw 10) signed_in-IsLinked
      signed_in-IsKeyed 2 101

refresh_twice-IsClosed_example :
    ((refresh_token backend_in_memory signed_in (draw 10) cookie).1
      ≡ ok (token_pair driver_row 101 210))
    × ((refresh_token backend_in_memory refreshed (draw 20) cookie).1 ≡ err unauthorized)
    × IsClosed backend_in_memory 20
        (refresh_token backend_in_memory refreshed (draw 20) cookie).0
        2
        101
unfolding create_token_pair open_session
refresh_twice-IsClosed_example =
    refresh_twice-IsClosed backend_in_memory signed_in (draw 10) (draw 20) signed_in-IsLinked
      signed_in-IsKeyed signed_in-IsFresh cookie 101 201 driver_token driver_row refl refl refl refl
      refl (omega arith) (omega arith)

revoke_all_sessions-refused_example :
    ((session : ℕ)
      → backend_in_memory.sessions_store.is_member
          (revoke_all_sessions backend_in_memory signed_in (draw 10) 2 none).0.sessions
          2
          session
        ≡ false)
    × ((payload : AccessPayload)
        → payload.sub ≡ 2
        → ((session : ℕ) → payload.session_id ≡ some session → false ≡ false)
        → check_claims backend_in_memory
            (revoke_all_sessions backend_in_memory signed_in (draw 10) 2 none).0
            payload
          ≡ err unauthorized)
revoke_all_sessions-refused_example =
    revoke_all_sessions-refused backend_in_memory (draw 10) 2 signed_in none signed_in-IsKeyed
