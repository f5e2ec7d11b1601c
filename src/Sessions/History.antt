-- ===== src/Sessions/History.antt =====
-- Sequences of calls of auth.service.ts on sessions, at times that do not go back.
use egypt_supply_chain_visib.Base.{ℕ, ◌≤◌, ◌≡◌, Option, some}
use egypt_supply_chain_visib.Sessions.{TokenData, Backend, SessionState, Draw, Cookie}
use egypt_supply_chain_visib.Sessions.Tokens.{create_token_pair, refresh_token}
use egypt_supply_chain_visib.Sessions.Revocation.{logout, revoke_session, revoke_all_sessions}
use egypt_supply_chain_visib.Sessions.Links.{
  token_at, IsLinked, IsFresh, IsLinked-later, live_unique,
}
use egypt_supply_chain_visib.Sessions.Links.Calls.{
  create_token_pair-IsLinked, refresh_token-IsLinked, logout-IsLinked, revoke_session-IsLinked,
  revoke_all_sessions-IsLinked,
}

module _ (b : Backend) where
  -- A call, whatever it returns; one that draws identifiers draws unused ones.
  pub data Call (s : SessionState b) (env : Draw) : SessionState b → Type 0 where
    signs_in : (user_id : ℕ) → IsFresh b s env → Call s env (create_token_pair b s env user_id).0
    refreshes : (cookie : Cookie) → IsFresh b s env → Call s env (refresh_token b s env cookie).0
    signs_out : (cookie : Cookie) → Call s env (logout b s env cookie).0
    revokes : (user_id session_id : ℕ) → Call s env (revoke_session b s env user_id session_id).0
    revokes_all :
        (user_id : ℕ) (current : Option ℕ)
        → Call s env (revoke_all_sessions b s env user_id current).0

  pub data Calls (now : ℕ) (s : SessionState b) : ℕ → SessionState b → Type 0 where
    no_call : Calls now s now s
    then_call :
        {before : ℕ} {middle after : SessionState b} {env : Draw}
        → Calls now s before middle
        → before ≤ env.now
        → Call middle env after
        → Calls now s env.now after

  Call-IsLinked :
      {s : SessionState b} {env : Draw} {after : SessionState b}
      → IsLinked b env.now s
      → Call s env after
      → IsLinked b env.now after
  Call-IsLinked {s = s} {env = env} linked (signs_in user_id fresh) =
      create_token_pair-IsLinked b s env linked user_id fresh
  Call-IsLinked {s = s} {env = env} linked (refreshes cookie fresh) =
      refresh_token-IsLinked b s env linked cookie fresh
  Call-IsLinked {s = s} {env = env} linked (signs_out cookie) =
      logout-IsLinked b s env linked cookie
  Call-IsLinked {s = s} {env = env} linked (revokes user_id session_id) =
      revoke_session-IsLinked b s env linked user_id session_id
  Call-IsLinked {s = s} {env = env} linked (revokes_all user_id current) =
      revoke_all_sessions-IsLinked b env user_id s current linked

  Calls-IsLinked :
      {now : ℕ} {s : SessionState b} {later : ℕ} {after : SessionState b}
      → IsLinked b now s
      → Calls now s later after
      → IsLinked b later after
  Calls-IsLinked linked no_call = linked
  Calls-IsLinked linked
        (then_call {before = before} {middle = middle} {env = env} calls order call) =
      Call-IsLinked (IsLinked-later b middle before env.now order (Calls-IsLinked linked calls))
        call

  -- After any calls from a state in which the keys are linked, at times that do not go back and
  -- with unused identifiers, two live refresh tokens of one session are the same token, a live one
  -- is the latest token of its session, which is of its user, and none that was consumed is live.
  pub Calls-IsSingle :
      {now : ℕ} {s : SessionState b} {later : ℕ} {after : SessionState b}
      → IsLinked b now s
      → Calls now s later after
      → ((t u : ℕ) (one two : TokenData)
          → token_at b after later t ≡ some one
          → token_at b after later u ≡ some two
          → one.family_id ≡ two.family_id
          → t ≡ u)
        × IsLinked b later after
  Calls-IsSingle {later = later} {after = after} linked calls =
      let still = Calls-IsLinked linked calls in
      (
        λ t u one two at_t at_u same. live_unique b after later t u one two still at_t at_u same,
        still,
      )
