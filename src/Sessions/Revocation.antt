-- ===== src/Sessions/Revocation.antt =====
-- logout, revokeSession and revokeAllSessions of auth.service.ts.
use egypt_supply_chain_visib.Base.{
  ℕ, ◌+◌, ◌==◌, ◌is◌, Option, none, some, List, [], ◌∷◌, if◌then◌else◌, ok, err, not_found,
}
use egypt_supply_chain_visib.Sessions.{
  SessionFamilyData, Cookie, Backend, SessionState, Draw, Outcome,
}
use egypt_supply_chain_visib.Sessions.Tokens.{drop_keys, drop_session, bump_version}

module _ (b : Backend) where
  -- The id of the user who is logged out, if any.
  unfoldable pub logout : SessionState b → Draw → Cookie → Outcome b (Option ℕ)
  unfolding drop_keys drop_session
  logout s env cookie = elim cookie.token_part [
    | none ↦ (s, ok none)
    | some token ↦ elim (b.tokens_store.get_key s.tokens env.now token) [
      | none ↦ (s, ok none)
      | some held ↦ (
        drop_session b (drop_keys b s token held.family_id) held.user_id held.family_id,
        ok (some held.user_id),
      )
    ]
  ]

  -- The session of a family whose data has been read.
  unfoldable pub drop_family : SessionState b → SessionFamilyData → ℕ → ℕ → SessionState b
  unfolding drop_keys drop_session
  drop_family s family user_id session_id =
      drop_session b (drop_keys b s family.latest_token session_id) user_id session_id

  unfoldable pub revoke_session : SessionState b → Draw → ℕ → ℕ → Outcome b (Unit {0})
  unfolding drop_family
  revoke_session s env user_id session_id =
      elim (b.families_store.get_key s.families env.now session_id) [
        | none ↦ (s, err not_found)
        | some family ↦
            if family.user_id == user_id
            then (drop_family s family user_id session_id, ok tt)
            else (s, err not_found)
      ]

  -- The `srem` of a family that is stale.
  unfoldable pub forget : SessionState b → ℕ → ℕ → SessionState b
  forget s user_id family_id = record s {
    sessions = b.sessions_store.remove_member s.sessions user_id family_id;
  }

  -- The body of the loop; the count goes up where a session was revoked.
  unfoldable pub revoke_one : SessionState b → Draw → ℕ → ℕ → SessionState b × ℕ
  unfolding drop_family forget
  revoke_one s env user_id family_id =
      elim (b.families_store.get_key s.families env.now family_id) [
        | none ↦ (forget s user_id family_id, 0)
        | some family ↦
            if family.user_id == user_id
            then (drop_family s family user_id family_id, 1)
            else (forget s user_id family_id, 0)
      ]

  unfoldable pub revoke_loop : SessionState b → Draw → ℕ → Option ℕ → List ℕ → SessionState b × ℕ
  unfolding revoke_one
  revoke_loop s env user_id current [] = (s, 0)
  revoke_loop s env user_id current (family_id ∷ families) =
      let step : SessionState b × ℕ =
        if current is family_id then (s, 0) else revoke_one s env user_id family_id in
      let rest = revoke_loop step.0 env user_id current families in (rest.0, step.1 + rest.1)

  abbrev pub with_count : ℕ → Outcome b (Unit {0}) → Outcome b ℕ
  with_count count (s, err e) = (s, err e)
  with_count count (s, ok u) = (s, ok count)

  -- `if (!currentSessionId)` and the message with the count.
  unfoldable pub finish_revocation : ℕ → Option ℕ → SessionState b × ℕ → Outcome b ℕ
  unfolding bump_version
  finish_revocation user_id (some current) (s, count) = (s, ok count)
  finish_revocation user_id none (s, count) = with_count count (bump_version b s user_id)

  unfoldable pub revoke_all_sessions : SessionState b → Draw → ℕ → Option ℕ → Outcome b ℕ
  unfolding revoke_loop finish_revocation
  revoke_all_sessions s env user_id current =
      finish_revocation user_id current
        (revoke_loop s env user_id current (b.sessions_store.members s.sessions user_id))
