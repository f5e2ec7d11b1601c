-- ===== src/Sessions/Closed/Ends.antt =====
-- The calls that end a session: logout, revokeSession, and a refresh token that is used again.
use egypt_supply_chain_visib.Base.{
  ℕ, ◌≡◌, ◌≢◌, ◌==◌, ==_refl, refl, Bool-cases, Option-cases, inl, inr, some, ok, err, arith, ◌⊎◌,
  not_found,
}
use egypt_supply_chain_visib.Sessions.{
  TokenData, SessionFamilyData, Backend, SessionState, Draw, Cookie,
}
use egypt_supply_chain_visib.Sessions.Revocation.{logout, revoke_session, drop_family}
use egypt_supply_chain_visib.Sessions.Links.{token_at, family_at, IsLinked}
use egypt_supply_chain_visib.Sessions.Closed.{IsKeyed, IsClosed, drop_both-IsClosed}

module _ (b : Backend) (s : SessionState b) (env : Draw) (linked : IsLinked b env.now s)
    (keyed : IsKeyed b s) where
  -- Logging out with a live refresh token ends its session: no access token and no refresh token
  -- of it is accepted any more.
  pub logout-IsClosed :
      (cookie : Cookie) (token : ℕ) (held : TokenData)
      → cookie.token_part ≡ some token
      → token_at b s env.now token ≡ some held
      → ((logout b s env cookie).1 ≡ ok (some held.user_id))
        × IsClosed b env.now (logout b s env cookie).0 held.user_id held.family_id
  unfolding logout
  logout-IsClosed cookie token held given live =
      let (family, there, newest, owner) = linked.latest env.now token held (omega arith) live in
      (
        rw (given, live, logout) refl,
        rw (given, live, logout)
            (drop_both-IsClosed b s env linked keyed token held.family_id family there newest
              held.user_id),
      )

  -- revokeSession succeeds exactly on a session that is there and is the caller's; then the
  -- session has ended, else nothing has changed.
  pub revoke_session-IsClosed :
      (user_id session_id : ℕ)
      → (((revoke_session b s env user_id session_id).1 ≡ ok tt)
          × ((family : SessionFamilyData) × (family_at b s env.now session_id ≡ some family)
              × (family.user_id ≡ user_id))
          × IsClosed b env.now (revoke_session b s env user_id session_id).0 user_id session_id)
        ⊎ (((revoke_session b s env user_id session_id).1 ≡ err not_found)
            × ((family : SessionFamilyData)
                → family_at b s env.now session_id ≡ some family
                → family.user_id ≢ user_id)
            × ((revoke_session b s env user_id session_id).0 ≡ s))
  unfolding revoke_session drop_family
  revoke_session-IsClosed user_id session_id =
      elim (Option-cases (family_at b s env.now session_id)) [
        | inl gone ↦
            inr
              (rw (gone, revoke_session) refl, (λ f there same. cc), rw (gone, revoke_session) refl)
        | inr (family, there) ↦ elim (Bool-cases (family.user_id == user_id)) [
          | inl own ↦ inl (
            rw (there, own, revoke_session) refl,
            (family, there, ground arith),
            rw (there, own, revoke_session)
                (drop_both-IsClosed b s env linked keyed family.latest_token session_id family there
                  refl user_id),
          )
          | inr foreign ↦ inr (
            rw (there, foreign, revoke_session) refl,
            (λ f at_f same. ground (arith, ==_refl user_id)),
            rw (there, foreign, revoke_session) refl,
          )
        ]
      ]
