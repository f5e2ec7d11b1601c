-- ===== src/Sessions/Closed.antt =====
-- What it means that a session has ended: its access tokens and refresh tokens are refused.
pub mod Ends
pub mod Replay
pub mod Everywhere
pub mod Refresh
use egypt_supply_chain_visib.Base.{
  ℕ, ◌≤◌, ◌≡◌, ◌≢◌, ◌==◌, ==_refl, ==_iff, refl, subst, sym, Bool-cases, Option-cases, inl, inr,
  Option, none, some, ok, err, unauthorized, true, false, arith, not, or_throw, throw_if, ◌>>=◌,
  ◌>>◌,
}
use egypt_supply_chain_visib.Domain.{User}
use egypt_supply_chain_visib.Sessions.{
  TokenData, SessionFamilyData, AccessPayload, Backend, SessionState, Draw, Cookie,
}
use egypt_supply_chain_visib.Sessions.Tokens.{drop_keys, drop_session}
use egypt_supply_chain_visib.Sessions.Revocation.{logout, revoke_session, drop_family}
use egypt_supply_chain_visib.Sessions.Guard.{check_claims}
use egypt_supply_chain_visib.Sessions.Links.{token_at, family_at, IsLinked}
use egypt_supply_chain_visib.Store.Cache.Inversion.{del_key-eq-some}

module _ (b : Backend) where
  -- A row is found under its own id.
  abbrev pub IsKeyed : SessionState b → Type 0
  IsKeyed s = (id : ℕ) (user : User) → b.users_table.find s.users id ≡ some user → user.user_id ≡ id

  -- A row that keeps its id may be saved.
  pub saved-IsKeyed :
      (s : SessionState b) (id : ℕ) (row : User)
      → IsKeyed s
      → row.user_id ≡ id
      → IsKeyed (record s { users = b.users_table.save s.users id row })
  saved-IsKeyed s id row keyed own k user found =
      ground (arith, b.users_table.find-save s.users id k row, keyed k user)

  -- From a time on.
  pub record IsClosed (now : ℕ) (s : SessionState b) (user_id family_id : ℕ) : Type 0 where
    pub left_set : b.sessions_store.is_member s.sessions user_id family_id ≡ false
    pub access_refused :
        (payload : AccessPayload)
        → payload.sub ≡ user_id
        → payload.session_id ≡ some family_id
        → check_claims b s payload ≡ err unauthorized
    pub no_live_token :
        (later token : ℕ) (held : TokenData)
        → now ≤ later
        → token_at b s later token ≡ some held
        → held.family_id ≢ family_id

  -- The guard refuses every access token of a session that is not in the user's set.
  pub check_claims-refused :
      (s : SessionState b) (payload : AccessPayload)
      → IsKeyed s
      → ((session : ℕ)
          → payload.session_id ≡ some session
          → b.sessions_store.is_member s.sessions payload.sub session ≡ false)
      → check_claims b s payload ≡ err unauthorized
  unfolding check_claims
  check_claims-refused s payload keyed outside = elim (Option-cases payload.token_version) [
    | inl absent ↦ rw (absent, check_claims) refl
    | inr (version, versioned) ↦ elim (Option-cases (b.users_table.find s.users payload.sub)) [
      | inl unknown ↦ rw (versioned, unknown, check_claims) refl
      | inr (user, known) ↦ elim (Option-cases payload.session_id) [
        | inl no_session ↦ ground (arith, keyed payload.sub user known)
        | inr (session, claimed) ↦
            let out : b.sessions_store.is_member s.sessions user.user_id session ≡ false =
              rw (keyed payload.sub user known) (outside session claimed) in
            ground (arith, out)
      ]
    ]
  ]

module _ (b : Backend) (s : SessionState b) (env : Draw) (linked : IsLinked b env.now s)
    (keyed : IsKeyed b s) where
  pub drop_both-IsClosed :
      (token family_id : ℕ) (family : SessionFamilyData)
      → family_at b s env.now family_id ≡ some family
      → family.latest_token ≡ token
      → (user_id : ℕ)
      → IsClosed b env.now
          (drop_session b (drop_keys b s token family_id) user_id family_id)
          user_id
          family_id
  unfolding drop_session drop_keys
  drop_both-IsClosed token family_id family there newest user_id = record {
    left_set = ground (
      arith,
      b.sessions_store.is_member-remove_member s.sessions user_id family_id user_id family_id,
      ==_refl user_id,
      ==_refl family_id,
    );
    access_refused = λ payload own claimed.
        check_claims-refused b (drop_session b (drop_keys b s token family_id) user_id family_id)
          payload keyed
          (λ session e. ground (
            arith,
            b.sessions_store.is_member-remove_member s.sessions user_id family_id payload.sub
                session,
            ==_refl user_id,
            ==_refl family_id,
          ));
    no_live_token = λ later other held after h same.
        let (differ, before) = del_key-eq-some b.tokens_store s.tokens token later other held h in
        let now_held =
          b.tokens_store.get_key-earlier s.tokens env.now later other held after before in
        let (f, at_f, f_newest, owner) = linked.latest env.now other held (omega arith) now_held in
        differ cc;
  }
