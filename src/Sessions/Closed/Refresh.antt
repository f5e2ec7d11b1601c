-- ===== src/Sessions/Closed/Refresh.antt =====
-- revokeAllSessions and refresh tokens: those of the sessions that end are gone, and the guard
-- sees the current session as before.
use egypt_supply_chain_visib.Base.{
  ℕ, ◌≤◌, ◌≡◌, ◌≢◌, ◌==◌, ==_refl, ==_iff, ◌is◌, ◌∙◌, refl, sym, subst, ap, Bool-cases,
  Option-cases, inl, inr, Option, some, none, List, [], ◌∷◌, any, true, false, arith,
}
use egypt_supply_chain_visib.Store.Cache.Inversion.{del_key-eq-some, del_key_elsewhere}
use egypt_supply_chain_visib.Sessions.{TokenData, SessionFamilyData, Backend, SessionState, Draw}
use egypt_supply_chain_visib.Sessions.Tokens.{drop_keys, drop_session, bump_version}
use egypt_supply_chain_visib.Sessions.Revocation.{
  drop_family, forget, revoke_one, revoke_loop, revoke_all_sessions,
}
use egypt_supply_chain_visib.Sessions.Links.{token_at, family_at, IsLinked}
use egypt_supply_chain_visib.Sessions.Links.Calls.{with_count-state, revoke_one-IsLinked}
use egypt_supply_chain_visib.Sessions.Closed.Everywhere.{revoke_loop-users}

module _ (b : Backend) (env : Draw) (user_id : ℕ) where
  -- From now on no refresh token of the user is live for the session.
  abbrev pub HasNoToken : SessionState b → ℕ → Type 0
  HasNoToken s session =
      (later token : ℕ) (held : TokenData)
      → env.now ≤ later
      → token_at b s later token ≡ some held
      → held.user_id ≡ user_id
      → held.family_id ≢ session

  -- No token is new.
  abbrev Fewer : SessionState b → SessionState b → Type 0
  Fewer before after =
      (later token : ℕ) (held : TokenData)
      → token_at b after later token ≡ some held
      → token_at b before later token ≡ some held

  revoke_one-Fewer : (s : SessionState b) (f : ℕ) → Fewer s (revoke_one b s env user_id f).0
  unfolding revoke_one drop_family drop_keys drop_session forget
  revoke_one-Fewer s f later token held h = elim (Option-cases (family_at b s env.now f)) [
    | inl gone ↦ rw (gone, revoke_one) at h
    | inr (family, there) ↦ elim (Bool-cases (family.user_id == user_id)) [
      | inl own ↦
          (del_key-eq-some b.tokens_store s.tokens family.latest_token later token held
            (rw (there, own, revoke_one) at h)).1
      | inr foreign ↦ rw (there, foreign, revoke_one) at h
    ]
  ]

  revoke_loop-Fewer :
      (s : SessionState b) (current : Option ℕ) (families : List ℕ)
      → Fewer s (revoke_loop b s env user_id current families).0
  unfolding revoke_loop
  revoke_loop-Fewer s current [] later token held h = h
  revoke_loop-Fewer s current (f ∷ families) later token held h = elim (Bool-cases (current is f)) [
    | inl kept ↦ revoke_loop-Fewer s current families later token held (rw (kept, revoke_loop) at h)
    | inr dropped ↦ revoke_one-Fewer s f later token held (
        revoke_loop-Fewer (revoke_one b s env user_id f).0 current families later token held
          (rw (dropped, revoke_loop) at h))
  ]

  -- A live token is the latest of its family, so that the key that goes is its own.
  revoke_one-HasNoToken :
      (s : SessionState b) (f : ℕ)
      → IsLinked b env.now s
      → HasNoToken (revoke_one b s env user_id f).0 f
  unfolding revoke_one drop_family drop_keys drop_session forget
  revoke_one-HasNoToken s f linked later token held after h own_token same =
      let before = revoke_one-Fewer s f later token held h in
      let now_held =
        b.tokens_store.get_key-earlier s.tokens env.now later token held after before in
      let (family, at_f, newest, owner) = linked.latest env.now token held (omega arith) now_held in
      let there : family_at b s env.now f ≡ some family =
        subst (λ (k : ℕ). family_at b s env.now k ≡ some family) same at_f in
      elim (Bool-cases (family.user_id == user_id)) [
        | inl own ↦
            (del_key-eq-some b.tokens_store s.tokens family.latest_token later token held
                (rw (there, own, revoke_one) at h)).0
              newest
        | inr foreign ↦ absurd (ground (arith, ==_iff family.user_id user_id, owner ∙ own_token))
      ]

  revoke_loop-HasNoToken :
      (s : SessionState b) (current : Option ℕ) (families : List ℕ) (session : ℕ)
      → IsLinked b env.now s
      → (current is session) ≡ false
      → any (λ x. x == session) families ≡ true
      → HasNoToken (revoke_loop b s env user_id current families).0 session
  unfolding revoke_loop
  revoke_loop-HasNoToken s current [] session linked other inside = cc
  revoke_loop-HasNoToken s current (f ∷ families) session linked other inside =
      elim (Bool-cases (current is f)) [
        | inl kept ↦
            let differ : (f == session) ≡ false = not_current current f session kept other in
            rw (kept, revoke_loop)
              (revoke_loop-HasNoToken s current families session linked other (ground arith))
        | inr dropped ↦
            let one : SessionState b = (revoke_one b s env user_id f).0 in
            elim (Bool-cases (f == session)) [
              | inl same ↦
                  rw (dropped, revoke_loop)
                    (λ later token held after h own_token e.
                      revoke_one-HasNoToken s f linked later token held after
                        (revoke_loop-Fewer one current families later token held h) own_token
                        (e ∙ sym ((==_iff f session).0 same)))
              | inr differ ↦
                  rw (dropped, revoke_loop)
                    (revoke_loop-HasNoToken one current families session
                      (revoke_one-IsLinked b s env linked user_id f) other (ground arith))
            ]
      ]
    where
      not_current :
          (current : Option ℕ) (f session : ℕ)
          → (current is f) ≡ true
          → (current is session) ≡ false
          → (f == session) ≡ false
      not_current none f session kept other = cc
      not_current (some c) f session kept other = ground (arith, ==_refl c, ==_iff f session)

  -- Among the sessions that are not kept, none has the token as its latest.
  abbrev pub IsOwn : SessionState b → Option ℕ → ℕ → Type 0
  IsOwn s current token =
      (session : ℕ) (family : SessionFamilyData)
      → family_at b s env.now session ≡ some family
      → family.latest_token ≡ token
      → (current is session) ≡ true

  revoke_one-families :
      (s : SessionState b) (f session : ℕ) (family : SessionFamilyData)
      → family_at b (revoke_one b s env user_id f).0 env.now session ≡ some family
      → family_at b s env.now session ≡ some family
  unfolding revoke_one drop_family drop_keys drop_session forget
  revoke_one-families s f session found h = elim (Option-cases (family_at b s env.now f)) [
    | inl gone ↦ rw (gone, revoke_one) at h
    | inr (family, there) ↦ elim (Bool-cases (family.user_id == user_id)) [
      | inl own ↦
          (del_key-eq-some b.families_store s.families f env.now session found
            (rw (there, own, revoke_one) at h)).1
      | inr foreign ↦ rw (there, foreign, revoke_one) at h
    ]
  ]

  revoke_one-token :
      (s : SessionState b) (current : Option ℕ) (f later token : ℕ)
      → IsOwn s current token
      → (current is f) ≡ false
      → token_at b (revoke_one b s env user_id f).0 later token ≡ token_at b s later token
  unfolding revoke_one drop_family drop_keys drop_session forget
  revoke_one-token s current f later token own dropped =
      elim (Option-cases (family_at b s env.now f)) [
        | inl gone ↦ rw (gone, revoke_one) refl
        | inr (family, there) ↦ elim (Bool-cases (family.user_id == user_id)) [
          | inl users ↦
              rw (there, users, revoke_one)
                (del_key_elsewhere b.tokens_store s.tokens family.latest_token later token
                  (λ same. let mine = own f family there same in cc))
          | inr foreign ↦ rw (there, foreign, revoke_one) refl
        ]
      ]

  revoke_loop-token :
      (s : SessionState b) (current : Option ℕ) (families : List ℕ) (later token : ℕ)
      → IsOwn s current token
      → token_at b (revoke_loop b s env user_id current families).0 later token
        ≡ token_at b s later token
  unfolding revoke_loop
  revoke_loop-token s current [] later token own = refl
  revoke_loop-token s current (f ∷ families) later token own = elim (Bool-cases (current is f)) [
    | inl kept ↦ rw (kept, revoke_loop) (revoke_loop-token s current families later token own)
    | inr dropped ↦
        let one : SessionState b = (revoke_one b s env user_id f).0 in
        rw (dropped, revoke_loop)
          (revoke_loop-token one current families later token
              (λ session family h. own session family (revoke_one-families s f session family h))
            ∙ revoke_one-token s current f later token own dropped)
  ]

  abbrev revoked_by_loop : SessionState b → Option ℕ → SessionState b × ℕ
  revoked_by_loop s current =
      revoke_loop b s env user_id current (b.sessions_store.members s.sessions user_id)

  bump_version-tokens : (s : SessionState b) → (bump_version b s user_id).0.tokens ≡ s.tokens
  unfolding bump_version
  bump_version-tokens s = elim (Option-cases (b.users_table.find s.users user_id)) [
    | inl unknown ↦ rw (unknown, bump_version) refl
    | inr (user, known) ↦ rw (known, bump_version) refl
  ]

  revoke_all_sessions-tokens :
      (s : SessionState b) (current : Option ℕ)
      → (revoke_all_sessions b s env user_id current).0.tokens
        ≡ (revoked_by_loop s current).0.tokens
  unfolding revoke_all_sessions
  revoke_all_sessions-tokens s (some current) = refl
  revoke_all_sessions-tokens s none =
      let done = revoked_by_loop s none in
      ap (λ (x : SessionState b). x.tokens)
        (with_count-state b env user_id done.1 (bump_version b done.0 user_id))
      ∙ bump_version-tokens done.0

  pub revoke_all_sessions-HasNoToken :
      (s : SessionState b) (current : Option ℕ) (session : ℕ)
      → IsLinked b env.now s
      → b.sessions_store.is_member s.sessions user_id session ≡ true
      → (current is session) ≡ false
      → HasNoToken (revoke_all_sessions b s env user_id current).0 session
  revoke_all_sessions-HasNoToken s current session linked inside other later token held after h =
      revoke_loop-HasNoToken s current (b.sessions_store.members s.sessions user_id) session linked
        other (sym (b.sessions_store.is_member-members s.sessions user_id session) ∙ inside) later
        token held after
        (ap (λ t. b.tokens_store.get_key t later token) (sym (revoke_all_sessions-tokens s current))
          ∙ h)

  pub revoke_all_sessions-token :
      (s : SessionState b) (current : Option ℕ) (later token : ℕ)
      → IsOwn s current token
      → token_at b (revoke_all_sessions b s env user_id current).0 later token
        ≡ token_at b s later token
  revoke_all_sessions-token s current later token own =
      ap (λ t. b.tokens_store.get_key t later token) (revoke_all_sessions-tokens s current)
      ∙ revoke_loop-token s current (b.sessions_store.members s.sessions user_id) later token own

  -- Where a session is kept, no row of a user is written: the version stays.
  pub revoke_all_sessions-users :
      (s : SessionState b) (current : ℕ)
      → (revoke_all_sessions b s env user_id (some current)).0.users ≡ s.users
  unfolding revoke_all_sessions
  revoke_all_sessions-users s current =
      revoke_loop-users b env user_id s (some current) (b.sessions_store.members s.sessions user_id)
