-- ===== src/Sessions/Links/Calls.antt =====
-- Each call of auth.service.ts keeps the keys of the sessions linked, its refusals included.
use egypt_supply_chain_visib.Base.{
  ℕ, ◌≡◌, ◌==◌, refl, sym, subst, Bool-cases, Option-cases, inl, inr, Option, none, some, List, [],
  ◌∷◌, ok, err, arith, ◌is◌,
}
use egypt_supply_chain_visib.Sessions.{
  TokenData, SessionFamilyData, Backend, SessionState, Draw, Cookie, Outcome,
}
use egypt_supply_chain_visib.Sessions.Tokens.{
  create_token_pair, rotate_token, drop_keys, drop_session, bump_version, after_bump, handle_reuse,
  refuse, refresh_raw, refresh_token,
}
use egypt_supply_chain_visib.Sessions.Revocation.{
  logout, drop_family, revoke_session, forget, revoke_one, revoke_loop, with_count,
  revoke_all_sessions,
}
use egypt_supply_chain_visib.Sessions.Links.{token_at, family_at, consumed_at, IsLinked, IsFresh}
use egypt_supply_chain_visib.Sessions.Links.Writes.{
  open_session-IsLinked, drop_keys-IsLinked, save_rotation-IsLinked,
}

module _ (b : Backend) (now : ℕ) where
  drop_session-IsLinked :
      (s : SessionState b) (user_id family_id : ℕ)
      → IsLinked b now s
      → IsLinked b now (drop_session b s user_id family_id)
  unfolding drop_session
  drop_session-IsLinked s user_id family_id linked = record {
    latest = linked.latest;
    spent = linked.spent;
  }

  forget-IsLinked :
      (s : SessionState b) (user_id family_id : ℕ)
      → IsLinked b now s
      → IsLinked b now (forget b s user_id family_id)
  unfolding forget
  forget-IsLinked s user_id family_id linked = record {
    latest = linked.latest;
    spent = linked.spent;
  }

  bump_version-IsLinked :
      (s : SessionState b) (user_id : ℕ)
      → IsLinked b now s
      → IsLinked b now (bump_version b s user_id).0
  unfolding bump_version
  bump_version-IsLinked s user_id linked =
      elim (Option-cases (b.users_table.find s.users user_id)) [
        | inl unknown ↦ rw (unknown, bump_version) linked
        | inr (user, known) ↦
            rw (known, bump_version) (record { latest = linked.latest; spent = linked.spent })
      ]

  after_bump-IsLinked :
      (family : SessionFamilyData) (family_id : ℕ) (o : Outcome b (Unit {0}))
      → IsLinked b now o.0
      → IsLinked b now (after_bump b family family_id o).0
  unfolding after_bump
  after_bump-IsLinked family family_id (s, err e) linked = linked
  after_bump-IsLinked family family_id (s, ok u) linked =
      drop_session-IsLinked s family.user_id family_id linked

  refuse-IsLinked : (o : Outcome b (Unit {0})) → IsLinked b now o.0 → IsLinked b now (refuse b o).0
  unfolding refuse
  refuse-IsLinked (s, err e) linked = linked
  refuse-IsLinked (s, ok u) linked = linked

module _ (b : Backend) (s : SessionState b) (env : Draw) (linked : IsLinked b env.now s) where
  pub create_token_pair-IsLinked :
      (user_id : ℕ) → IsFresh b s env → IsLinked b env.now (create_token_pair b s env user_id).0
  unfolding create_token_pair
  create_token_pair-IsLinked user_id fresh =
      elim (Option-cases (b.users_table.find s.users user_id)) [
        | inl unknown ↦
            rw (unknown, create_token_pair) (open_session-IsLinked b s env linked fresh user_id)
        | inr (user, known) ↦
            rw (known, create_token_pair) (open_session-IsLinked b s env linked fresh user_id)
      ]

  handle_reuse-IsLinked : (family_id : ℕ) → IsLinked b env.now (handle_reuse b s env family_id).0
  unfolding handle_reuse
  handle_reuse-IsLinked family_id = elim (Option-cases (family_at b s env.now family_id)) [
    | inl gone ↦ rw (gone, handle_reuse) linked
    | inr (family, there) ↦
        rw (there, handle_reuse)
          (after_bump-IsLinked b env.now family family_id
            (bump_version b (drop_keys b s family.latest_token family_id) family.user_id)
            (bump_version-IsLinked b env.now (drop_keys b s family.latest_token family_id)
              family.user_id
              (drop_keys-IsLinked b s env linked family.latest_token family_id family there refl)))
  ]

  rotate_token-IsLinked :
      (token : ℕ) (held : TokenData)
      → IsFresh b s env
      → token_at b s env.now token ≡ some held
      → IsLinked b env.now (rotate_token b s env token held.user_id held.family_id).0
  unfolding rotate_token
  rotate_token-IsLinked token held fresh live =
      let (family, there, newest, owner) = linked.latest env.now token held (omega arith) live in
      let rotated =
        save_rotation-IsLinked b s env linked token held.family_id family there newest fresh held
          live refl held.user_id in
      elim (Option-cases (b.users_table.find s.users held.user_id)) [
        | inl unknown ↦ rw (unknown, rotate_token) linked
        | inr (user, known) ↦ elim (Bool-cases user.user_is_active) [
          | inl active ↦ rw (known, active, rotate_token) rotated
          | inr inactive ↦ rw (known, inactive, rotate_token) linked
        ]
      ]

  refresh_raw-IsLinked :
      (token : ℕ) → IsFresh b s env → IsLinked b env.now (refresh_raw b s env token).0
  unfolding refresh_raw
  refresh_raw-IsLinked token fresh = elim (Option-cases (token_at b s env.now token)) [
    | inr (held, live) ↦ rw (live, refresh_raw) (rotate_token-IsLinked token held fresh live)
    | inl gone ↦ elim (Option-cases (consumed_at b s env.now token)) [
      | inl unknown ↦ rw (gone, unknown, refresh_raw) linked
      | inr (family_id, marked) ↦
          rw (gone, marked, refresh_raw)
            (refuse-IsLinked b env.now (handle_reuse b s env family_id)
              (handle_reuse-IsLinked family_id))
    ]
  ]

  pub refresh_token-IsLinked :
      (cookie : Cookie) → IsFresh b s env → IsLinked b env.now (refresh_token b s env cookie).0
  unfolding refresh_token
  refresh_token-IsLinked cookie fresh = elim (Option-cases cookie.family_part) [
    | inl missing ↦ rw missing linked
    | inr (family, present) ↦ elim (Option-cases cookie.token_part) [
      | inl missing ↦ rw (present, missing) linked
      | inr (token, given) ↦ rw (present, given) (refresh_raw-IsLinked token fresh)
    ]
  ]

  -- The session of the family goes with the keys.
  drop_both-IsLinked :
      (token family_id user_id : ℕ) (family : SessionFamilyData)
      → family_at b s env.now family_id ≡ some family
      → family.latest_token ≡ token
      → IsLinked b env.now (drop_session b (drop_keys b s token family_id) user_id family_id)
  drop_both-IsLinked token family_id user_id family there newest =
      drop_session-IsLinked b env.now (drop_keys b s token family_id) user_id family_id
        (drop_keys-IsLinked b s env linked token family_id family there newest)

  pub logout-IsLinked : (cookie : Cookie) → IsLinked b env.now (logout b s env cookie).0
  unfolding logout
  logout-IsLinked cookie = elim (Option-cases cookie.token_part) [
    | inl missing ↦ rw (missing, logout) linked
    | inr (token, given) ↦ elim (Option-cases (token_at b s env.now token)) [
      | inl gone ↦ rw (given, gone, logout) linked
      | inr (held, live) ↦
          let (family, there, newest, owner) =
            linked.latest env.now token held (omega arith) live in
          rw (given, live, logout)
            (drop_both-IsLinked token held.family_id held.user_id family there newest)
    ]
  ]

  drop_family-IsLinked :
      (family : SessionFamilyData) (user_id session_id : ℕ)
      → family_at b s env.now session_id ≡ some family
      → IsLinked b env.now (drop_family b s family user_id session_id)
  unfolding drop_family
  drop_family-IsLinked family user_id session_id there =
      drop_both-IsLinked family.latest_token session_id user_id family there refl

  pub revoke_session-IsLinked :
      (user_id session_id : ℕ) → IsLinked b env.now (revoke_session b s env user_id session_id).0
  unfolding revoke_session
  revoke_session-IsLinked user_id session_id =
      elim (Option-cases (family_at b s env.now session_id)) [
        | inl gone ↦ rw (gone, revoke_session) linked
        | inr (family, there) ↦ elim (Bool-cases (family.user_id == user_id)) [
          | inl own ↦
              rw (there, own, revoke_session) (drop_family-IsLinked family user_id session_id there)
          | inr foreign ↦ rw (there, foreign, revoke_session) linked
        ]
      ]

  pub revoke_one-IsLinked :
      (user_id family_id : ℕ) → IsLinked b env.now (revoke_one b s env user_id family_id).0
  unfolding revoke_one
  revoke_one-IsLinked user_id family_id = elim (Option-cases (family_at b s env.now family_id)) [
    | inl gone ↦ rw (gone, revoke_one) (forget-IsLinked b env.now s user_id family_id linked)
    | inr (family, there) ↦ elim (Bool-cases (family.user_id == user_id)) [
      | inl own ↦ rw (there, own, revoke_one) (drop_family-IsLinked family user_id family_id there)
      | inr foreign ↦
          rw (there, foreign, revoke_one) (forget-IsLinked b env.now s user_id family_id linked)
    ]
  ]

module _ (b : Backend) (env : Draw) (user_id : ℕ) where
  revoke_loop-IsLinked :
      (s : SessionState b) (current : Option ℕ) (families : List ℕ)
      → IsLinked b env.now s
      → IsLinked b env.now (revoke_loop b s env user_id current families).0
  unfolding revoke_loop
  revoke_loop-IsLinked s current [] linked = linked
  revoke_loop-IsLinked s current (f ∷ families) linked = elim (Bool-cases (current is f)) [
    | inl kept ↦ rw (kept, revoke_loop) (revoke_loop-IsLinked s current families linked)
    | inr dropped ↦
        rw (dropped, revoke_loop)
          (revoke_loop-IsLinked (revoke_one b s env user_id f).0 current families
            (revoke_one-IsLinked b s env linked user_id f))
  ]

  pub with_count-state : (count : ℕ) (o : Outcome b (Unit {0})) → (with_count b count o).0 ≡ o.0
  with_count-state count (s, err e) = refl
  with_count-state count (s, ok u) = refl

  pub revoke_all_sessions-IsLinked :
      (s : SessionState b) (current : Option ℕ)
      → IsLinked b env.now s
      → IsLinked b env.now (revoke_all_sessions b s env user_id current).0
  unfolding revoke_all_sessions
  revoke_all_sessions-IsLinked s (some current) linked =
      revoke_loop-IsLinked s (some current) (b.sessions_store.members s.sessions user_id) linked
  revoke_all_sessions-IsLinked s none linked =
      let done = revoke_loop b s env user_id none (b.sessions_store.members s.sessions user_id) in
      subst (IsLinked b env.now) (sym (with_count-state done.1 (bump_version b done.0 user_id))) (
        bump_version-IsLinked b env.now done.0 user_id
          (revoke_loop-IsLinked s none (b.sessions_store.members s.sessions user_id) linked))
