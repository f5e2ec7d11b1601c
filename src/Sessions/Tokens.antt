-- ===== src/Sessions/Tokens.antt =====
-- createTokenPair, rotateToken, handleReuse and refreshToken of auth.service.ts. The refresh token
-- is the raw token of the pair; an access token is its claims.
use egypt_supply_chain_visib.Base.{
  ℕ, suc, Option, none, some, ◌∷◌, if◌then◌else◌, ok, err, unauthorized, record_missing, type_error,
}
use egypt_supply_chain_visib.Domain.{User}
use egypt_supply_chain_visib.Sessions.{
  SessionFamilyData, AccessPayload, Cookie, TokenPair, Backend, SessionState, Draw, Outcome,
  ttl_seconds,
}

-- `jwtService.sign` of these claims.
abbrev pub access_payload : User → ℕ → AccessPayload
access_payload user session = record {
  sub = user.user_id;
  email = user.user_email;
  role = user.user_role;
  organization_id = user.organization_id;
  token_version = some user.user_token_version;
  session_id = some session;
}

abbrev pub token_pair : User → ℕ → ℕ → TokenPair
token_pair user family token = record {
  access_token = access_payload user family;
  refresh_token = record { family_part = some family; token_part = some token };
}

-- `existingFamily?.createdAt ?? new Date()`
abbrev pub created_at_or : Option SessionFamilyData → ℕ → Option ℕ
created_at_or none now = some now
created_at_or (some family) now = elim family.created_at [ none ↦ some now | some t ↦ some t ]

module _ (b : Backend) (s : SessionState b) where
  -- The three writes of createTokenPair.
  unfoldable pub open_session : Draw → ℕ → SessionState b
  open_session env user_id = record s {
    tokens =
        b.tokens_store.set_ex s.tokens env.now env.new_token
          (record { user_id = user_id; family_id = env.new_family }) ttl_seconds;
    families =
        b.families_store.set_ex s.families env.now env.new_family
          (record { user_id = user_id; latest_token = env.new_token; created_at = some env.now })
          ttl_seconds;
    sessions = b.sessions_store.add_member s.sessions user_id env.new_family;
  }

  unfoldable pub create_token_pair : Draw → ℕ → Outcome b TokenPair
  unfolding open_session
  create_token_pair env user_id = elim (b.users_table.find s.users user_id) [
    | none ↦ (open_session env user_id, err type_error)
    | some user ↦ (open_session env user_id, ok (token_pair user env.new_family env.new_token))
  ]

  -- The writes of rotateToken.
  unfoldable pub save_rotation : Draw → ℕ → ℕ → ℕ → SessionState b
  save_rotation env old_token user_id family_id = record s {
    tokens =
        b.tokens_store.set_ex (b.tokens_store.del_key s.tokens old_token) env.now env.new_token
          (record { user_id = user_id; family_id = family_id }) ttl_seconds;
    consumed = b.consumed_store.set_ex s.consumed env.now old_token family_id ttl_seconds;
    families =
        b.families_store.set_ex s.families env.now family_id
          (record {
            user_id = user_id;
            latest_token = env.new_token;
            created_at =
                created_at_or (b.families_store.get_key s.families env.now family_id) env.now;
          })
          ttl_seconds;
  }

  unfoldable pub rotate_token : Draw → ℕ → ℕ → ℕ → Outcome b TokenPair
  unfolding save_rotation
  rotate_token env old_token user_id family_id = elim (b.users_table.find s.users user_id) [
    | none ↦ (s, err unauthorized)
    | some user ↦
        if user.user_is_active
        then (
          save_rotation env old_token user_id family_id,
          ok (token_pair user family_id env.new_token),
        )
        else (s, err unauthorized)
  ]

-- `incrementTokenVersion` of users.service.ts
abbrev pub increment_token_version : User → User
increment_token_version user = record user { user_token_version = suc user.user_token_version }

module _ (b : Backend) (s : SessionState b) where
  -- The `del` of a family's keys.
  unfoldable pub drop_keys : ℕ → ℕ → SessionState b
  drop_keys token family_id = record s {
    tokens = b.tokens_store.del_key s.tokens token;
    families = b.families_store.del_key s.families family_id;
  }

  -- `srem` and publishSessionRevoked.
  unfoldable pub drop_session : ℕ → ℕ → SessionState b
  drop_session user_id family_id = record s {
    sessions = b.sessions_store.remove_member s.sessions user_id family_id;
    revoked = (user_id, family_id) ∷ s.revoked;
  }

  unfoldable pub bump_version : ℕ → Outcome b (Unit {0})
  bump_version user_id = elim (b.users_table.find s.users user_id) [
    | none ↦ (s, err record_missing)
    | some user ↦ (
      record s { users = b.users_table.save s.users user_id (increment_token_version user) },
      ok tt,
    )
  ]

module _ (b : Backend) where
  unfoldable pub after_bump : SessionFamilyData → ℕ → Outcome b (Unit {0}) → Outcome b (Unit {0})
  unfolding drop_session
  after_bump family family_id (s, err e) = (s, err e)
  after_bump family family_id (s, ok u) = (drop_session b s family.user_id family_id, ok tt)

  unfoldable pub handle_reuse : SessionState b → Draw → ℕ → Outcome b (Unit {0})
  unfolding drop_keys bump_version after_bump
  handle_reuse s env family_id = elim (b.families_store.get_key s.families env.now family_id) [
    | none ↦ (s, ok tt)
    | some family ↦
        after_bump family family_id
          (bump_version b (drop_keys b s family.latest_token family_id) family.user_id)
  ]

  -- handleReuse, then `throw`.
  unfoldable pub refuse : Outcome b (Unit {0}) → Outcome b TokenPair
  refuse (s, err e) = (s, err e)
  refuse (s, ok u) = (s, err unauthorized)

  -- refreshToken from the lookup of the raw token on.
  unfoldable pub refresh_raw : SessionState b → Draw → ℕ → Outcome b TokenPair
  unfolding rotate_token handle_reuse refuse
  refresh_raw s env token = elim (b.tokens_store.get_key s.tokens env.now token) [
    | some held ↦ rotate_token b s env token held.user_id held.family_id
    | none ↦ elim (b.consumed_store.get_key s.consumed env.now token) [
      | some family_id ↦ refuse (handle_reuse s env family_id)
      | none ↦ (s, err unauthorized)
    ]
  ]

  unfoldable pub refresh_token : SessionState b → Draw → Cookie → Outcome b TokenPair
  unfolding refresh_raw
  refresh_token s env cookie = elim cookie.family_part [
    | none ↦ (s, err unauthorized)
    | some family ↦ elim cookie.token_part [
      | none ↦ (s, err unauthorized)
      | some token ↦ refresh_raw s env token
    ]
  ]
