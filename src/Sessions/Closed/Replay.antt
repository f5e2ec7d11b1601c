-- ===== src/Sessions/Closed/Replay.antt =====
-- A refresh token that is used again: rotateToken marks it, handleReuse ends its session.
use egypt_supply_chain_visib.Base.{
  ℕ, ◌≤◌, ◌<◌, ◌+◌, ◌≡◌, refl, subst, sym, some, none, ok, err, unauthorized, true, arith,
}
use egypt_supply_chain_visib.Domain.{User}
use egypt_supply_chain_visib.Store.Cache.Inversion.{set_ex_here}
use egypt_supply_chain_visib.Sessions.{
  TokenData, SessionFamilyData, Backend, SessionState, Draw, Cookie, ttl_seconds,
}
use egypt_supply_chain_visib.Sessions.Tokens.{
  drop_keys, drop_session, save_rotation, rotate_token, refresh_token, refresh_raw, refuse,
  handle_reuse, after_bump, bump_version, increment_token_version, token_pair, created_at_or,
}
use egypt_supply_chain_visib.Sessions.Links.{
  token_at, family_at, consumed_at, IsLinked, IsFresh, IsLinked-later,
}
use egypt_supply_chain_visib.Sessions.Links.Writes.{save_rotation-IsLinked}
use egypt_supply_chain_visib.Sessions.Closed.{IsKeyed, IsClosed, drop_both-IsClosed, saved-IsKeyed}

-- The state with the user's token version one higher.
abbrev bumped : (b : Backend) → SessionState b → ℕ → User → SessionState b
bumped b s id user = record s {
  users = b.users_table.save s.users id (increment_token_version user);
}

pub bumped-IsKeyed :
    (b : Backend) (s : SessionState b) (id : ℕ) (user : User)
    → IsKeyed b s
    → b.users_table.find s.users id ≡ some user
    → IsKeyed b (bumped b s id user)
bumped-IsKeyed b s id user keyed known =
    saved-IsKeyed b s id (increment_token_version user) keyed (keyed id user known)

module _ (b : Backend) (s : SessionState b) (env : Draw) (keyed : IsKeyed b s) where
  handle_reuse-state :
      (family_id : ℕ) (family : SessionFamilyData) (user : User)
      → family_at b s env.now family_id ≡ some family
      → b.users_table.find s.users family.user_id ≡ some user
      → handle_reuse b s env family_id ≡ (
        drop_session b
            (drop_keys b (bumped b s family.user_id user) family.latest_token family_id)
            family.user_id
            family_id,
        ok tt,
      )
  unfolding handle_reuse after_bump bump_version drop_keys
  handle_reuse-state family_id family user there known =
      rw (there, known, handle_reuse, bump_version) refl

  refuse-IsClosed :
      (family_id : ℕ) (family : SessionFamilyData) (user : User)
      → IsLinked b env.now s
      → family_at b s env.now family_id ≡ some family
      → b.users_table.find s.users family.user_id ≡ some user
      → ((refuse b (handle_reuse b s env family_id)).1 ≡ err unauthorized)
        × IsClosed b env.now (refuse b (handle_reuse b s env family_id)).0 family.user_id family_id
  unfolding refuse
  refuse-IsClosed family_id family user linked there known =
      let still : IsLinked b env.now (bumped b s family.user_id user) = record {
        latest = linked.latest;
        spent = linked.spent;
      } in
      let closed =
        drop_both-IsClosed b (bumped b s family.user_id user) env still
          (bumped-IsKeyed b s family.user_id user keyed known) family.latest_token family_id family
          there refl family.user_id in
      subst
        (λ o.
          ((refuse b o).1 ≡ err unauthorized)
          × IsClosed b env.now (refuse b o).0 family.user_id family_id)
        (sym (handle_reuse-state family_id family user there known)) (refl, closed)

  -- A token that is not live but marked as consumed is refused, and its session ends.
  refresh_token-IsClosed :
      (cookie : Cookie) (part token family_id : ℕ) (family : SessionFamilyData) (user : User)
      → IsLinked b env.now s
      → cookie.family_part ≡ some part
      → cookie.token_part ≡ some token
      → token_at b s env.now token ≡ none
      → consumed_at b s env.now token ≡ some family_id
      → family_at b s env.now family_id ≡ some family
      → b.users_table.find s.users family.user_id ≡ some user
      → ((refresh_token b s env cookie).1 ≡ err unauthorized)
        × IsClosed b env.now (refresh_token b s env cookie).0 family.user_id family_id
  unfolding refresh_token refresh_raw
  refresh_token-IsClosed cookie part token family_id family user linked has_part given gone marked
        there known =
      rw (has_part, given, gone, marked, refresh_token, refresh_raw)
        (refuse-IsClosed family_id family user linked there known)

  -- A live token of an active user is rotated.
  refresh_token-rotated :
      (cookie : Cookie) (part token : ℕ) (held : TokenData) (user : User)
      → cookie.family_part ≡ some part
      → cookie.token_part ≡ some token
      → token_at b s env.now token ≡ some held
      → b.users_table.find s.users held.user_id ≡ some user
      → user.user_is_active ≡ true
      → refresh_token b s env cookie ≡ (
        save_rotation b s env token held.user_id held.family_id,
        ok (token_pair user held.family_id env.new_token),
      )
  unfolding refresh_token refresh_raw rotate_token
  refresh_token-rotated cookie part token held user has_part given live known active =
      rw (has_part, given, live, known, active, refresh_token, refresh_raw, rotate_token) refl

module _ (b : Backend) (s : SessionState b) (env again : Draw) (linked : IsLinked b env.now s)
    (keyed : IsKeyed b s) (fresh : IsFresh b s env) where
  -- A live refresh token of an active user gives a new pair of the same session. If it comes again
  -- within seven days, with nothing in between, it is refused and the session ends, so that the
  -- new pair is worth nothing either.
  pub refresh_twice-IsClosed :
      (cookie : Cookie) (part token : ℕ) (held : TokenData) (user : User)
      → cookie.family_part ≡ some part
      → cookie.token_part ≡ some token
      → token_at b s env.now token ≡ some held
      → b.users_table.find s.users held.user_id ≡ some user
      → user.user_is_active ≡ true
      → env.now ≤ again.now
      → again.now < env.now + ttl_seconds
      → ((refresh_token b s env cookie).1 ≡ ok (token_pair user held.family_id env.new_token))
        × ((refresh_token b (refresh_token b s env cookie).0 again cookie).1 ≡ err unauthorized)
        × IsClosed b again.now
            (refresh_token b (refresh_token b s env cookie).0 again cookie).0
            held.user_id
            held.family_id
  unfolding save_rotation
  refresh_twice-IsClosed cookie part token held user has_part given live known active order soon =
      let (family, there, newest, owner) = linked.latest env.now token held (omega arith) live in
      let rotated = save_rotation b s env token held.user_id held.family_id in
      let still : IsLinked b again.now rotated = IsLinked-later b rotated env.now again.now order (
        save_rotation-IsLinked b s env linked token held.family_id family there newest fresh held
          live refl held.user_id) in
      let marked : consumed_at b rotated again.now token ≡ some held.family_id =
        set_ex_here b.consumed_store s.consumed env.now token ttl_seconds again.now held.family_id
          soon in
      let next : SessionFamilyData = record {
        user_id = held.user_id;
        latest_token = env.new_token;
        created_at = created_at_or (family_at b s env.now held.family_id) env.now;
      } in
      let renewed : family_at b rotated again.now held.family_id ≡ some next =
        set_ex_here b.families_store s.families env.now held.family_id ttl_seconds again.now next
          soon in
      let refused =
        refresh_token-IsClosed b rotated again keyed cookie part token held.family_id next user
          still has_part given (still.spent again.now token held.family_id (omega arith) marked)
          marked renewed known in
      subst
        (λ o.
          (o.1 ≡ ok (token_pair user held.family_id env.new_token))
          × ((refresh_token b o.0 again cookie).1 ≡ err unauthorized)
          × IsClosed b again.now (refresh_token b o.0 again cookie).0 held.user_id held.family_id)
        (sym (
          refresh_token-rotated b s env keyed cookie part token held user has_part given live known
            active))
        (refl, refused.0, refused.1)
