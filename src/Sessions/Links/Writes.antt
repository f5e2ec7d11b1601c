-- ===== src/Sessions/Links/Writes.antt =====
-- Each write of auth.service.ts keeps the keys of the sessions linked.
use egypt_supply_chain_visib.Base.{ℕ, ◌≤◌, ◌≡◌, ◌≢◌, refl, subst, ◌∙◌, inl, inr, none, some, arith}
use egypt_supply_chain_visib.Store.Cache.Inversion.{
  set_ex-eq-some, set_ex_here, set_ex_elsewhere, del_key_here, del_key_elsewhere, del_key-eq-some,
  del_key-eq-none, free_elsewhere,
}
use egypt_supply_chain_visib.Sessions.{
  TokenData, SessionFamilyData, Backend, SessionState, Draw, ttl_seconds,
}
use egypt_supply_chain_visib.Sessions.Tokens.{open_session, save_rotation, drop_keys, created_at_or}
use egypt_supply_chain_visib.Sessions.Links.{
  token_at, family_at, consumed_at, LatestOf, IsLinked, IsFresh,
}

module _ (b : Backend) (s : SessionState b) (env : Draw) (linked : IsLinked b env.now s) where
  module _ (fresh : IsFresh b s env) (user_id : ℕ) where
    abbrev opened_token : TokenData
    opened_token = record { user_id = user_id; family_id = env.new_family }

    abbrev opened_family : SessionFamilyData
    opened_family = record {
      user_id = user_id;
      latest_token = env.new_token;
      created_at = some env.now;
    }

    open_session-latest :
        (later token : ℕ) (held : TokenData)
        → env.now ≤ later
        → token_at b (open_session b s env user_id) later token ≡ some held
        → LatestOf b (open_session b s env user_id) later token held
    unfolding open_session
    open_session-latest later token held after h =
        elim (set_ex-eq-some b.tokens_store s.tokens env.now env.new_token ttl_seconds later token
          opened_token held h) [
            | inl (same, live, e) ↦
                subst (LatestOf b (open_session b s env user_id) later token) e (
                  opened_family,
                  set_ex_here b.families_store s.families env.now env.new_family ttl_seconds later
                      opened_family live,
                  same,
                  refl,
                )
            | inr (other, before) ↦
                let (f, at_f, newest, owner) = linked.latest later token held after before in
                let elsewhere =
                  free_elsewhere b.families_store s.families env.now later env.new_family
                    held.family_id f after fresh.fresh_family at_f in
                (
                  f,
                  set_ex_elsewhere b.families_store s.families env.now env.new_family ttl_seconds
                        later held.family_id opened_family elsewhere
                      ∙ at_f,
                  newest,
                  owner,
                )
          ]

    open_session-spent :
        (later token family : ℕ)
        → env.now ≤ later
        → consumed_at b (open_session b s env user_id) later token ≡ some family
        → token_at b (open_session b s env user_id) later token ≡ none
    unfolding open_session
    open_session-spent later token family after h =
        set_ex_elsewhere b.tokens_store s.tokens env.now env.new_token ttl_seconds later token
          opened_token
          (free_elsewhere b.consumed_store s.consumed env.now later env.new_token token family after
            fresh.fresh_consumed h)
        ∙ linked.spent later token family after h

    pub open_session-IsLinked : IsLinked b env.now (open_session b s env user_id)
    open_session-IsLinked = record { latest = open_session-latest; spent = open_session-spent }

  -- The family has the token as its latest.
  module _ (token family_id : ℕ) (family : SessionFamilyData)
      (there : family_at b s env.now family_id ≡ some family)
      (newest : family.latest_token ≡ token) where
    -- No other live token is of the family.
    other_family :
        (later other : ℕ) (held : TokenData)
        → env.now ≤ later
        → token ≢ other
        → token_at b s later other ≡ some held
        → family_id ≢ held.family_id
    other_family later other held after differ h same =
        let now_held = b.tokens_store.get_key-earlier s.tokens env.now later other held after h in
        let (f, at_f, f_newest, owner) = linked.latest env.now other held (omega arith) now_held in
        differ cc

    drop_keys-latest :
        (later other : ℕ) (held : TokenData)
        → env.now ≤ later
        → token_at b (drop_keys b s token family_id) later other ≡ some held
        → LatestOf b (drop_keys b s token family_id) later other held
    unfolding drop_keys
    drop_keys-latest later other held after h =
        let (differ, before) = del_key-eq-some b.tokens_store s.tokens token later other held h in
        let (f, at_f, f_newest, owner) = linked.latest later other held after before in
        (
          f,
          del_key_elsewhere b.families_store s.families family_id later held.family_id
                (other_family later other held after differ before)
              ∙ at_f,
          f_newest,
          owner,
        )

    pub drop_keys-IsLinked : IsLinked b env.now (drop_keys b s token family_id)
    unfolding drop_keys
    drop_keys-IsLinked = record {
      latest = drop_keys-latest;
      spent = λ later other f after h.
          del_key-eq-none b.tokens_store s.tokens token later other
            (linked.spent later other f after h);
    }

    -- A rotation of that token, which is live.
    module _ (fresh : IsFresh b s env) (held : TokenData)
        (live : token_at b s env.now token ≡ some held) (of_family : held.family_id ≡ family_id)
        (user_id : ℕ) where
      abbrev rotated_token : TokenData
      rotated_token = record { user_id = user_id; family_id = family_id }

      abbrev rotated_family : SessionFamilyData
      rotated_family = record {
        user_id = user_id;
        latest_token = env.new_token;
        created_at = created_at_or (family_at b s env.now family_id) env.now;
      }

      save_rotation-latest :
          (later other : ℕ) (kept : TokenData)
          → env.now ≤ later
          → token_at b (save_rotation b s env token user_id family_id) later other ≡ some kept
          → LatestOf b (save_rotation b s env token user_id family_id) later other kept
      unfolding save_rotation
      save_rotation-latest later other kept after h =
          elim (set_ex-eq-some b.tokens_store (b.tokens_store.del_key s.tokens token) env.now
            env.new_token ttl_seconds later other rotated_token kept h) [
              | inl (same, in_time, e) ↦
                  subst (LatestOf b (save_rotation b s env token user_id family_id) later other) e (
                    rotated_family,
                    set_ex_here b.families_store s.families env.now family_id ttl_seconds later
                        rotated_family in_time,
                    same,
                    refl,
                  )
              | inr (new, still) ↦
                  let (differ, before) =
                    del_key-eq-some b.tokens_store s.tokens token later other kept still in
                  let (f, at_f, f_newest, owner) = linked.latest later other kept after before in
                  (
                    f,
                    set_ex_elsewhere b.families_store s.families env.now family_id ttl_seconds later
                          kept.family_id rotated_family
                          (other_family later other kept after differ before)
                        ∙ at_f,
                    f_newest,
                    owner,
                  )
            ]

      new_token_differs : env.new_token ≢ token
      new_token_differs =
          free_elsewhere b.tokens_store s.tokens env.now env.now env.new_token token held
            (omega arith) fresh.fresh_token live

      save_rotation-spent :
          (later other f : ℕ)
          → env.now ≤ later
          → consumed_at b (save_rotation b s env token user_id family_id) later other ≡ some f
          → token_at b (save_rotation b s env token user_id family_id) later other ≡ none
      unfolding save_rotation
      save_rotation-spent later other f after h =
          elim (set_ex-eq-some b.consumed_store s.consumed env.now token ttl_seconds later other
            family_id f h) [
              | inl (same, in_time, e) ↦
                  subst
                    (λ o. token_at b (save_rotation b s env token user_id family_id) later o ≡ none)
                    same
                    (set_ex_elsewhere b.tokens_store (b.tokens_store.del_key s.tokens token) env.now
                        env.new_token ttl_seconds later token rotated_token new_token_differs
                      ∙ del_key_here b.tokens_store s.tokens token later)
              | inr (differ, before) ↦
                  set_ex_elsewhere b.tokens_store (b.tokens_store.del_key s.tokens token) env.now
                    env.new_token ttl_seconds later other rotated_token
                    (free_elsewhere b.consumed_store s.consumed env.now later env.new_token other f
                      after fresh.fresh_consumed before)
                  ∙ del_key-eq-none b.tokens_store s.tokens token later other
                      (linked.spent later other f after before)
            ]

      pub save_rotation-IsLinked :
          IsLinked b env.now (save_rotation b s env token user_id family_id)
      save_rotation-IsLinked = record { latest = save_rotation-latest; spent = save_rotation-spent }
