-- ===== src/Sessions/Links.antt =====
-- What holds together the keys of a session, and that the writes of auth.service.ts keep it.
pub mod Writes
pub mod Calls
use egypt_supply_chain_visib.Base.{
  ℕ, ◌≤◌, ◌≡◌, ◌==◌, ==_refl, refl, sym, ◌∙◌, Bool-cases, Option-cases, inl, inr, Option, none,
  some, arith,
}
use egypt_supply_chain_visib.Sessions.{
  TokenData, SessionFamilyData, Backend, SessionState, Draw, ttl_seconds,
}
use egypt_supply_chain_visib.Sessions.Tokens.{
  open_session, save_rotation, drop_keys, drop_session, bump_version, created_at_or,
}

module _ (b : Backend) where
  abbrev pub token_at : SessionState b → ℕ → ℕ → Option TokenData
  token_at s now token = b.tokens_store.get_key s.tokens now token

  abbrev pub family_at : SessionState b → ℕ → ℕ → Option SessionFamilyData
  family_at s now family = b.families_store.get_key s.families now family

  abbrev pub consumed_at : SessionState b → ℕ → ℕ → Option ℕ
  consumed_at s now token = b.consumed_store.get_key s.consumed now token

  -- The family of a live token is there, is of its user, and has it as its latest token.
  abbrev pub LatestOf : SessionState b → ℕ → ℕ → TokenData → Type 0
  LatestOf s now token held =
      (family : SessionFamilyData) × (family_at s now held.family_id ≡ some family)
      × (family.latest_token ≡ token)
      × (family.user_id ≡ held.user_id)

  -- From a time on, each live refresh token is the latest of its family, and none that was
  -- consumed is live.
  pub record IsLinked (now : ℕ) (s : SessionState b) : Type 0 where
    pub latest :
        (later token : ℕ) (held : TokenData)
        → now ≤ later
        → token_at s later token ≡ some held
        → LatestOf s later token held
    pub spent :
        (later token family : ℕ)
        → now ≤ later
        → consumed_at s later token ≡ some family
        → token_at s later token ≡ none

  -- The identifiers that a call draws are not in use.
  pub record IsFresh (s : SessionState b) (env : Draw) : Type 0 where
    pub fresh_token : token_at s env.now env.new_token ≡ none
    pub fresh_consumed : consumed_at s env.now env.new_token ≡ none
    pub fresh_family : family_at s env.now env.new_family ≡ none

module _ (b : Backend) (s : SessionState b) where
  -- A later time asks less.
  pub IsLinked-later : (now later : ℕ) → now ≤ later → IsLinked b now s → IsLinked b later s
  IsLinked-later now later before linked = record {
    latest = λ t token held after h. linked.latest t token held (omega arith) h;
    spent = λ t token family after h. linked.spent t token family (omega arith) h;
  }

  -- Two live tokens of one family are the same.
  pub live_unique :
      (now t u : ℕ) (one two : TokenData)
      → IsLinked b now s
      → token_at b s now t ≡ some one
      → token_at b s now u ≡ some two
      → one.family_id ≡ two.family_id
      → t ≡ u
  live_unique now t u one two linked at_t at_u same =
      let (f, f_there, f_latest, f_user) = linked.latest now t one (omega arith) at_t in
      let (g, g_there, g_latest, g_user) = linked.latest now u two (omega arith) at_u in cc
