-- ===== src/Sessions/Closed/Everywhere.antt =====
-- revokeAllSessions: the sessions of a user end, but for the current one.
use egypt_supply_chain_visib.Base.{
  ℕ, ◌≡◌, ◌==◌, ==_refl, ◌is◌, ◌||◌, refl, sym, ap, subst, ◌∙◌, Bool, Bool-cases, Option-cases, inl,
  inr, Option, some, none, List, [], ◌∷◌, any, ok, err, unauthorized, true, false, if◌then◌else◌,
  arith,
}
use egypt_supply_chain_visib.Domain.{User}
use egypt_supply_chain_visib.Sessions.{AccessPayload, Backend, SessionState, Draw, Outcome}
use egypt_supply_chain_visib.Sessions.Tokens.{
  drop_keys, drop_session, bump_version, increment_token_version,
}
use egypt_supply_chain_visib.Sessions.Revocation.{
  with_count, drop_family, forget, revoke_one, revoke_loop, revoke_all_sessions,
}
use egypt_supply_chain_visib.Sessions.Guard.{check_claims}
use egypt_supply_chain_visib.Sessions.Links.{family_at}
use egypt_supply_chain_visib.Sessions.Links.Calls.{with_count-state}
use egypt_supply_chain_visib.Sessions.Closed.{IsKeyed, check_claims-refused}
use egypt_supply_chain_visib.Sessions.Closed.Replay.{bumped-IsKeyed}

-- The current session is none of the others.
other_kept :
    (current : Option ℕ) (f session : ℕ)
    → (current is f) ≡ false
    → (current is session) ≡ true
    → (f == session) ≡ false
other_kept none f session other kept = cc
other_kept (some c) f session other kept = ground (arith, ==_refl c)

same_verdict :
    (current : Option ℕ) (f session : ℕ) (inside more : Bool)
    → (current is f) ≡ true
    → (if current is session then inside else if more then false else inside)
      ≡ (if current is session then inside else if f == session || more then false else inside)
same_verdict none f session inside more kept = cc
same_verdict (some c) f session inside more kept = ground (arith, ==_refl c)

module _ (b : Backend) (env : Draw) (user_id : ℕ) where
  abbrev in_set : SessionState b → ℕ → Bool
  in_set s session = b.sessions_store.is_member s.sessions user_id session

  -- What one pass of the loop leaves: the rows of users, and the set without the family.
  abbrev AfterOne : SessionState b → ℕ → SessionState b → Type 0
  AfterOne s family_id after =
      (after.users ≡ s.users)
      × ((session : ℕ)
          → in_set after session ≡ (if family_id == session then false else in_set s session))

  remove-in_set :
      (s : SessionState b) (family_id session : ℕ)
      → b.sessions_store.is_member
          (b.sessions_store.remove_member s.sessions user_id family_id)
          user_id
          session
        ≡ (if family_id == session then false else in_set s session)
  remove-in_set s family_id session = ground (
    arith,
    b.sessions_store.is_member-remove_member s.sessions user_id family_id user_id session,
    ==_refl user_id,
  )

  revoke_one-AfterOne :
      (s : SessionState b) (family_id : ℕ)
      → AfterOne s family_id (revoke_one b s env user_id family_id).0
  unfolding revoke_one drop_family drop_keys drop_session forget
  revoke_one-AfterOne s family_id = elim (Option-cases (family_at b s env.now family_id)) [
    | inl gone ↦ rw (gone, revoke_one) (refl, remove-in_set s family_id)
    | inr (family, there) ↦ elim (Bool-cases (family.user_id == user_id)) [
      | inl own ↦ rw (there, own, revoke_one) (refl, remove-in_set s family_id)
      | inr foreign ↦ rw (there, foreign, revoke_one) (refl, remove-in_set s family_id)
    ]
  ]

  pub revoke_loop-users :
      (s : SessionState b) (current : Option ℕ) (families : List ℕ)
      → (revoke_loop b s env user_id current families).0.users ≡ s.users
  unfolding revoke_loop
  revoke_loop-users s current [] = refl
  revoke_loop-users s current (f ∷ families) = elim (Bool-cases (current is f)) [
    | inl kept ↦ rw (kept, revoke_loop) (revoke_loop-users s current families)
    | inr dropped ↦
        rw (dropped, revoke_loop)
          (revoke_loop-users (revoke_one b s env user_id f).0 current families
            ∙ (revoke_one-AfterOne s f).0)
  ]

  -- The loop removes what it meets, the current session apart.
  revoke_loop-in_set :
      (s : SessionState b) (current : Option ℕ) (families : List ℕ) (session : ℕ)
      → in_set (revoke_loop b s env user_id current families).0 session ≡ (
          if current is session
          then in_set s session
          else if any (λ x. x == session) families
          then false
          else in_set s session)
  unfolding revoke_loop
  revoke_loop-in_set s current [] session = ground arith
  revoke_loop-in_set s current (f ∷ families) session = elim (Bool-cases (current is f)) [
    | inl kept ↦
        rw (kept, revoke_loop)
          (revoke_loop-in_set s current families session
            ∙ same_verdict current f session (in_set s session) (any (λ x. x == session) families)
                kept)
    | inr dropped ↦
        rw (dropped, revoke_loop)
          (revoke_loop-in_set (revoke_one b s env user_id f).0 current families session
            ∙ ground (
              arith,
              dropped,
              (revoke_one-AfterOne s f).1 session,
              other_kept current f session dropped,
            ))
  ]

  -- Rows stay under their ids, and the set is the same.
  abbrev KeyedLike : SessionState b → SessionState b → Type 0
  KeyedLike s after = IsKeyed b after × (after.sessions ≡ s.sessions)

  bump_version-KeyedLike :
      (s : SessionState b) → IsKeyed b s → KeyedLike s (bump_version b s user_id).0
  unfolding bump_version
  bump_version-KeyedLike s keyed = elim (Option-cases (b.users_table.find s.users user_id)) [
    | inl unknown ↦ rw (unknown, bump_version) (keyed, refl)
    | inr (user, known) ↦
        rw (known, bump_version) (bumped-IsKeyed b s user_id user keyed known, refl)
  ]

  abbrev looped : SessionState b → Option ℕ → SessionState b × ℕ
  looped s current =
      revoke_loop b s env user_id current (b.sessions_store.members s.sessions user_id)

  looped-IsKeyed :
      (s : SessionState b) (current : Option ℕ) → IsKeyed b s → IsKeyed b (looped s current).0
  looped-IsKeyed s current keyed id user found =
      keyed id user
        (rw (revoke_loop-users s current (b.sessions_store.members s.sessions user_id)) at found)

  revoke_all_sessions-KeyedLike :
      (s : SessionState b) (current : Option ℕ)
      → IsKeyed b s
      → KeyedLike (looped s current).0 (revoke_all_sessions b s env user_id current).0
  unfolding revoke_all_sessions
  revoke_all_sessions-KeyedLike s (some current) keyed =
      (looped-IsKeyed s (some current) keyed, refl)
  revoke_all_sessions-KeyedLike s none keyed =
      let done = looped s none in
      subst (KeyedLike done.0)
        (sym (with_count-state b env user_id done.1 (bump_version b done.0 user_id)))
        (bump_version-KeyedLike done.0 (looped-IsKeyed s none keyed))

  -- Where the user is known the call succeeds, and leaves the user's row but for its version.
  pub revoke_all_sessions-user :
      (s : SessionState b) (current : Option ℕ) (user : User)
      → b.users_table.find s.users user_id ≡ some user
      → ((count : ℕ) × ((revoke_all_sessions b s env user_id current).1 ≡ ok count))
        × ((after : User) × (b.users_table.find
                (revoke_all_sessions b s env user_id current).0.users
                user_id
              ≡ some after)
            × (after.user_password_hash ≡ user.user_password_hash))
  unfolding revoke_all_sessions bump_version
  revoke_all_sessions-user s (some current) user known =
      let done = looped s (some current) in
      let same = revoke_loop-users s (some current) (b.sessions_store.members s.sessions user_id) in
      ((done.1, refl), (user, rw same known, refl))
  revoke_all_sessions-user s none user known =
      let done = looped s none in
      let there : b.users_table.find done.0.users user_id ≡ some user =
        rw (revoke_loop-users s none (b.sessions_store.members s.sessions user_id)) known in
      let bumped : bump_version b done.0 user_id ≡ (
        record done.0 {
          users = b.users_table.save done.0.users user_id (increment_token_version user);
        },
        ok tt,
      ) =
        rw (there, bump_version) refl in
      subst
        (λ (o : Outcome b (Unit {0})).
          ((count : ℕ) × ((with_count b done.1 o).1 ≡ ok count))
          × ((after : User) × (b.users_table.find (with_count b done.1 o).0.users user_id
                ≡ some after)
              × (after.user_password_hash ≡ user.user_password_hash)))
        (sym bumped)
        (
          (done.1, refl),
          (
            increment_token_version user,
            ground (
              arith,
              b.users_table.find-save done.0.users user_id user_id (increment_token_version user),
              ==_refl user_id,
            ),
            refl,
          ),
        )

  -- After revokeAllSessions the set of the user holds the current session, if it was there, and no
  -- other, and the guard refuses every access token of the user for another session.
  pub revoke_all_sessions-refused :
      (s : SessionState b) (current : Option ℕ)
      → IsKeyed b s
      → ((session : ℕ)
          → b.sessions_store.is_member
              (revoke_all_sessions b s env user_id current).0.sessions
              user_id
              session
            ≡ (if current is session
                then b.sessions_store.is_member s.sessions user_id session
                else false))
        × ((payload : AccessPayload)
            → payload.sub ≡ user_id
            → ((session : ℕ) → payload.session_id ≡ some session → (current is session) ≡ false)
            → check_claims b (revoke_all_sessions b s env user_id current).0 payload
              ≡ err unauthorized)
  revoke_all_sessions-refused s current keyed =
      let (still_keyed, same) = revoke_all_sessions-KeyedLike s current keyed in
      let left = left_in_set same in
      (
        left,
        λ payload own other.
            check_claims-refused b (revoke_all_sessions b s env user_id current).0 payload
              still_keyed
              (λ session claimed. rw own (left session ∙ rw (other session claimed) refl)),
      )
    where
      left_in_set :
          (revoke_all_sessions b s env user_id current).0.sessions ≡ (looped s current).0.sessions
          → (session : ℕ)
          → in_set (revoke_all_sessions b s env user_id current).0 session
            ≡ (if current is session then in_set s session else false)
      left_in_set same session =
          ap (λ g. b.sessions_store.is_member g user_id session) same
          ∙ revoke_loop-in_set s current (b.sessions_store.members s.sessions user_id) session
          ∙ ground (arith, b.sessions_store.is_member-members s.sessions user_id session)
