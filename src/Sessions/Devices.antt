-- ===== src/Sessions/Devices.antt =====
-- The loop of getSessions of auth.service.ts: the sessions of a user that are live, and the set
-- without those that are not. That they are sorted and cut into pages afterwards is left out.
use egypt_supply_chain_visib.Base.{
  ℕ, ◌==◌, ==_refl, ◌≡◌, refl, sym, ap, ◌∙◌, inl, inr, Bool, true, false, any, ◌is◌, Bool-cases,
  Option-cases, Option, none, some, List, [], ◌∷◌, if◌then◌else◌, Result, ok, err, not_found, arith,
}
use egypt_supply_chain_visib.Sessions.{SessionFamilyData, Backend, SessionState}

pub record SessionRecord : Type 0 where
  pub session_id : ℕ
  pub user_id : ℕ
  pub created_at : Option ℕ
  pub is_current : Bool

module _ (b : Backend) where
  -- `srem` of a stale family.
  abbrev pub drop_stale : SessionState b → ℕ → ℕ → SessionState b
  drop_stale s user_id family = record s {
    sessions = b.sessions_store.remove_member s.sessions user_id family;
  }

  abbrev pub belongs_to : ℕ → Option SessionFamilyData → Bool
  belongs_to user_id none = false
  belongs_to user_id (some data_of) = data_of.user_id == user_id

  abbrev pub created_of : Option SessionFamilyData → Option ℕ
  created_of none = none
  created_of (some data_of) = data_of.created_at

  abbrev pub session_record : ℕ → Option ℕ → ℕ → Option SessionFamilyData → SessionRecord
  session_record user_id current family data_of = record {
    session_id = family;
    user_id = user_id;
    created_at = created_of data_of;
    is_current = current is family;
  }

  unfoldable pub collect_sessions :
      SessionState b → ℕ → ℕ → Option ℕ → List ℕ → SessionState b × List SessionRecord
  collect_sessions s now user_id current [] = (s, [])
  collect_sessions s now user_id current (family ∷ families) =
      let data_of = b.families_store.get_key s.families now family in
      let live : Bool = belongs_to user_id data_of in
      let rest =
        collect_sessions (if live then s else drop_stale s user_id family) now user_id current
          families in
      (rest.0, if live then session_record user_id current family data_of ∷ rest.1 else rest.1)

  -- getSessions up to the sort.
  unfoldable pub live_sessions :
      SessionState b → ℕ → ℕ → Option ℕ → SessionState b × Result (List SessionRecord)
  unfolding collect_sessions
  live_sessions s now user_id current = elim (b.users_table.find s.users user_id) [
    | none ↦ (s, err not_found)
    | some user ↦
        let found =
          collect_sessions s now user_id current (b.sessions_store.members s.sessions user_id) in
        (found.0, ok found.1)
  ]

  -- The family of a session is there and the user's.
  abbrev pub IsLive : SessionState b → ℕ → ℕ → ℕ → Type 0
  IsLive s now user_id session =
      belongs_to user_id (b.families_store.get_key s.families now session) ≡ true

  kept_families :
      (s : SessionState b) (now user_id : ℕ) (current : Option ℕ) (families : List ℕ)
      → (collect_sessions s now user_id current families).0.families ≡ s.families
  unfolding collect_sessions
  kept_families s now user_id current [] = refl
  kept_families s now user_id current (family ∷ families) =
      elim (Bool-cases (belongs_to user_id (b.families_store.get_key s.families now family))) [
        | inl live ↦ rw live (kept_families s now user_id current families)
        | inr stale ↦
            rw stale (kept_families (drop_stale s user_id family) now user_id current families)
      ]

  kept_members :
      (s : SessionState b) (now user_id : ℕ) (current : Option ℕ) (families : List ℕ) (session : ℕ)
      → b.sessions_store.is_member
          (collect_sessions s now user_id current families).0.sessions
          user_id
          session
        ≡ true
      → (b.sessions_store.is_member s.sessions user_id session ≡ true)
        × (any (λ x. x == session) families ≡ true → IsLive s now user_id session)
  unfolding collect_sessions
  kept_members s now user_id current [] session h = (h, λ none_here. cc)
  kept_members s now user_id current (family ∷ families) session h =
      elim (Bool-cases (belongs_to user_id (b.families_store.get_key s.families now family))) [
        | inl live ↦
            let (member, others) =
              kept_members s now user_id current families session (rw live at h) in
            (
              member,
              λ there. elim (Bool-cases (family == session)) [
                | inl same ↦
                    let at : session ≡ family = ground arith in
                    ap (λ (x : ℕ). belongs_to user_id (b.families_store.get_key s.families now x))
                      at
                    ∙ live
                | inr other ↦ others (ground arith)
              ],
            )
        | inr stale ↦
            let (member, others) =
              kept_members (drop_stale s user_id family) now user_id current families session
                (rw stale at h) in
            let removed =
              b.sessions_store.is_member-remove_member s.sessions user_id family user_id session in
            elim (Bool-cases (family == session)) [
              | inl same ↦ absurd (ground (arith, ==_refl user_id))
              | inr other ↦ (ground arith, λ there. others (ground arith))
            ]
      ]

  -- After getSessions every session in the set of the user was there before, and its family is live
  -- and the user's.
  live_sessions-IsLive :
      (s : SessionState b) (now user_id : ℕ) (current : Option ℕ) (listed : List SessionRecord)
      (session : ℕ)
      → (live_sessions s now user_id current).1 ≡ ok listed
      → b.sessions_store.is_member (live_sessions s now user_id current).0.sessions user_id session
        ≡ true
      → (b.sessions_store.is_member s.sessions user_id session ≡ true)
        × IsLive (live_sessions s now user_id current).0 now user_id session
  unfolding live_sessions
  live_sessions-IsLive s now user_id current listed session h there =
      elim (Option-cases (b.users_table.find s.users user_id)) [
        | inl gone ↦ absurd (ground arith)
        | inr (user, known) ↦
            let families = b.sessions_store.members s.sessions user_id in
            let (before, live) =
              kept_members s now user_id current families session
                (rw (known, live_sessions) at there) in
            let listed_one : any (λ x. x == session) families ≡ true =
              sym (b.sessions_store.is_member-members s.sessions user_id session) ∙ before in
            (
              before,
              rw (known, live_sessions)
                  (ap
                      (λ (f : b.families_store.Keys).
                        belongs_to user_id (b.families_store.get_key f now session))
                      (kept_families s now user_id current families)
                    ∙ live listed_one),
            )
      ]
