-- ===== src/Admin/Guards.antt =====
-- The guard of deleteUser: an organization that has an admin keeps one.
use egypt_supply_chain_visib.Base.{
  ℕ, ◌<◌, ◌==◌, leb, ◌≡◌, ap, sym, subst, ◌∙◌, true, false, ◌&&◌, Bool-cases, inl, inr, some, ok,
  arith, forbidden, not_found, throw_if, throw_if-eq-ok, or_throw, or_throw-eq-ok, bind-eq-ok,
  guard-eq-ok, ok-injective,
}
use egypt_supply_chain_visib.Domain.{User, is_admin}
use egypt_supply_chain_visib.Store.Saves.{delete_elsewhere}
use egypt_supply_chain_visib.Store.Database.{Database}
use egypt_supply_chain_visib.Admin.{Console, find_account}
use egypt_supply_chain_visib.Admin.Users.{administers, check_last_admin, drop_users, delete_user}

module _ (db : Database) where
  -- Somebody administers the organization.
  abbrev pub HasAdmin : Console db → ℕ → Type 0
  HasAdmin c org_id =
      (k : ℕ) × (user : User) × (find_account db c k ≡ some user) × (administers org_id user ≡ true)

  delete_user-run :
      (c : Console db) (admin_id id : ℕ) (after : Console db)
      → delete_user db c admin_id id ≡ ok after
      → (user : User) × (find_account db c id ≡ some user)
        × (check_last_admin db c admin_id user ≡ ok tt)
        × (after.state.users ≡ db.users_table.delete c.state.users id)
  unfolding delete_user drop_users
  delete_user-run c admin_id id after h =
      let (user, got, h1) = bind-eq-ok (or_throw (find_account db c id) not_found) _ h in
      let (other, h2) = guard-eq-ok (throw_if (user.user_id == admin_id) forbidden) _ h1 in
      let (kept, e) = guard-eq-ok (check_last_admin db c admin_id user) _ h2 in
      (
        user,
        or_throw-eq-ok (find_account db c id) not_found got,
        kept,
        ap (λ (x : Console db). x.state.users) (sym (ok-injective e)),
      )

  -- What the guard has counted, less the one that goes.
  more_than_one :
      (c : Console db) (admin_id id : ℕ) (user : User) (org_id : ℕ)
      → administers org_id user ≡ true
      → find_account db c id ≡ some user
      → check_last_admin db c admin_id user ≡ ok tt
      → 0 < db.users_table.count (db.users_table.delete c.state.users id) (administers org_id)
  unfolding check_last_admin
  more_than_one c admin_id id user org_id runs there kept =
      let of : user.organization_id ≡ org_id = ground arith in
      let several =
        subst
          (λ o.
            (is_admin user.user_role && leb (db.users_table.count c.state.users (administers o)) 1)
            ≡ false)
          of
          (throw_if-eq-ok
            (is_admin user.user_role
              && leb (db.users_table.count c.state.users (administers user.organization_id)) 1)
            forbidden kept) in
      ground (arith, db.users_table.count-delete c.state.users (administers org_id) id user there)

  -- An organization that has an admin, active or not, still has one after deleteUser succeeded.
  pub delete_user-HasAdmin :
      (c : Console db) (admin_id id org_id : ℕ) (after : Console db)
      → HasAdmin c org_id
      → delete_user db c admin_id id ≡ ok after
      → HasAdmin after org_id
  unfolding check_last_admin
  delete_user-HasAdmin c admin_id id org_id after (k, user, there, runs) h =
      let (gone, found, kept, rows) = delete_user-run c admin_id id after h in
      let left = db.users_table.delete c.state.users id in
      elim (Bool-cases (id == k)) [
        | inr other ↦ (
          k,
          user,
          ap (λ (x : db.users_table.Rows). db.users_table.find x k) rows
              ∙ delete_elsewhere db.users_table c.state.users id k (ground arith)
              ∙ there,
          runs,
        )
        | inl same ↦
            let at : id ≡ k = ground arith in
            let one : gone ≡ user =
              one_row gone user (sym found ∙ ap (find_account db c) at ∙ there) in
            let several : 0 < db.users_table.count left (administers org_id) =
              more_than_one c admin_id id user org_id runs (ap (find_account db c) at ∙ there)
                (subst (λ (x : User). check_last_admin db c admin_id x ≡ ok tt) one kept) in
            let (j, next, still, runs') =
              db.users_table.count_find left (administers org_id) several in
            (j, next, ap (λ (x : db.users_table.Rows). db.users_table.find x j) rows ∙ still, runs')
      ]
    where
      one_row : (a b : User) → some a ≡ some b → a ≡ b
      one_row a b e = cc
