-- ===== src/Admin/Staff.antt =====
-- Roles and organizations under administration: what changes neither keeps them fitting.
pub mod Kept
pub mod Commands
use egypt_supply_chain_visib.Base.{
  ℕ, ◌==◌, ==_refl, ◌≡◌, refl, sym, subst, ap, ◌∙◌, ◌⊎◌, inl, inr, Bool, true, false, ◌||◌, Option,
  none, some, arith, Bool-cases, String,
}
use egypt_supply_chain_visib.Domain.{
  User, Organization, OrganizationType, Role, is_admin, is_super_admin,
}
use egypt_supply_chain_visib.Store.{Table}
use egypt_supply_chain_visib.Store.Saves.{
  save-cases, delete-eq-some, update_where-eq-some, delete_where-eq-some,
}
use egypt_supply_chain_visib.Store.Database.{Database, State}
use egypt_supply_chain_visib.Registry.{role_fits}

module _ (db : Database) where
  -- Every account was there, with its role and organization.
  abbrev pub KeepsStaff : db.users_table.Rows → db.users_table.Rows → Type 0
  KeepsStaff before after =
      (id : ℕ) (user : User)
      → db.users_table.find after id ≡ some user
      → (old : User) × (db.users_table.find before id ≡ some old)
        × (old.user_role ≡ user.user_role)
        × (old.organization_id ≡ user.organization_id)

  -- Every organization is still there, with its type.
  abbrev pub KeepsTypes : db.organizations_table.Rows → db.organizations_table.Rows → Type 0
  KeepsTypes before after =
      (id : ℕ) (org : Organization)
      → db.organizations_table.find before id ≡ some org
      → (new : Organization) × (db.organizations_table.find after id ≡ some new)
        × (new.organization_type ≡ org.organization_type)

  module _ (rows : db.users_table.Rows) where
    pub same-KeepsStaff : KeepsStaff rows rows
    same-KeepsStaff id user found = (user, found, refl, refl)

    pub save-KeepsStaff :
        (id : ℕ) (old user : User)
        → db.users_table.find rows id ≡ some old
        → old.user_role ≡ user.user_role
        → old.organization_id ≡ user.organization_id
        → KeepsStaff rows (db.users_table.save rows id user)
    save-KeepsStaff id old user there role of k found at =
        elim (save-cases db.users_table rows id k user found at) [
          | inl (here, e) ↦ (
            old,
            ap (db.users_table.find rows) (sym here) ∙ there,
            role ∙ ap (λ (x : User). x.user_role) e,
            of ∙ ap (λ (x : User). x.organization_id) e,
          )
          | inr (other, before) ↦ (found, before, refl, refl)
        ]

    pub delete-KeepsStaff : (id : ℕ) → KeepsStaff rows (db.users_table.delete rows id)
    delete-KeepsStaff id k found at =
        (found, (delete-eq-some db.users_table rows id k found at).1, refl, refl)

    pub delete_where-KeepsStaff :
        (p : User → Bool) → KeepsStaff rows (db.users_table.delete_where rows p)
    delete_where-KeepsStaff p k found at =
        (found, (delete_where-eq-some db.users_table rows p k found at).0, refl, refl)

    unflagged :
        (p : User → Bool) (active : Bool) (old found : User)
        → ((p old ≡ true) × (record old { user_is_active = active } ≡ found))
          ⊎ ((p old ≡ false) × (old ≡ found))
        → (old.user_role ≡ found.user_role) × (old.organization_id ≡ found.organization_id)
    unflagged p active old found (inl (hit, e)) =
        (ap (λ (x : User). x.user_role) e, ap (λ (x : User). x.organization_id) e)
    unflagged p active old found (inr (miss, e)) =
        (ap (λ (x : User). x.user_role) e, ap (λ (x : User). x.organization_id) e)

    -- A flag that is written over.
    pub flag-KeepsStaff :
        (p : User → Bool) (active : Bool)
        → KeepsStaff rows
            (db.users_table.update_where rows p (λ user. record user { user_is_active = active }))
    flag-KeepsStaff p active k found at =
        let (old, there, came) =
          update_where-eq-some db.users_table rows p
            (λ user. record user { user_is_active = active }) k found at in
        let (role, of) = unflagged p active old found came in (old, there, role, of)

  module _ (rows : db.organizations_table.Rows) where
    pub same-KeepsTypes : KeepsTypes rows rows
    same-KeepsTypes id org found = (org, found, refl)

    pub save-KeepsTypes :
        (id : ℕ) (old new : Organization)
        → db.organizations_table.find rows id ≡ some old
        → new.organization_type ≡ old.organization_type
        → KeepsTypes rows (db.organizations_table.save rows id new)
    save-KeepsTypes id old new there same k org found = elim (Bool-cases (id == k)) [
      | inl here ↦
          let at : id ≡ k = ground arith in
          let one : old ≡ org =
            one_org old org (sym there ∙ ap (db.organizations_table.find rows) at ∙ found) in
          (
            new,
            ground (arith, db.organizations_table.find-save rows id k new),
            same ∙ ap (λ (x : Organization). x.organization_type) one,
          )
      | inr other ↦ (org, ground (arith, db.organizations_table.find-save rows id k new), refl)
    ]
      where
        one_org : (a b : Organization) → some a ≡ some b → a ≡ b
        one_org a b e = cc

    pub flag-KeepsTypes :
        (p : Organization → Bool) (active : Bool)
        → KeepsTypes rows (
            db.organizations_table.update_where rows p
              (λ org. record org { organization_is_active = active }))
    flag-KeepsTypes p active k org found = elim (Bool-cases (p org)) [
      | inl hit ↦ (
        record org { organization_is_active = active },
        db.organizations_table.find-update_where rows p
              (λ org. record org { organization_is_active = active }) k
            ∙ rw (found, hit) refl,
        refl,
      )
      | inr miss ↦ (
        org,
        db.organizations_table.find-update_where rows p
              (λ org. record org { organization_is_active = active }) k
            ∙ rw (found, miss) refl,
        refl,
      )
    ]

module _ (db : Database) (lower : String → String) where
  -- Admins may be of any organization; the others' role is the type of theirs, case aside.
  abbrev pub Suits : db.organizations_table.Rows → Role → ℕ → Type 0
  Suits orgs role org_id =
      ((is_admin role || is_super_admin role) ≡ true)
      ⊎ ((org : Organization) × (db.organizations_table.find orgs org_id ≡ some org)
          × (role_fits lower role org.organization_type ≡ true))

  pub record IsStaffed (s : State db) : Type 0 where
    pub suits :
        (id : ℕ) (user : User)
        → db.users_table.find s.users id ≡ some user
        → Suits s.organizations user.user_role user.organization_id

  pub kept-Suits :
      (before after : db.organizations_table.Rows) (role : Role) (org_id : ℕ)
      → KeepsTypes db before after
      → Suits before role org_id
      → Suits after role org_id
  kept-Suits before after role org_id types (inl free) = inl free
  kept-Suits before after role org_id types (inr (org, there, fits)) =
      let (new, still, same) = types org_id org there in
      inr (
        new,
        still,
        subst (λ (t : OrganizationType). role_fits lower role t ≡ true) (sym same) fits,
      )

  pub kept-IsStaffed :
      (s after : State db)
      → IsStaffed s
      → KeepsStaff db s.users after.users
      → KeepsTypes db s.organizations after.organizations
      → IsStaffed after
  kept-IsStaffed s after staffed staff types = record {
    suits = λ id user found.
        let (old, there, role, of) = staff id user found in
        subst (λ (x : Role). Suits after.organizations x user.organization_id) role
          (subst (λ (o : ℕ). Suits after.organizations old.user_role o) of
            (kept-Suits s.organizations after.organizations old.user_role old.organization_id types
              (staffed.suits id old there)));
  }
