-- ===== src/Registry/Fit.antt =====
-- Roles and organizations: every account and every invitation has a role of the organization's type.
pub mod Calls
use egypt_supply_chain_visib.Base.{
  ℕ, ◌==◌, ==_refl, ◌≡◌, ◌≢◌, refl, sym, subst, ◌⊎◌, inl, inr, Bool, true, false, ◌||◌, Bool-cases,
  Option-cases, Option, none, some, arith, String,
}
use egypt_supply_chain_visib.Domain.{User, Organization, Role, is_admin, is_super_admin}
use egypt_supply_chain_visib.Sessions.{Draw}
use egypt_supply_chain_visib.Sessions.Tokens.{create_token_pair, open_session}
use egypt_supply_chain_visib.Store.Saves.{save-cases, delete-eq-some}
use egypt_supply_chain_visib.Registry.{
  Invitation, Registers, Registry, role_fits, find_invitation, save_invitation, save_member,
}

module _ (r : Registers) where
  abbrev pub find_member : Registry r → ℕ → Option User
  find_member s id = r.backend.users_table.find s.session.users id

module _ (r : Registers) (lower : String → String) where
  -- Admins may be of any organization; the others' role is the type of theirs, case aside.
  abbrev pub Fits : r.organizations_table.Rows → Role → ℕ → Type 0
  Fits orgs role org_id =
      ((is_admin role || is_super_admin role) ≡ true)
      ⊎ ((org : Organization) × (r.organizations_table.find orgs org_id ≡ some org)
          × (role_fits lower role org.organization_type ≡ true))

  pub record IsFit (s : Registry r) : Type 0 where
    pub members_fit :
        (id : ℕ) (user : User)
        → find_member r s id ≡ some user
        → Fits s.organizations user.user_role user.organization_id
    pub invitations_fit :
        (id : ℕ) (invitation : Invitation)
        → find_invitation r s id ≡ some invitation
        → Fits s.organizations invitation.invited_role invitation.organization_id

module _ (r : Registers) (lower : String → String) (s : Registry r) (fit : IsFit r lower s) where
  pub save_member-IsFit :
      (id : ℕ) (user : User)
      → Fits r lower s.organizations user.user_role user.organization_id
      → IsFit r lower (save_member r s id user)
  save_member-IsFit id user fits = record {
    members_fit = λ k row found.
        elim (save-cases r.backend.users_table s.session.users id k user row found) [
          | inl (same, e) ↦
              subst (λ (x : User). Fits r lower s.organizations x.user_role x.organization_id) e
                fits
          | inr (other, there) ↦ fit.members_fit k row there
        ];
    invitations_fit = fit.invitations_fit;
  }

  pub save_invitation-IsFit :
      (id : ℕ) (invitation : Invitation)
      → Fits r lower s.organizations invitation.invited_role invitation.organization_id
      → IsFit r lower (save_invitation r s id invitation)
  save_invitation-IsFit id invitation fits = record {
    members_fit = fit.members_fit;
    invitations_fit = λ k row found.
        elim (save-cases r.invitations_table s.invitations id k invitation row found) [
          | inl (same, e) ↦
              subst
                (λ (x : Invitation). Fits r lower s.organizations x.invited_role x.organization_id)
                e fits
          | inr (other, there) ↦ fit.invitations_fit k row there
        ];
  }

  pub delete_invitation-IsFit :
      (id : ℕ)
      → IsFit r lower (record s { invitations = r.invitations_table.delete s.invitations id })
  delete_invitation-IsFit id = record {
    members_fit = fit.members_fit;
    invitations_fit = λ k row found.
        fit.invitations_fit k row
          (delete-eq-some r.invitations_table s.invitations id k row found).1;
  }

  -- An organization under an id that was not in use.
  pub save_organization-IsFit :
      (id : ℕ) (org : Organization)
      → r.organizations_table.find s.organizations id ≡ none
      → IsFit r lower
          (record s { organizations = r.organizations_table.save s.organizations id org })
  save_organization-IsFit id org unused = record {
    members_fit =
        λ k row found. still row.user_role row.organization_id (fit.members_fit k row found);
    invitations_fit =
        λ k row found. still row.invited_role row.organization_id (fit.invitations_fit k row found);
  }
    where
      still :
          (role : Role) (org_id : ℕ)
          → Fits r lower s.organizations role org_id
          → Fits r lower (r.organizations_table.save s.organizations id org) role org_id
      still role org_id (inl free) = inl free
      still role org_id (inr (of, there, fits)) =
          inr (
            of,
            ground (arith, r.organizations_table.find-save s.organizations id org_id org),
            fits,
          )

  -- createTokenPair leaves the users.
  pub signed_in-IsFit :
      (draw : Draw) (user_id : ℕ)
      → IsFit r lower
          (record s { session = (create_token_pair r.backend s.session draw user_id).0 })
  unfolding create_token_pair open_session
  signed_in-IsFit draw user_id =
      elim (Option-cases (r.backend.users_table.find s.session.users user_id)) [
        | inl unknown ↦
            rw (unknown, create_token_pair)
              (record { members_fit = fit.members_fit; invitations_fit = fit.invitations_fit })
        | inr (user, known) ↦
            rw (known, create_token_pair)
              (record { members_fit = fit.members_fit; invitations_fit = fit.invitations_fit })
      ]
