-- ===== src/Registry.antt =====
-- Organizations, their members and invitations: organizations/organizations.service.ts, with
-- register, getInvitation and acceptInvitation of auth/auth.service.ts. A method that only throws
-- before its first write gives a `Result`.
pub mod Invitations
pub mod Members
pub mod Fit
pub mod Runs
pub mod Finality
use egypt_supply_chain_visib.Base.{
  ℕ, ◌+◌, ◌==◌, same_text, Bool, true, false, ◌&&◌, Option, none, some, String, List, ◌∷◌,
  if◌then◌else◌, Result, ok, err, forbidden,
}
use egypt_supply_chain_visib.Domain.{
  User, Organization, Role, shipper, carrier, regulator, admin, super_admin, OrganizationType,
  role_text, type_text, is_super_admin, is_admin,
}
use egypt_supply_chain_visib.Store.{Table}
use egypt_supply_chain_visib.Sessions.{Backend, SessionState}

pub data InvitationStatus : Type 0 where
  pending accepted expired : InvitationStatus

abbrev pub is_pending : InvitationStatus → Bool
is_pending pending = true
is_pending _ = false

pub record Invitation : Type 0 where
  pub organization_id : ℕ
  pub invited_email : String
  pub invited_role : Role
  pub token : ℕ
  pub status : InvitationStatus
  pub created_by_user_id : ℕ
  pub expires_at : ℕ

pub data RegistryAction : Type 0 where
  invitation_create invitation_resend invitation_cancel member_deactivate member_activate :
      RegistryAction

-- An audit row: what was done, the organization, the invitation or member, and by whom. Its old and
-- new values are left out.
pub record RegistryAudit : Type 0 where
  pub action : RegistryAction
  pub organization_id : ℕ
  pub subject_id : ℕ
  pub user_id : ℕ

-- The tables that the registry reads beside those of the sessions.
pub record Registers : Type 1 where
  pub backend : Backend
  pub organizations_table : Table Organization
  pub invitations_table : Table Invitation

-- `invited` holds the messages `invitation.created`, an address and a token; the newest first.
pub record Registry (r : Registers) : Type 0 where
  pub session : SessionState r.backend
  pub organizations : r.organizations_table.Rows
  pub invitations : r.invitations_table.Rows
  pub invited : List (String × ℕ)
  pub audited : List RegistryAudit

-- The clock in seconds, and generated identifiers.
pub record Fresh : Type 0 where
  pub now : ℕ
  pub new_user_id : ℕ
  pub new_organization_id : ℕ
  pub new_invitation_id : ℕ
  pub new_invitation_token : ℕ

-- `7 * 24 * 60 * 60 * 1000`, in seconds.
abbrev pub invitation_life : ℕ
invitation_life = 604800

-- `role.toLowerCase() === organization_type.toLowerCase()`; `lower` is toLowerCase.
abbrev pub role_fits : (String → String) → Role → OrganizationType → Bool
role_fits lower role organization_type =
    same_text (lower (role_text role)) (lower (type_text organization_type))

module _ (r : Registers) (s : Registry r) where
  -- ensureOrgAdminOrSuperAdmin
  unfoldable pub ensure_org_admin : ℕ → ℕ → Result (Unit {0})
  ensure_org_admin user_id org_id = elim (r.backend.users_table.find s.session.users user_id) [
    | none ↦ err forbidden
    | some user ↦
        if is_super_admin user.user_role
        then ok tt
        else if is_admin user.user_role && user.organization_id == org_id
        then ok tt
        else err forbidden
  ]

  abbrev pub find_invitation : ℕ → Option Invitation
  find_invitation id = r.invitations_table.find s.invitations id

  -- `findUnique` by the token.
  unfoldable pub find_by_token : ℕ → Option (ℕ × Invitation)
  find_by_token token =
      r.invitations_table.first s.invitations (λ invitation. invitation.token == token)

  unfoldable pub email_taken : String → Option (ℕ × User)
  email_taken email =
      r.backend.users_table.first s.session.users (λ user. same_text user.user_email email)

  abbrev pub save_invitation : ℕ → Invitation → Registry r
  save_invitation id invitation = record s {
    invitations = r.invitations_table.save s.invitations id invitation;
  }

  abbrev pub save_member : ℕ → User → Registry r
  save_member id user = record s {
    session = record s.session { users = r.backend.users_table.save s.session.users id user };
  }
