-- ===== src/Registry/Invitations.antt =====
-- The life of an invitation, and the accounts that are made.
use egypt_supply_chain_visib.Base.{
  ℕ, ◌+◌, ◌==◌, ltb, same_text, true, not, ◌&&◌, Option, none, some, is_some, String, ◌∷◌,
  if◌then◌else◌, Result, ok, err, not_found, conflict, bad_request, throw_if, or_throw, ◌>>=◌, ◌>>◌,
}
use egypt_supply_chain_visib.Domain.{User, OrganizationType, Role, admin, is_admin}
use egypt_supply_chain_visib.Sessions.{Draw, TokenPair}
use egypt_supply_chain_visib.Sessions.Tokens.{create_token_pair}
use egypt_supply_chain_visib.Sessions.Passwords.{Bcrypt}
use egypt_supply_chain_visib.Registry.{
  pending, accepted, expired, is_pending, Invitation, RegistryAction, invitation_create,
  invitation_resend, invitation_cancel, Registers, Registry, Fresh, invitation_life, role_fits,
  ensure_org_admin, find_invitation, find_by_token, email_taken, save_invitation, save_member,
}

pub record RegisterDto : Type 0 where
  pub email : String
  pub password : String
  pub first_name : String
  pub last_name : String
  pub phone : Option String
  pub organization_name : String
  pub organization_type : OrganizationType
  pub organization_email : String

pub record AcceptInvitationDto : Type 0 where
  pub token : ℕ
  pub email : String
  pub password : String
  pub first_name : String
  pub last_name : String

-- `findFirst` with the organization of the invitation.
abbrev pub of_organization : ℕ → Option Invitation → Option Invitation
of_organization org_id none = none
of_organization org_id (some invitation) =
    if invitation.organization_id == org_id then some invitation else none

-- A new token and another week.
abbrev pub renewed : Fresh → Invitation → Invitation
renewed env invitation = record invitation {
  token = env.new_invitation_token;
  expires_at = env.now + invitation_life;
}

module _ (r : Registers) (s : Registry r) where
  -- The message and the audit row that come with a new token.
  abbrev pub send_invitation : RegistryAction → ℕ → ℕ → Invitation → Registry r
  send_invitation action id user_id invitation = record s {
    invitations = r.invitations_table.save s.invitations id invitation;
    invited = (invitation.invited_email, invitation.token) ∷ s.invited;
    audited =
        record {
          action = action;
          organization_id = invitation.organization_id;
          subject_id = id;
          user_id = user_id;
        }
        ∷ s.audited;
  }

  unfoldable pub new_invitation : Fresh → ℕ → String → Role → ℕ → Invitation
  new_invitation env org_id email role user_id = record {
    organization_id = org_id;
    invited_email = email;
    invited_role = role;
    token = env.new_invitation_token;
    status = pending;
    created_by_user_id = user_id;
    expires_at = env.now + invitation_life;
  }

  unfoldable pub check_invitation : (String → String) → ℕ → String → Role → ℕ → Result (Unit {0})
  unfolding ensure_org_admin email_taken
  check_invitation lower org_id email role user_id = do
    ensure_org_admin r s user_id org_id
    throw_if (is_some (email_taken r s email)) conflict
    org ← or_throw (r.organizations_table.find s.organizations org_id) not_found
    throw_if (not (is_admin role) && not (role_fits lower role org.organization_type)) conflict

  unfoldable pub create_invitation :
      (String → String) → Fresh → ℕ → String → Role → ℕ → Result (Registry r)
  unfolding check_invitation new_invitation
  create_invitation lower env org_id email role user_id = do
    check_invitation lower org_id email role user_id
    ok (
        send_invitation invitation_create env.new_invitation_id user_id
          (new_invitation env org_id email role user_id))

  unfoldable pub resend_invitation : Fresh → ℕ → ℕ → ℕ → Result (Registry r)
  unfolding ensure_org_admin
  resend_invitation env org_id invitation_id user_id = do
    ensure_org_admin r s user_id org_id
    invitation ← or_throw (of_organization org_id (find_invitation r s invitation_id)) not_found
    throw_if (not (is_pending invitation.status)) not_found
    ok (send_invitation invitation_resend invitation_id user_id (renewed env invitation))

  abbrev pub drop_invitation : ℕ → ℕ → ℕ → Registry r
  drop_invitation org_id invitation_id user_id = record s {
    invitations = r.invitations_table.delete s.invitations invitation_id;
    audited =
        record {
          action = invitation_cancel;
          organization_id = org_id;
          subject_id = invitation_id;
          user_id = user_id;
        }
        ∷ s.audited;
  }

  unfoldable pub cancel_invitation : ℕ → ℕ → ℕ → Result (Registry r)
  unfolding ensure_org_admin
  cancel_invitation org_id invitation_id user_id = do
    ensure_org_admin r s user_id org_id
    invitation ← or_throw (of_organization org_id (find_invitation r s invitation_id)) not_found
    ok (drop_invitation org_id invitation_id user_id)

  -- What getInvitation and acceptInvitation do first: an invitation that is too old is marked so,
  -- and the caller told.
  unfoldable pub open_invitation : ℕ → ℕ → Registry r × Result (ℕ × Invitation)
  unfolding find_by_token
  open_invitation now token = elim (find_by_token r s token) [
    | none ↦ (s, err bad_request)
    | some (id, invitation) ↦
        if not (is_pending invitation.status)
        then (s, err bad_request)
        else if ltb invitation.expires_at now
        then (save_invitation r s id (record invitation { status = expired }), err bad_request)
        else (s, ok (id, invitation))
  ]

module _ (r : Registers) (crypt : Bcrypt) (lower : String → String) where
  unfoldable pub invited_user : Fresh → ℕ → AcceptInvitationDto → Invitation → User
  invited_user env salt dto invitation = record {
    user_id = env.new_user_id;
    organization_id = invitation.organization_id;
    user_email = dto.email;
    user_password_hash = crypt.hash salt dto.password;
    user_first_name = dto.first_name;
    user_last_name = dto.last_name;
    user_phone = none;
    user_role = invitation.invited_role;
    user_token_version = 0;
    user_is_active = true;
  }

  -- The transaction: the account, and the invitation that is used up.
  unfoldable pub save_accepted :
      Registry r → Fresh → ℕ → AcceptInvitationDto → ℕ → Invitation → Registry r
  unfolding invited_user
  save_accepted s env salt dto id invitation =
      save_invitation r (save_member r s env.new_user_id (invited_user env salt dto invitation)) id
        (record invitation { status = accepted })

  -- createTokenPair for a new account.
  unfoldable pub sign_in : Registry r → Draw → ℕ → Registry r × Result TokenPair
  unfolding create_token_pair
  sign_in s draw user_id =
      let signed = create_token_pair r.backend s.session draw user_id in
      (record s { session = signed.0 }, signed.1)

  unfoldable pub accept_opened :
      Fresh
      → Draw
      → ℕ
      → AcceptInvitationDto
      → Registry r × Result (ℕ × Invitation)
      → Registry r × Result TokenPair
  unfolding save_accepted sign_in email_taken
  accept_opened env draw salt dto (s, err e) = (s, err e)
  accept_opened env draw salt dto (s, ok (id, invitation)) =
      if not (same_text (lower invitation.invited_email) (lower dto.email))
      then (s, err bad_request)
      else if is_some (email_taken r s dto.email)
      then (s, err conflict)
      else sign_in (save_accepted s env salt dto id invitation) draw env.new_user_id

  unfoldable pub accept_invitation :
      Registry r → Fresh → Draw → ℕ → AcceptInvitationDto → Registry r × Result TokenPair
  unfolding open_invitation accept_opened
  accept_invitation s env draw salt dto =
      accept_opened env draw salt dto (open_invitation r s env.now dto.token)

  unfoldable pub founder : Fresh → ℕ → RegisterDto → User
  founder env salt dto = record {
    user_id = env.new_user_id;
    organization_id = env.new_organization_id;
    user_email = dto.email;
    user_password_hash = crypt.hash salt dto.password;
    user_first_name = dto.first_name;
    user_last_name = dto.last_name;
    user_phone = dto.phone;
    user_role = admin;
    user_token_version = 0;
    user_is_active = true;
  }

  -- The nested create: the organization and its admin.
  unfoldable pub save_founder : Registry r → Fresh → ℕ → RegisterDto → Registry r
  unfolding founder
  save_founder s env salt dto = record (save_member r s env.new_user_id (founder env salt dto)) {
    organizations = r.organizations_table.save s.organizations env.new_organization_id (record {
      organization_id = env.new_organization_id;
      organization_name = dto.organization_name;
      organization_email = dto.organization_email;
      organization_type = dto.organization_type;
      organization_is_active = true;
    });
  }

  unfoldable pub register :
      Registry r → Fresh → Draw → ℕ → RegisterDto → Registry r × Result TokenPair
  unfolding email_taken save_founder sign_in
  register s env draw salt dto =
      if is_some (email_taken r s dto.email)
      then (s, err conflict)
      else if is_some (
          r.organizations_table.first s.organizations
            (λ org. same_text org.organization_email dto.organization_email))
      then (s, err conflict)
      else sign_in (save_founder s env salt dto) draw env.new_user_id
