-- ===== src/Registry/Runs.antt =====
-- Inversion: what a call of the registry that succeeded has found and written.
use egypt_supply_chain_visib.Base.{
  ◌≤◌, conflict, Error, bad_request, ok-injective, ℕ, ◌≡◌, refl, inl, inr, true, false, Bool-cases,
  Option-cases, Option, none, some, is_some, String, Result, ok, err, arith, guard-eq-ok, ltb,
  same_text,
}
use egypt_supply_chain_visib.Domain.{User, Role, is_admin}
use egypt_supply_chain_visib.Sessions.{Draw, TokenPair}
use egypt_supply_chain_visib.Sessions.Passwords.{Bcrypt}
use egypt_supply_chain_visib.Registry.{
  invitation_create, invitation_resend, member_deactivate, member_activate, Invitation, Registers,
  Registry, Fresh, find_invitation, find_by_token, save_invitation, expired, is_pending,
  email_taken,
}
use egypt_supply_chain_visib.Registry.Invitations.{
  renewed, drop_invitation, RegisterDto, AcceptInvitationDto, of_organization, check_invitation,
  new_invitation, send_invitation, create_invitation, resend_invitation, cancel_invitation,
  open_invitation, save_accepted, sign_in, accept_opened, accept_invitation, save_founder, register,
}
use egypt_supply_chain_visib.Registry.Members.{
  of_member, set_active, deactivate_member, activate_member,
}
use egypt_supply_chain_visib.Registry.Fit.{Fits, find_member}

-- What the guards of a call that succeeded have established.
of_organization-eq-some :
    (org_id : ℕ) (o : Option Invitation) (invitation : Invitation)
    → of_organization org_id o ≡ some invitation
    → (o ≡ some invitation) × (invitation.organization_id ≡ org_id)
of_organization-eq-some org_id none invitation h = cc
of_organization-eq-some org_id (some i) invitation h = ground arith

of_member-eq-some :
    (org_id : ℕ) (o : Option User) (user : User)
    → of_member org_id o ≡ some user
    → (o ≡ some user) × (user.organization_id ≡ org_id)
of_member-eq-some org_id none user h = cc
of_member-eq-some org_id (some u) user h = ground arith

module _ (r : Registers) (s : Registry r) where
  check_invitation-Fits :
      (lower : String → String) (org_id : ℕ) (email : String) (role : Role) (user_id : ℕ)
      → check_invitation r s lower org_id email role user_id ≡ ok tt
      → Fits r lower s.organizations role org_id
  unfolding check_invitation
  check_invitation-Fits lower org_id email role user_id h =
      elim (Option-cases (r.organizations_table.find s.organizations org_id)) [
        | inl gone ↦ absurd (ground arith)
        | inr (org, there) ↦ elim (Bool-cases (is_admin role)) [
          | inl free ↦ inl (ground arith)
          | inr bound ↦ inr (org, there, ground arith)
        ]
      ]

  pub create_invitation-run :
      (lower : String → String) (env : Fresh) (org_id : ℕ) (email : String) (role : Role)
      (user_id : ℕ) (after : Registry r)
      → create_invitation r s lower env org_id email role user_id ≡ ok after
      → Fits r lower s.organizations role org_id
        × (send_invitation r s invitation_create env.new_invitation_id user_id
              (new_invitation r s env org_id email role user_id)
            ≡ after)
  unfolding create_invitation
  create_invitation-run lower env org_id email role user_id after h =
      let (checked, sent) =
        guard-eq-ok (check_invitation r s lower org_id email role user_id) _ h in
      (check_invitation-Fits lower org_id email role user_id checked, ok-injective sent)

  pub resend_invitation-run :
      (env : Fresh) (org_id invitation_id user_id : ℕ) (after : Registry r)
      → resend_invitation r s env org_id invitation_id user_id ≡ ok after
      → (old : Invitation) × (find_invitation r s invitation_id ≡ some old)
        × (is_pending old.status ≡ true)
        × (send_invitation r s invitation_resend invitation_id user_id (renewed env old) ≡ after)
  unfolding resend_invitation
  resend_invitation-run env org_id invitation_id user_id after h =
      elim (Option-cases (of_organization org_id (find_invitation r s invitation_id))) [
        | inl gone ↦ absurd (ground arith)
        | inr (old, there) ↦ (
          old,
          (of_organization-eq-some org_id (find_invitation r s invitation_id) old there).0,
          ground arith,
          ground arith,
        )
      ]

  pub cancel_invitation-run :
      (org_id invitation_id user_id : ℕ) (after : Registry r)
      → cancel_invitation r s org_id invitation_id user_id ≡ ok after
      → drop_invitation r s org_id invitation_id user_id ≡ after
  unfolding cancel_invitation
  cancel_invitation-run org_id invitation_id user_id after h = ground arith

  pub deactivate_member-run :
      (org_id target_id requesting_id : ℕ) (after : Registry r)
      → deactivate_member r s org_id target_id requesting_id ≡ ok after
      → (user : User) × (find_member r s target_id ≡ some user)
        × (set_active r s member_deactivate false org_id target_id requesting_id user ≡ after)
  unfolding deactivate_member
  deactivate_member-run org_id target_id requesting_id after h =
      elim (Option-cases (of_member org_id (find_member r s target_id))) [
        | inl gone ↦ absurd (ground arith)
        | inr (user, there) ↦ (
          user,
          (of_member-eq-some org_id (find_member r s target_id) user there).0,
          ground arith,
        )
      ]

  pub activate_member-run :
      (org_id target_id requesting_id : ℕ) (after : Registry r)
      → activate_member r s org_id target_id requesting_id ≡ ok after
      → (user : User) × (find_member r s target_id ≡ some user)
        × (set_active r s member_activate true org_id target_id requesting_id user ≡ after)
  unfolding activate_member
  activate_member-run org_id target_id requesting_id after h =
      elim (Option-cases (of_member org_id (find_member r s target_id))) [
        | inl gone ↦ absurd (ground arith)
        | inr (user, there) ↦ (
          user,
          (of_member-eq-some org_id (find_member r s target_id) user there).0,
          ground arith,
        )
      ]

-- What an invitation that is presented can come to.
pub data Opened (r : Registers) (s : Registry r) (now token : ℕ)
    (o : Registry r × Result (ℕ × Invitation)) : Type 0 where
  refused : o ≡ (s, err bad_request) → Opened r s now token o
  lapsed :
      (id : ℕ) (invitation : Invitation)
      → find_invitation r s id ≡ some invitation
      → is_pending invitation.status ≡ true
      → o ≡ (save_invitation r s id (record invitation { status = expired }), err bad_request)
      → Opened r s now token o
  opened :
      (id : ℕ) (invitation : Invitation)
      → find_invitation r s id ≡ some invitation
      → is_pending invitation.status ≡ true
      → invitation.token ≡ token
      → now ≤ invitation.expires_at
      → o ≡ (s, ok (id, invitation))
      → Opened r s now token o

module _ (r : Registers) (s : Registry r) where
  pub open_invitation-Opened :
      (now token : ℕ) → Opened r s now token (open_invitation r s now token)
  unfolding open_invitation find_by_token
  open_invitation-Opened now token = elim (Option-cases (find_by_token r s token)) [
    | inl unknown ↦ refused (rw (unknown, open_invitation, find_by_token) refl)
    | inr ((id, invitation), there) ↦
        let (found, same) = r.invitations_table.first-eq-some s.invitations _ id invitation there in
        elim (Bool-cases (is_pending invitation.status)) [
          | inr used ↦ refused (rw (there, open_invitation) (ground arith))
          | inl waiting ↦ elim (Bool-cases (ltb invitation.expires_at now)) [
            | inl old ↦
                lapsed id invitation found waiting (rw (there, open_invitation) (ground arith))
            | inr young ↦
                opened id invitation found waiting (ground (arith, same)) (ground arith)
                  (rw (there, open_invitation) (ground arith))
          ]
        ]
  ]

  module _ (crypt : Bcrypt) (lower : String → String) (env : Fresh) (draw : Draw) (salt : ℕ) where
    -- What acceptInvitation can come to.
    pub data Accepting (dto : AcceptInvitationDto) (o : Registry r × Result TokenPair)
        : Type 0 where
      declined : (e : Error) → o ≡ (s, err e) → Accepting dto o
      too_late :
          (id : ℕ) (invitation : Invitation)
          → find_invitation r s id ≡ some invitation
          → is_pending invitation.status ≡ true
          → o ≡ (save_invitation r s id (record invitation { status = expired }), err bad_request)
          → Accepting dto o
      joined :
          (id : ℕ) (invitation : Invitation)
          → find_invitation r s id ≡ some invitation
          → is_pending invitation.status ≡ true
          → invitation.token ≡ dto.token
          → env.now ≤ invitation.expires_at
          → same_text (lower invitation.invited_email) (lower dto.email) ≡ true
          → o
            ≡ sign_in r crypt lower
                (save_accepted r crypt lower s env salt dto id invitation)
                draw
                env.new_user_id
          → Accepting dto o

    pub accept_invitation-Accepting :
        (dto : AcceptInvitationDto)
        → Accepting dto (accept_invitation r crypt lower s env draw salt dto)
    unfolding accept_invitation accept_opened
    accept_invitation-Accepting dto = elim (open_invitation-Opened env.now dto.token) [
      | refused e ↦ declined bad_request (rw e refl)
      | lapsed id invitation found waiting e ↦ too_late id invitation found waiting (rw e refl)
      | opened id invitation found waiting token young e ↦
          elim (Bool-cases (same_text (lower invitation.invited_email) (lower dto.email))) [
            | inr other ↦ declined bad_request (rw e (rw other refl))
            | inl same ↦ elim (Bool-cases (is_some (email_taken r s dto.email))) [
              | inl taken ↦ declined conflict (rw e (rw (same, taken) refl))
              | inr free ↦
                  joined id invitation found waiting token young same (rw e (rw (same, free) refl))
            ]
          ]
    ]

    pub data Founding (dto : RegisterDto) (after : Registry r) : Type 0 where
      rejected : after ≡ s → Founding dto after
      founded :
          after
            ≡ (sign_in r crypt lower
                (save_founder r crypt lower s env salt dto)
                draw
                env.new_user_id).0
          → Founding dto after

    pub register-Founding :
        (dto : RegisterDto) → Founding dto (register r crypt lower s env draw salt dto).0
    unfolding register
    register-Founding dto = elim (Bool-cases (is_some (email_taken r s dto.email))) [
      | inl taken ↦ rejected (rw (taken, register) refl)
      | inr free ↦
          elim (Bool-cases (
            is_some (
              r.organizations_table.first s.organizations
                (λ org. same_text org.organization_email dto.organization_email)))) [
                  | inl taken ↦ rejected (rw (free, taken, register) refl)
                  | inr open_name ↦ founded (rw (free, open_name, register) refl)
                ]
    ]
