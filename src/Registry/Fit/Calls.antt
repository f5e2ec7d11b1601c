-- ===== src/Registry/Fit/Calls.antt =====
-- Histories of the registry, and that roles fit throughout.
use egypt_supply_chain_visib.Base.{
  ap, ℕ, ◌≡◌, refl, sym, subst, inl, Bool, true, none, some, String, ok,
}
use egypt_supply_chain_visib.Domain.{User, Role}
use egypt_supply_chain_visib.Sessions.{Draw}
use egypt_supply_chain_visib.Sessions.Passwords.{Bcrypt}
use egypt_supply_chain_visib.Registry.{
  Invitation, RegistryAction, Registers, Registry, Fresh, find_invitation, save_invitation,
  save_member, expired, accepted,
}
use egypt_supply_chain_visib.Registry.Invitations.{
  RegisterDto, AcceptInvitationDto, new_invitation, send_invitation, create_invitation, renewed,
  resend_invitation, cancel_invitation, open_invitation, invited_user, save_accepted, sign_in,
  accept_invitation, founder, save_founder, register,
}
use egypt_supply_chain_visib.Registry.Members.{set_active, deactivate_member, activate_member}
use egypt_supply_chain_visib.Registry.Runs.{
  create_invitation-run, resend_invitation-run, cancel_invitation-run, deactivate_member-run,
  activate_member-run, refused, lapsed, opened, open_invitation-Opened, declined, too_late, joined,
  accept_invitation-Accepting, rejected, founded, register-Founding,
}
use egypt_supply_chain_visib.Registry.Fit.{
  Fits, find_member, IsFit, save_member-IsFit, save_invitation-IsFit, delete_invitation-IsFit,
  save_organization-IsFit, signed_in-IsFit,
}

module _ (r : Registers) (crypt : Bcrypt) (lower : String → String) where
  -- A call that succeeded, or one that may write and throw, whatever it returned. An
  -- organization or an invitation that is made draws an id that is not in use.
  pub data Act (s : Registry r) : Registry r → Type 0 where
    registers :
        (env : Fresh) (draw : Draw) (salt : ℕ) (dto : RegisterDto)
        → r.organizations_table.find s.organizations env.new_organization_id ≡ none
        → Act s (register r crypt lower s env draw salt dto).0
    invites :
        (env : Fresh) (org_id : ℕ) (email : String) (role : Role) (user_id : ℕ) {after : Registry r}
        → find_invitation r s env.new_invitation_id ≡ none
        → create_invitation r s lower env org_id email role user_id ≡ ok after
        → Act s after
    resends :
        (env : Fresh) (org_id invitation_id user_id : ℕ) {after : Registry r}
        → resend_invitation r s env org_id invitation_id user_id ≡ ok after
        → Act s after
    cancels :
        (org_id invitation_id user_id : ℕ) {after : Registry r}
        → cancel_invitation r s org_id invitation_id user_id ≡ ok after
        → Act s after
    looks_up : (now token : ℕ) → Act s (open_invitation r s now token).0
    accepts :
        (env : Fresh) (draw : Draw) (salt : ℕ) (dto : AcceptInvitationDto)
        → Act s (accept_invitation r crypt lower s env draw salt dto).0
    deactivates :
        (org_id target_id requesting_id : ℕ) {after : Registry r}
        → deactivate_member r s org_id target_id requesting_id ≡ ok after
        → Act s after
    activates :
        (org_id target_id requesting_id : ℕ) {after : Registry r}
        → activate_member r s org_id target_id requesting_id ≡ ok after
        → Act s after

  pub data Acts (s : Registry r) : Registry r → Type 0 where
    idle : Acts s s
    then_act : {middle after : Registry r} → Acts s middle → Act middle after → Acts s after

  module _ (s : Registry r) (fit : IsFit r lower s) where
    lapse-IsFit :
        (id : ℕ) (invitation : Invitation)
        → find_invitation r s id ≡ some invitation
        → IsFit r lower (save_invitation r s id (record invitation { status = expired }))
    lapse-IsFit id invitation found =
        save_invitation-IsFit r lower s fit id (record invitation { status = expired })
          (fit.invitations_fit id invitation found)

    send_invitation-IsFit :
        (action : RegistryAction) (id user_id : ℕ) (invitation : Invitation)
        → Fits r lower s.organizations invitation.invited_role invitation.organization_id
        → IsFit r lower (send_invitation r s action id user_id invitation)
    send_invitation-IsFit action id user_id invitation fits =
        let saved = save_invitation-IsFit r lower s fit id invitation fits in
        record { members_fit = saved.members_fit; invitations_fit = saved.invitations_fit }

    set_active-IsFit :
        (action : RegistryAction) (active : Bool) (org_id target_id requesting_id : ℕ) (user : User)
        → find_member r s target_id ≡ some user
        → IsFit r lower (set_active r s action active org_id target_id requesting_id user)
    unfolding set_active
    set_active-IsFit action active org_id target_id requesting_id user found =
        let saved =
          save_member-IsFit r lower s fit target_id (record user { user_is_active = active })
            (fit.members_fit target_id user found) in
        record { members_fit = saved.members_fit; invitations_fit = saved.invitations_fit }

    save_accepted-IsFit :
        (env : Fresh) (salt : ℕ) (dto : AcceptInvitationDto) (id : ℕ) (invitation : Invitation)
        → find_invitation r s id ≡ some invitation
        → IsFit r lower (save_accepted r crypt lower s env salt dto id invitation)
    unfolding save_accepted invited_user
    save_accepted-IsFit env salt dto id invitation found =
        let fits = fit.invitations_fit id invitation found in
        let user = invited_user r crypt lower env salt dto invitation in
        save_invitation-IsFit r lower (save_member r s env.new_user_id user)
          (save_member-IsFit r lower s fit env.new_user_id user fits) id
          (record invitation { status = accepted }) fits

    save_founder-IsFit :
        (env : Fresh) (salt : ℕ) (dto : RegisterDto)
        → r.organizations_table.find s.organizations env.new_organization_id ≡ none
        → IsFit r lower (save_founder r crypt lower s env salt dto)
    unfolding save_founder founder
    save_founder-IsFit env salt dto unused =
        let user = founder r crypt lower env salt dto in
        save_organization-IsFit r lower (save_member r s env.new_user_id user)
          (save_member-IsFit r lower s fit env.new_user_id user (inl refl)) env.new_organization_id
          (record {
            organization_id = env.new_organization_id;
            organization_name = dto.organization_name;
            organization_email = dto.organization_email;
            organization_type = dto.organization_type;
            organization_is_active = true;
          })
          unused

  sign_in-IsFit :
      (s : Registry r) (draw : Draw) (user_id : ℕ)
      → IsFit r lower s
      → IsFit r lower (sign_in r crypt lower s draw user_id).0
  unfolding sign_in
  sign_in-IsFit s draw user_id fit = signed_in-IsFit r lower s fit draw user_id

  Act-IsFit : {s after : Registry r} → IsFit r lower s → Act s after → IsFit r lower after
  unfolding new_invitation
  Act-IsFit {s = s} fit (registers env draw salt dto unused) =
      elim (register-Founding r s crypt lower env draw salt dto) [
        | rejected e ↦ subst (IsFit r lower) (sym e) fit
        | founded e ↦ subst (IsFit r lower) (sym e) (
            sign_in-IsFit (save_founder r crypt lower s env salt dto) draw env.new_user_id
              (save_founder-IsFit s fit env salt dto unused))
      ]
  Act-IsFit {s = s} fit (invites env org_id email role user_id {after = after} unused h) =
      let (fits, e) = create_invitation-run r s lower env org_id email role user_id after h in
      subst (IsFit r lower) e (
        send_invitation-IsFit s fit _ env.new_invitation_id user_id
          (new_invitation r s env org_id email role user_id) fits)
  Act-IsFit {s = s} fit (resends env org_id invitation_id user_id {after = after} h) =
      let (old, found, waiting, e) =
        resend_invitation-run r s env org_id invitation_id user_id after h in
      subst (IsFit r lower) e (
        send_invitation-IsFit s fit _ invitation_id user_id (renewed env old)
          (fit.invitations_fit invitation_id old found))
  Act-IsFit {s = s} fit (cancels org_id invitation_id user_id {after = after} h) =
      let dropped = delete_invitation-IsFit r lower s fit invitation_id in
      subst (IsFit r lower) (cancel_invitation-run r s org_id invitation_id user_id after h)
        (record { members_fit = dropped.members_fit; invitations_fit = dropped.invitations_fit })
  Act-IsFit {s = s} fit (looks_up now token) = elim (open_invitation-Opened r s now token) [
    | refused e ↦ rw e fit
    | lapsed id invitation found waiting e ↦ rw e (lapse-IsFit s fit id invitation found)
    | opened id invitation found waiting token young e ↦ rw e fit
  ]
  Act-IsFit {s = s} fit (accepts env draw salt dto) =
      elim (accept_invitation-Accepting r s crypt lower env draw salt dto) [
        | declined thrown e ↦ subst (IsFit r lower) (sym (ap (λ o. o.0) e)) fit
        | too_late id invitation found waiting e ↦
            subst (IsFit r lower) (sym (ap (λ o. o.0) e)) (lapse-IsFit s fit id invitation found)
        | joined id invitation found waiting token young same e ↦
            subst (IsFit r lower) (sym (ap (λ o. o.0) e)) (
              sign_in-IsFit (save_accepted r crypt lower s env salt dto id invitation) draw
                env.new_user_id (save_accepted-IsFit s fit env salt dto id invitation found))
      ]
  Act-IsFit {s = s} fit (deactivates org_id target_id requesting_id {after = after} h) =
      let (user, found, e) = deactivate_member-run r s org_id target_id requesting_id after h in
      subst (IsFit r lower) e (set_active-IsFit s fit _ _ org_id target_id requesting_id user found)
  Act-IsFit {s = s} fit (activates org_id target_id requesting_id {after = after} h) =
      let (user, found, e) = activate_member-run r s org_id target_id requesting_id after h in
      subst (IsFit r lower) e (set_active-IsFit s fit _ _ org_id target_id requesting_id user found)

  -- However registration, invitations and members are used, every account and every invitation has
  -- the role admin or super admin or one that is, case aside, the type of its organization, if that
  -- held at first and generated identifiers of organizations and invitations are not in use.
  pub Acts-IsFit : {s after : Registry r} → IsFit r lower s → Acts s after → IsFit r lower after
  Acts-IsFit fit idle = fit
  Acts-IsFit fit (then_act acts act) = Act-IsFit (Acts-IsFit fit acts) act
