-- ===== src/Registry/Finality.antt =====
-- The life of an invitation: only one that is pending changes, and then in few ways.
use egypt_supply_chain_visib.Base.{
  ℕ, ◌≤◌, ◌≡◌, ◌==◌, refl, sym, subst, ap, ◌∙◌, inl, inr, Bool-cases, Option-cases, true, Option,
  none, some, String, ok, same_text, arith,
}
use egypt_supply_chain_visib.Domain.{User}
use egypt_supply_chain_visib.Store.Saves.{save_here, save_elsewhere}
use egypt_supply_chain_visib.Sessions.{Draw, TokenPair}
use egypt_supply_chain_visib.Sessions.Tokens.{create_token_pair, open_session}
use egypt_supply_chain_visib.Sessions.Passwords.{Bcrypt}
use egypt_supply_chain_visib.Registry.{
  Invitation, Registers, Registry, Fresh, is_pending, find_invitation, accepted, expired,
  save_invitation,
}
use egypt_supply_chain_visib.Registry.Invitations.{
  AcceptInvitationDto, invited_user, save_accepted, sign_in, accept_invitation, save_founder,
  new_invitation, renewed,
}
use egypt_supply_chain_visib.Registry.Runs.{
  create_invitation-run, resend_invitation-run, cancel_invitation-run, deactivate_member-run,
  activate_member-run, refused, lapsed, opened, open_invitation-Opened, declined, too_late, joined,
  accept_invitation-Accepting, rejected, founded, register-Founding,
}
use egypt_supply_chain_visib.Registry.Fit.{find_member}
use egypt_supply_chain_visib.Registry.Fit.Calls.{
  Act, registers, invites, resends, cancels, looks_up, accepts, deactivates, activates,
}
use egypt_supply_chain_visib.Registry.Members.{set_active}

-- What may become of an invitation in one call.
pub data Moves (before : Invitation) (after : Option Invitation) : Type 0 where
  untouched : after ≡ some before → Moves before after
  resent :
      (new_token until : ℕ)
      → is_pending before.status ≡ true
      → after ≡ some (record before { token = new_token; expires_at = until })
      → Moves before after
  lapses :
      is_pending before.status ≡ true
      → after ≡ some (record before { status = expired })
      → Moves before after
  used :
      is_pending before.status ≡ true
      → after ≡ some (record before { status = accepted })
      → Moves before after
  withdrawn : after ≡ none → Moves before after

one_row : (a b : Invitation) → some a ≡ some b → a ≡ b
one_row a b h = cc

module _ (r : Registers) (s : Registry r) (id : ℕ) (invitation : Invitation)
    (found : find_invitation r s id ≡ some invitation) where
  -- A write to an invitation moves that one and no other.
  save-Moves :
      (other : ℕ) (old new : Invitation)
      → find_invitation r s other ≡ some old
      → Moves old (some new)
      → Moves invitation (find_invitation r (save_invitation r s other new) id)
  save-Moves other old new there moves = elim (Bool-cases (other == id)) [
    | inl same ↦
        let at : other ≡ id = ground arith in
        let one : old ≡ invitation =
          one_row old invitation (sym there ∙ ap (find_invitation r s) at ∙ found) in
        let now : find_invitation r (save_invitation r s other new) id ≡ some new =
          ground (arith, r.invitations_table.find-save s.invitations other id new) in
        rw now (subst (λ (x : Invitation). Moves x (some new)) one moves)
    | inr apart ↦
        untouched (ground (arith, r.invitations_table.find-save s.invitations other id new))
  ]

  delete-Moves :
      (other : ℕ)
      → Moves invitation
          (r.invitations_table.find (r.invitations_table.delete s.invitations other) id)
  delete-Moves other = elim (Bool-cases (other == id)) [
    | inl same ↦ withdrawn (ground (arith, r.invitations_table.find-delete s.invitations other id))
    | inr apart ↦ untouched (ground (arith, r.invitations_table.find-delete s.invitations other id))
  ]

module _ (r : Registers) (crypt : Bcrypt) (lower : String → String) where
  -- In one call, whichever it is, and if a new invitation has an identifier that is not in use, an
  -- invitation that is there is left as it is, is gone, or was pending and has a new token and
  -- time, has expired or was accepted: its role, address and organization never change, and one that
  -- is not pending is never pending again.
  pub Act-Moves :
      {s after : Registry r} (id : ℕ) (invitation : Invitation)
      → find_invitation r s id ≡ some invitation
      → Act r crypt lower s after
      → Moves invitation (find_invitation r after id)
  unfolding sign_in save_founder save_accepted new_invitation set_active
  Act-Moves {s = s} id invitation found (registers env draw salt dto unused) =
      elim (register-Founding r s crypt lower env draw salt dto) [
        | rejected e ↦ untouched (ap (λ (x : Registry r). find_invitation r x id) e ∙ found)
        | founded e ↦ untouched (ap (λ (x : Registry r). find_invitation r x id) e ∙ found)
      ]
  Act-Moves {s = s} id invitation found
        (invites env org_id email role user_id {after = after} unused h) =
      let (fits, e) = create_invitation-run r s lower env org_id email role user_id after h in
      untouched (
        ap (λ (x : Registry r). find_invitation r x id) (sym e)
        ∙ save_elsewhere r.invitations_table s.invitations env.new_invitation_id id
            (new_invitation r s env org_id email role user_id) (λ same. absurd (ground arith))
        ∙ found)
  Act-Moves {s = s} id invitation found
        (resends env org_id invitation_id user_id {after = after} h) =
      let (old, there, waiting, e) =
        resend_invitation-run r s env org_id invitation_id user_id after h in
      subst (λ (x : Registry r). Moves invitation (find_invitation r x id)) e
        (save-Moves r s id invitation found invitation_id old (renewed env old) there
          (resent (renewed env old).token (renewed env old).expires_at waiting refl))
  Act-Moves {s = s} id invitation found (cancels org_id invitation_id user_id {after = after} h) =
      subst (λ (x : Registry r). Moves invitation (find_invitation r x id))
        (cancel_invitation-run r s org_id invitation_id user_id after h)
        (delete-Moves r s id invitation found invitation_id)
  Act-Moves {s = s} id invitation found (looks_up now token) =
      elim (open_invitation-Opened r s now token) [
        | refused e ↦ untouched (ap (λ o. find_invitation r o.0 id) e ∙ found)
        | lapsed other old there waiting e ↦
            subst (λ (x : Registry r). Moves invitation (find_invitation r x id))
              (sym (ap (λ o. o.0) e))
              (save-Moves r s id invitation found other old (record old { status = expired }) there
                (lapses waiting refl))
        | opened other old there waiting same young e ↦
            untouched (ap (λ o. find_invitation r o.0 id) e ∙ found)
      ]
  Act-Moves {s = s} id invitation found (accepts env draw salt dto) =
      elim (accept_invitation-Accepting r s crypt lower env draw salt dto) [
        | declined thrown e ↦ untouched (ap (λ o. find_invitation r o.0 id) e ∙ found)
        | too_late other old there waiting e ↦
            subst (λ (x : Registry r). Moves invitation (find_invitation r x id))
              (sym (ap (λ o. o.0) e))
              (save-Moves r s id invitation found other old (record old { status = expired }) there
                (lapses waiting refl))
        | joined other old there waiting token young same e ↦
            subst (λ (x : Registry r). Moves invitation (find_invitation r x id))
              (sym (ap (λ o. o.0) e))
              (save-Moves r s id invitation found other old (record old { status = accepted }) there
                (used waiting refl))
      ]
  Act-Moves {s = s} id invitation found
        (deactivates org_id target_id requesting_id {after = after} h) =
      let (user, there, e) = deactivate_member-run r s org_id target_id requesting_id after h in
      untouched (ap (λ (x : Registry r). find_invitation r x id) (sym e) ∙ found)
  Act-Moves {s = s} id invitation found
        (activates org_id target_id requesting_id {after = after} h) =
      let (user, there, e) = activate_member-run r s org_id target_id requesting_id after h in
      untouched (ap (λ (x : Registry r). find_invitation r x id) (sym e) ∙ found)

  signed_in-users :
      (s : Registry r) (draw : Draw) (user_id : ℕ)
      → (sign_in r crypt lower s draw user_id).0.session.users ≡ s.session.users
  unfolding sign_in create_token_pair open_session
  signed_in-users s draw user_id =
      elim (Option-cases (r.backend.users_table.find s.session.users user_id)) [
        | inl unknown ↦ rw (unknown, create_token_pair) refl
        | inr (user, known) ↦ rw (known, create_token_pair) refl
      ]

  -- The account that an invitation has become.
  pub record IsJoined (before after : Registry r) (env : Fresh) (dto : AcceptInvitationDto)
      : Type 0 where
    pub id : ℕ
    pub invitation : Invitation
    pub stored : find_invitation r before id ≡ some invitation
    pub waiting : is_pending invitation.status ≡ true
    pub linked : invitation.token ≡ dto.token
    pub young : env.now ≤ invitation.expires_at
    pub addressed : same_text (lower invitation.invited_email) (lower dto.email) ≡ true
    pub used_up : find_invitation r after id ≡ some (record invitation { status = accepted })
    pub account : User
    pub there : find_member r after env.new_user_id ≡ some account
    pub has_role : account.user_role ≡ invitation.invited_role
    pub has_organization : account.organization_id ≡ invitation.organization_id
    pub compares : crypt.compare dto.password account.user_password_hash ≡ true

  -- If acceptInvitation returns tokens, there was a pending invitation with the token of the call,
  -- not past its time and for its address, case aside; it is accepted now, and the new account
  -- has its role and organization and the password of the call.
  pub accept_invitation-IsJoined :
      (s : Registry r) (env : Fresh) (draw : Draw) (salt : ℕ) (dto : AcceptInvitationDto)
      (tokens : TokenPair)
      → (accept_invitation r crypt lower s env draw salt dto).1 ≡ ok tokens
      → IsJoined s (accept_invitation r crypt lower s env draw salt dto).0 env dto
  unfolding sign_in save_accepted invited_user
  accept_invitation-IsJoined s env draw salt dto tokens h =
      elim (accept_invitation-Accepting r s crypt lower env draw salt dto) [
        | declined thrown e ↦ absurd (ground arith)
        | too_late id invitation found waiting e ↦ absurd (ground arith)
        | joined id invitation found waiting token young same e ↦
            let written = save_accepted r crypt lower s env salt dto id invitation in
            let account = invited_user r crypt lower env salt dto invitation in
            subst (λ (x : Registry r). IsJoined s x env dto) (sym (ap (λ o. o.0) e))
              (record {
                id = id;
                invitation = invitation;
                stored = found;
                waiting = waiting;
                linked = token;
                young = young;
                addressed = same;
                used_up =
                    save_here r.invitations_table s.invitations id
                      (record invitation { status = accepted });
                account = account;
                there =
                    ap
                      (λ (x : r.backend.users_table.Rows).
                        r.backend.users_table.find x env.new_user_id)
                      (signed_in-users written draw env.new_user_id)
                    ∙ save_here r.backend.users_table s.session.users env.new_user_id account;
                has_role = refl;
                has_organization = refl;
                compares = crypt.compare-hash salt dto.password;
              })
      ]
