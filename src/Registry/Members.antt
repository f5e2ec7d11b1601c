-- ===== src/Registry/Members.antt =====
-- deactivateMember and activateMember of organizations.service.ts.
use egypt_supply_chain_visib.Base.{
  ℕ, ◌==◌, Bool, true, false, Option, none, some, ◌∷◌, if◌then◌else◌, Result, ok, not_found,
  bad_request, throw_if, or_throw, ◌>>=◌, ◌>>◌,
}
use egypt_supply_chain_visib.Domain.{User}
use egypt_supply_chain_visib.Registry.{
  RegistryAction, member_deactivate, member_activate, Registers, Registry, ensure_org_admin,
  save_member,
}

abbrev pub of_member : ℕ → Option User → Option User
of_member org_id none = none
of_member org_id (some user) = if user.organization_id == org_id then some user else none

module _ (r : Registers) (s : Registry r) where
  unfoldable pub set_active : RegistryAction → Bool → ℕ → ℕ → ℕ → User → Registry r
  set_active action active org_id target_id requesting_id user =
      record (save_member r s target_id (record user { user_is_active = active })) {
        audited =
            record {
              action = action;
              organization_id = org_id;
              subject_id = target_id;
              user_id = requesting_id;
            }
            ∷ s.audited;
      }

  unfoldable pub deactivate_member : ℕ → ℕ → ℕ → Result (Registry r)
  unfolding ensure_org_admin set_active
  deactivate_member org_id target_id requesting_id = do
    ensure_org_admin r s requesting_id org_id
    throw_if (target_id == requesting_id) bad_request
    user ←
        or_throw (of_member org_id (r.backend.users_table.find s.session.users target_id)) not_found
    ok (set_active member_deactivate false org_id target_id requesting_id user)

  unfoldable pub activate_member : ℕ → ℕ → ℕ → Result (Registry r)
  unfolding ensure_org_admin set_active
  activate_member org_id target_id requesting_id = do
    ensure_org_admin r s requesting_id org_id
    user ←
        or_throw (of_member org_id (r.backend.users_table.find s.session.users target_id)) not_found
    ok (set_active member_activate true org_id target_id requesting_id user)
