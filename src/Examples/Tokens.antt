-- ===== src/Examples/Tokens.antt =====
-- The theorem on access tokens, at the driver's, whose role is changed.
use egypt_supply_chain_visib.Base.{◌≡◌, refl, ok, err, some, List, String, [], ◌∷◌}
use egypt_supply_chain_visib.Domain.{User, Role, carrier, shipper}
use egypt_supply_chain_visib.Shipments.Update.{undefined, value}
use egypt_supply_chain_visib.Sessions.{AccessPayload, SessionState, backend_in_memory}
use egypt_supply_chain_visib.Sessions.Tokens.{access_payload, create_token_pair, open_session}
use egypt_supply_chain_visib.Sessions.Roles.{can_access}
use egypt_supply_chain_visib.Store.Database.{in_memory}
use egypt_supply_chain_visib.Admin.{Console, find_account}
use egypt_supply_chain_visib.Admin.Users.{AdminUpdateUserDto, update_user}
use egypt_supply_chain_visib.Admin.Access.{seen, beside, update_user-can_access}
use egypt_supply_chain_visib.Examples.Setup.{at_start, driver_row}
use egypt_supply_chain_visib.Examples.SignIns.{signed_in}

abbrev demotion : AdminUpdateUserDto
demotion = record {
  user_first_name = undefined;
  user_last_name = undefined;
  user_phone = undefined;
  user_role = value shipper;
  organization_id = value 10;
  user_password = value "changed";
}

abbrev as_written : String → String
as_written text = text

abbrev token : AccessPayload
token = access_payload driver_row 101

abbrev console : Console in_memory
console = record { state = record at_start { users = signed_in.users }; audited = [] }

abbrev after_demotion : Console in_memory
after_demotion = elim (update_user in_memory console 3 as_written as_written 2 demotion) [
  | ok c ↦ c
  | err e ↦ console
]

demoted_ok : update_user in_memory console 3 as_written as_written 2 demotion ≡ ok after_demotion
unfolding update_user create_token_pair open_session
demoted_ok = refl

update_user-can_access_example :
    ((old new : User) × (find_account in_memory console 2 ≡ some old)
      × (find_account in_memory after_demotion 2 ≡ some new)
      × (new.user_role ≡ shipper)
      × (new.organization_id ≡ 10)
      × (new.user_password_hash ≡ "changed"))
    × ((s : SessionState (beside in_memory backend_in_memory)) (required : List Role)
          (payload : AccessPayload)
        → can_access
            (beside in_memory backend_in_memory)
            (seen in_memory backend_in_memory after_demotion s)
            required
            payload
          ≡ can_access
              (beside in_memory backend_in_memory)
              (seen in_memory backend_in_memory console s)
              required
              payload)
update_user-can_access_example =
    update_user-can_access in_memory backend_in_memory console after_demotion 3 as_written
      as_written 2 demotion demoted_ok

-- The driver's token with the old role still opens the routes of carriers.
still_admitted :
    can_access backend_in_memory
      (seen in_memory backend_in_memory after_demotion signed_in)
      (carrier ∷ [])
      token
    ≡ ok tt
unfolding update_user create_token_pair open_session can_access
still_admitted = refl
