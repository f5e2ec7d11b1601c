-- ===== src/Examples/Registers.antt =====
-- The theorems on the registry, each applied to an invitation of the shipper's admin in memory.
use egypt_supply_chain_visib.Base.{
  same_text, if◌then◌else◌, ◌≡◌, true, ℕ, ◌+◌, inl, refl, String, [], ok, err, arith, Result,
}
use egypt_supply_chain_visib.Domain.{carrier, other_type, shipper, User, Organization}
use egypt_supply_chain_visib.Store.Indexed.{indexed}
use egypt_supply_chain_visib.Store.Slots.{save_slot}
use egypt_supply_chain_visib.Sessions.{TokenPair, backend_in_memory}
use egypt_supply_chain_visib.Sessions.Tokens.{token_pair}
use egypt_supply_chain_visib.Registry.{
  role_fits, Registers, Registry, Fresh, Invitation, find_invitation,
}
use egypt_supply_chain_visib.Registry.Invitations.{
  AcceptInvitationDto, create_invitation, new_invitation, accept_invitation,
}
use egypt_supply_chain_visib.Registry.Fit.{IsFit}
use egypt_supply_chain_visib.Registry.Fit.Calls.{
  Act, invites, accepts, Acts, idle, then_act, Acts-IsFit,
}
use egypt_supply_chain_visib.Registry.Finality.{
  Moves, Act-Moves, IsJoined, accept_invitation-IsJoined,
}
use egypt_supply_chain_visib.Examples.Setup.{at_start, no_rows, shipper_row}
use egypt_supply_chain_visib.Examples.SignIns.{nobody, draw}
use egypt_supply_chain_visib.Examples.Passwords.{plain}

abbrev registers_in_memory : Registers
registers_in_memory = record {
  backend = backend_in_memory;
  organizations_table = indexed Organization;
  invitations_table = indexed Invitation;
}

-- Only the shipper's admin has an account.
abbrev founded_by : Registry registers_in_memory
founded_by = record {
  session = record nobody { users = save_slot (no_rows User) 1 shipper_row };
  organizations = at_start.organizations;
  invitations = no_rows Invitation;
  invited = [];
  audited = [];
}

abbrev fresh : ℕ → Fresh
fresh n = record {
  now = n;
  new_user_id = n + 10;
  new_organization_id = n + 20;
  new_invitation_id = n + 30;
  new_invitation_token = n + 40;
}

abbrev dto : AcceptInvitationDto
dto = record {
  token = 41;
  email = "clerk@cairo.example";
  password = "fresh";
  first_name = "Nadia";
  last_name = "Aly";
}

abbrev same_case : String → String
same_case text = text

abbrev result_of : Result (Registry registers_in_memory) → Registry registers_in_memory
result_of (ok s) = s
result_of (err e) = founded_by

abbrev invited : Registry registers_in_memory
invited = result_of (
    create_invitation registers_in_memory founded_by same_case (fresh 1) 10 "clerk@cairo.example"
      shipper 1)

abbrev invitation : Invitation
invitation =
    new_invitation registers_in_memory founded_by (fresh 1) 10 "clerk@cairo.example" shipper 1

abbrev joined_by : Registry registers_in_memory
joined_by =
    (accept_invitation registers_in_memory plain same_case invited (fresh 2) (draw 2) 7 dto).0

accepting : Act registers_in_memory plain same_case invited joined_by
accepting = accepts (fresh 2) (draw 2) 7 dto

to_joined : Acts registers_in_memory plain same_case founded_by joined_by
unfolding create_invitation
to_joined =
    then_act (then_act idle (invites (fresh 1) 10 "clerk@cairo.example" shipper 1 refl refl))
      accepting

-- A type that was registered in capitals fits as the source has it.
abbrev lower_carrier : String → String
lower_carrier text = if same_text text "Carrier" then "carrier" else text

fits_in_capitals : role_fits lower_carrier carrier (other_type "Carrier") ≡ true
fits_in_capitals = refl

founded_by-IsFit : IsFit registers_in_memory same_case founded_by
founded_by-IsFit = record {
  members_fit = λ id user found. inl (ground arith);
  invitations_fit = λ id row found. absurd (ground arith);
}

Acts-IsFit_example : IsFit registers_in_memory same_case joined_by
Acts-IsFit_example = Acts-IsFit registers_in_memory plain same_case founded_by-IsFit to_joined

Act-Moves_example : Moves invitation (find_invitation registers_in_memory joined_by 31)
unfolding create_invitation
Act-Moves_example = Act-Moves registers_in_memory plain same_case 31 invitation refl accepting

abbrev tokens : TokenPair
tokens =
    elim (accept_invitation registers_in_memory plain same_case invited (fresh 2) (draw 2) 7
      dto).1 [ ok pair ↦ pair | err e ↦ token_pair shipper_row 0 0 ]

accept_invitation-IsJoined_example :
    IsJoined registers_in_memory plain same_case invited joined_by (fresh 2) dto
unfolding create_invitation accept_invitation
accept_invitation-IsJoined_example =
    accept_invitation-IsJoined registers_in_memory plain same_case invited (fresh 2) (draw 2) 7 dto
      tokens refl
