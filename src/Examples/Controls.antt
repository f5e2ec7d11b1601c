-- ===== src/Examples/Controls.antt =====
-- The theorems on administration, each applied to the company in memory.
use egypt_supply_chain_visib.Base.{
  ℕ, ◌≡◌, refl, subst, inl, inr, String, [], ◌∷◌, Result, ok, err, arith,
}
use egypt_supply_chain_visib.Domain.{User, carrier_type}
use egypt_supply_chain_visib.Store.Indexed.{indexed}
use egypt_supply_chain_visib.Store.Slots.{save_slot}
use egypt_supply_chain_visib.Store.{Table}
use egypt_supply_chain_visib.Store.Saves.{save-cases}
use egypt_supply_chain_visib.Store.Database.{in_memory}
use egypt_supply_chain_visib.Admin.{Console, find_account, find_organization}
use egypt_supply_chain_visib.Admin.Users.{delete_user}
use egypt_supply_chain_visib.Admin.Organizations.{deactivate_organization}
use egypt_supply_chain_visib.Admin.Bulk.{bulk_close_organizations}
use egypt_supply_chain_visib.Admin.Guards.{HasAdmin, delete_user-HasAdmin}
use egypt_supply_chain_visib.Admin.Staff.{Suits, IsStaffed}
use egypt_supply_chain_visib.Admin.Staff.Commands.{
  deletes_user, deactivates_organization, Commands, no_command, then_command, Commands-IsStaffed,
}
use egypt_supply_chain_visib.Admin.Closing.{close_each, IsKept, bulk-close_each}
use egypt_supply_chain_visib.Admin.Redaction.{
  Redactable, string, date, object, no_entry, entry, number, is_secret, redact, IsRedacted,
  redact-IsRedacted,
}
use egypt_supply_chain_visib.Examples.Setup.{
  at_start, no_rows, company, shipper_row, driver_row, platform_row,
}

abbrev as_written : String → String
as_written key = key

abbrev console : Console in_memory
console = record { state = at_start; audited = [] }

abbrev result_of : Result (Console in_memory) → Console in_memory
result_of (ok c) = c
result_of (err e) = console

-- The platform's admin deletes the driver, whose organization is then closed.
abbrev without_driver : Console in_memory
without_driver = result_of (delete_user in_memory console 3 2)

abbrev freight_closed : Console in_memory
freight_closed = result_of (deactivate_organization in_memory without_driver 3 20)

without_driver_ok : delete_user in_memory console 3 2 ≡ ok without_driver
unfolding delete_user
without_driver_ok = refl

delete_user-HasAdmin_example : HasAdmin in_memory without_driver 10
delete_user-HasAdmin_example =
    delete_user-HasAdmin in_memory console 3 2 10 without_driver (1, shipper_row, refl, refl)
      without_driver_ok

abbrev table : Table User
table = indexed User

abbrev SuitsAt : User → Type 0
SuitsAt user =
    Suits in_memory as_written console.state.organizations user.user_role user.organization_id

console-IsStaffed : IsStaffed in_memory as_written console.state
console-IsStaffed = record {
  suits = λ id user found.
      elim (save-cases table (save_slot (save_slot (no_rows User) 1 shipper_row) 2 driver_row) 3 id
        platform_row user found) [
          | inl (at, e) ↦ subst SuitsAt e (inl refl)
          | inr (other, h) ↦
              elim (save-cases table (save_slot (no_rows User) 1 shipper_row) 2 id driver_row user
                h) [
                  | inl (at, e) ↦ subst SuitsAt e (
                      inr
                        (company 20 "Nile Freight" "office@nile.example" carrier_type, refl, refl))
                  | inr (other', h') ↦
                      elim (save-cases table (no_rows User) 1 id shipper_row user h') [
                        | inl (at, e) ↦ subst SuitsAt e (inl refl)
                        | inr (nobody, gone) ↦ absurd (ground arith)
                      ]
                ]
        ];
}

to_freight_closed : Commands in_memory as_written console freight_closed
unfolding delete_user deactivate_organization
to_freight_closed =
    then_command (then_command no_command (deletes_user 3 2 without_driver_ok))
      (deactivates_organization 3 20 refl)

Commands-IsStaffed_example : IsStaffed in_memory as_written freight_closed.state
Commands-IsStaffed_example =
    Commands-IsStaffed in_memory as_written console-IsStaffed to_freight_closed

console-IsKept : IsKept in_memory 3 console
console-IsKept id org found = ground arith

abbrev both_closed : Console in_memory
both_closed = result_of (close_each in_memory 3 console (10 ∷ 20 ∷ []))

bulk-close_each_example :
    ((k : ℕ)
      → in_memory.users_table.find
          (bulk_close_organizations in_memory console 3 (10 ∷ 20 ∷ [])).users
          k
        ≡ find_account in_memory both_closed k)
    × ((k : ℕ)
        → in_memory.organizations_table.find
            (bulk_close_organizations in_memory console 3 (10 ∷ 20 ∷ [])).organizations
            k
          ≡ find_organization in_memory both_closed k)
unfolding close_each deactivate_organization
bulk-close_each_example =
    bulk-close_each in_memory 3 console (10 ∷ 20 ∷ []) both_closed console-IsKept refl

-- A row as it is audited.
abbrev row : Redactable
row = object (
    entry "user_id" (number 2)
      (entry "user_password_hash" (string "secret") (entry "user_created_at" (date 5) no_entry)))

redact-IsRedacted_example :
    IsRedacted as_written (redact as_written row)
    × (redact as_written (redact as_written row) ≡ redact as_written row)
    × (IsRedacted as_written row → redact as_written row ≡ row)
redact-IsRedacted_example = redact-IsRedacted as_written row

redacted_row :
    redact as_written row
    ≡ object (
        entry "user_id" (number 2) (
          entry "user_password_hash"
            (string "[REDACTED]")
            (entry "user_created_at" (object no_entry) no_entry)))
unfolding redact is_secret
redacted_row = refl
