-- ===== src/Shipments/Listing.antt =====
-- `buildWhereClause` of shipments.service.ts, with QueryShipmentDto: the rows that `findAll`
-- selects. A comparison with a column that is NULL selects nothing, as in SQL. How the database
-- searches a text regardless of case is a parameter.
pub mod Visibility
use egypt_supply_chain_visib.Base.{
  ℕ, ◌==◌, ◌is◌, leb, Bool, true, false, not, ◌&&◌, ◌||◌, Option, none, some, is_some, String,
  if◌then◌else◌,
}
use egypt_supply_chain_visib.Domain.{
  RequestUser, User, Shipment, ShipmentStatus, cancelled, same_status, is_carrier, is_regulator,
  is_super_admin,
}
use egypt_supply_chain_visib.Store.Database.{Database, State}
use egypt_supply_chain_visib.Shipments.Access.{find_user}

pub data Scope : Type 0 where
  available assigned mine : Scope

-- A search text, where there is one, is not empty.
pub record QueryShipmentDto : Type 0 where
  pub status : Option ShipmentStatus
  pub exclude_status : Option ShipmentStatus
  pub search : Option String
  pub carrier_organization_id : Option ℕ
  pub scope : Option Scope
  pub created_after : Option ℕ
  pub created_before : Option ℕ

abbrev is_available : Shipment → Bool
is_available shipment =
    not (is_some shipment.carrier_organization_id)
    && not (same_status shipment.shipment_status cancelled)

-- `roleBounds`
unfoldable pub role_bounds : RequestUser → ℕ → Shipment → Bool
role_bounds user organization shipment =
    shipment.shipper_organization_id == organization
    || (shipment.carrier_organization_id is organization
        || (is_carrier user.role
            && (is_available shipment || shipment.carrier_user_id is user.sub)))

-- The first clause: regulators and super admins see all, a user with no row sees nothing.
unfoldable pub visible_to : RequestUser → Option ℕ → Shipment → Bool
unfolding role_bounds
visible_to user organization shipment =
    if is_regulator user.role || is_super_admin user.role
    then true
    else elim organization [ none ↦ false | some id ↦ role_bounds user id shipment ]

-- `equals` and `not`
unfoldable pub status_matches : QueryShipmentDto → Shipment → Bool
status_matches query shipment =
    elim query.status [ none ↦ true | some wanted ↦ same_status shipment.shipment_status wanted ]
    && elim query.exclude_status [
      | none ↦ true
      | some unwanted ↦ not (same_status shipment.shipment_status unwanted)
    ]

unfoldable pub created_within : QueryShipmentDto → Shipment → Bool
created_within query shipment =
    elim query.created_after [ none ↦ true | some after ↦ leb after shipment.shipment_created_at ]
    && elim query.created_before [
      | none ↦ true
      | some before ↦ leb shipment.shipment_created_at before
    ]

-- `query.scope`
unfoldable pub in_scope : RequestUser → Option ℕ → Option Scope → Shipment → Bool
in_scope user organization none shipment = true
in_scope user none (some assigned) shipment = false
in_scope user (some id) (some assigned) shipment =
    shipment.carrier_organization_id is id
    && (not (is_carrier user.role) || not (is_some shipment.carrier_user_id))
in_scope user organization (some mine) shipment =
    is_carrier user.role && shipment.carrier_user_id is user.sub
in_scope user organization (some available) shipment = is_available shipment

-- The carrier filter is a regulator's.
unfoldable pub carrier_matches : RequestUser → QueryShipmentDto → Shipment → Bool
carrier_matches user query shipment = elim query.carrier_organization_id [
  | none ↦ true
  | some id ↦ not (is_regulator user.role) || shipment.carrier_organization_id is id
]

module _ (contains : String → String → Bool) where
  unfoldable pub search_matches : QueryShipmentDto → Shipment → Bool
  search_matches query shipment = elim query.search [
    | none ↦ true
    | some text ↦
        contains shipment.shipment_reference_number text || elim shipment.shipment_description [
          | none ↦ false
          | some description ↦ contains description text
        ]
  ]

  unfoldable pub selects : RequestUser → Option ℕ → QueryShipmentDto → Shipment → Bool
  unfolding visible_to status_matches search_matches carrier_matches created_within in_scope
  selects user organization query shipment =
      visible_to user organization shipment
      && (status_matches query shipment
          && (search_matches query shipment
              && (carrier_matches user query shipment
                  && (created_within query shipment
                      && in_scope user organization query.scope shipment))))

-- `dbUser?.organization_id ?? null`
unfoldable pub organization_of : (db : Database) → State db → RequestUser → Option ℕ
unfolding find_user
organization_of db s user = elim (find_user db s user.sub) [
  | none ↦ none
  | some db_user ↦ some db_user.organization_id
]
