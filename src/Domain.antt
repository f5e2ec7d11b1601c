-- ===== src/Domain.antt =====
-- The rows of the database (server/prisma/schema.prisma), the user of a request, and the values
-- that they hold. Identifiers are numbers, a `Date` is its milliseconds since 1970, and a decimal
-- column is scaled to an integer (coordinates by 10^7).
use egypt_supply_chain_visib.Base.{ℕ, Bool, true, false, Option, String, ◌==◌, same_text}

-- The roles that the code tests for; `other_role` has any other text.
pub data Role : Type 0 where
  shipper carrier admin org_admin regulator super_admin : Role
  other_role : String → Role

abbrev pub is_shipper : Role → Bool
is_shipper shipper = true
is_shipper _ = false

abbrev pub is_carrier : Role → Bool
is_carrier carrier = true
is_carrier _ = false

abbrev pub is_admin : Role → Bool
is_admin admin = true
is_admin _ = false

abbrev pub is_regulator : Role → Bool
is_regulator regulator = true
is_regulator _ = false

abbrev pub is_super_admin : Role → Bool
is_super_admin super_admin = true
is_super_admin _ = false

abbrev pub role_number : Role → ℕ
role_number shipper = 0
role_number carrier = 1
role_number admin = 2
role_number org_admin = 3
role_number regulator = 4
role_number super_admin = 5
role_number (other_role text) = 6

-- The text of a role.
abbrev pub role_text : Role → String
role_text shipper = "shipper"
role_text carrier = "carrier"
role_text admin = "admin"
role_text org_admin = "org_admin"
role_text regulator = "regulator"
role_text super_admin = "super_admin"
role_text (other_role text) = text

abbrev pub same_role : Role → Role → Bool
same_role (other_role a) (other_role b) = same_text a b
same_role a b = role_number a == role_number b

-- The types that the code tests for; the column may hold any text, and `other_type` has the others.
pub data OrganizationType : Type 0 where
  shipper_type carrier_type regulator_type : OrganizationType
  other_type : String → OrganizationType

abbrev pub type_text : OrganizationType → String
type_text shipper_type = "shipper"
type_text carrier_type = "carrier"
type_text regulator_type = "regulator"
type_text (other_type text) = text

abbrev pub is_shipper_type : Option OrganizationType → Bool
is_shipper_type (Option.some shipper_type) = true
is_shipper_type _ = false

abbrev pub is_carrier_type : Option OrganizationType → Bool
is_carrier_type (Option.some carrier_type) = true
is_carrier_type _ = false

-- SHIPMENT_STATUSES
pub data ShipmentStatus : Type 0 where
  draft confirmed picked_up in_transit at_checkpoint customs_hold customs_cleared : ShipmentStatus
  out_for_delivery delivered cancelled delayed : ShipmentStatus

abbrev pub ordinal : ShipmentStatus → ℕ
ordinal draft = 0
ordinal confirmed = 1
ordinal picked_up = 2
ordinal in_transit = 3
ordinal at_checkpoint = 4
ordinal customs_hold = 5
ordinal customs_cleared = 6
ordinal out_for_delivery = 7
ordinal delivered = 8
ordinal cancelled = 9
ordinal delayed = 10

-- `===` on statuses.
abbrev pub same_status : ShipmentStatus → ShipmentStatus → Bool
same_status a b = ordinal a == ordinal b

-- A coordinate or other signed decimal; `negsuc n` is -(n + 1).
pub data ℤ : Type 0 where
  pos : ℕ → ℤ
  negsuc : ℕ → ℤ

-- The payload of an access token, `RequestUser`.
pub record RequestUser : Type 0 where
  pub sub : ℕ
  pub role : Role

pub record Organization : Type 0 where
  pub organization_id : ℕ
  pub organization_name : String
  pub organization_email : String
  pub organization_type : OrganizationType
  pub organization_is_active : Bool

pub record User : Type 0 where
  pub user_id : ℕ
  pub organization_id : ℕ
  pub user_email : String
  pub user_password_hash : String
  pub user_first_name : String
  pub user_last_name : String
  pub user_phone : Option String
  pub user_role : Role
  pub user_token_version : ℕ
  pub user_is_active : Bool

pub record Route : Type 0 where
  pub route_id : ℕ
  pub route_name : String
  pub route_code : String
  pub route_origin_city : String
  pub route_destination_city : String
  pub route_estimated_days : Option ℕ
  pub route_is_active : Bool

pub record Checkpoint : Type 0 where
  pub checkpoint_name : String
  pub checkpoint_code : String
  pub checkpoint_type : String
  pub checkpoint_city : String
  pub checkpoint_latitude : ℤ
  pub checkpoint_longitude : ℤ
  pub checkpoint_is_active : Bool

pub record Shipment : Type 0 where
  pub shipment_id : ℕ
  pub shipper_organization_id : ℕ
  pub carrier_organization_id : Option ℕ
  pub carrier_user_id : Option ℕ
  pub route_id : Option ℕ
  pub created_by_user_id : Option ℕ
  pub shipment_reference_number : String
  pub shipment_status : ShipmentStatus
  pub shipment_description : Option String
  pub shipment_cargo_type : Option String
  pub shipment_weight_kg : Option ℕ
  pub shipment_volume_m3 : Option ℕ
  pub shipment_origin_address : String
  pub shipment_destination_address : String
  pub shipment_origin_city : String
  pub shipment_destination_city : String
  pub shipment_estimated_departure_at : Option ℕ
  pub shipment_estimated_arrival_at : Option ℕ
  pub shipment_actual_departure_at : Option ℕ
  pub shipment_actual_arrival_at : Option ℕ
  pub shipment_current_checkpoint_id : Option ℕ
  pub shipment_current_latitude : Option ℤ
  pub shipment_current_longitude : Option ℤ
  pub shipment_notes : Option String
  pub shipment_created_at : ℕ

pub data EventType : Type 0 where
  shipment_created route_assigned status_change carrier_assigned : EventType

pub record ShipmentEvent : Type 0 where
  pub event_shipment_id : ℕ
  pub event_type : EventType
  pub event_status : ShipmentStatus
  pub event_description : Option String
  pub event_latitude : Option ℤ
  pub event_longitude : Option ℤ
  pub event_checkpoint_id : Option ℕ
  pub recorded_by_user_id : Option ℕ
  pub event_occurred_at : ℕ
