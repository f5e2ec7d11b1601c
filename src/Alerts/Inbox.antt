-- ===== src/Alerts/Inbox.antt =====
-- createAlert and resolve of alerts/alerts.service.ts. The texts of an alert are left out, and so
-- are `targetUserIds`, which no caller passes. The rows of an organization's users come from a
-- query, `members`.
pub mod Open
use egypt_supply_chain_visib.Base.{
  ℕ, ◌==◌, ◌is◌, ltb, any, Bool, true, false, not, ◌&&◌, ◌||◌, Option, none, some, List, [], ◌∷◌,
  ◌++◌, if◌then◌else◌, Result, ok, err, forbidden, not_found, or_throw, throw_if, ◌>>=◌, ◌>>◌,
}
use egypt_supply_chain_visib.Domain.{
  RequestUser, User, Role, Shipment, admin, org_admin, is_super_admin,
}
use egypt_supply_chain_visib.Store.{Table}
use egypt_supply_chain_visib.Store.Database.{Database, State}
use egypt_supply_chain_visib.Store.Messages.{
  AlertEventType, alert_delayed, alert_exception, alert_delivered,
}
use egypt_supply_chain_visib.Shipments.Access.{find_user}

pub data TargetSide : Type 0 where
  shipper_side carrier_side both_sides : TargetSide

-- A row of `alert` with the users of its rows of `user_alert`.
pub record Alert : Type 0 where
  pub alert_shipment_id : Option ℕ
  pub alert_type : AlertEventType
  pub alert_target_side : TargetSide
  pub alert_is_resolved : Bool
  pub alert_resolved_at : Option ℕ
  pub recipients : List ℕ

-- `created` holds the messages `alert.created`: the recipients and the alert, the newest first.
pub record Inbox (t : Table Alert) : Type 0 where
  pub alerts : t.Rows
  pub created : List (List ℕ × ℕ)

-- OPEN_ALERT_TYPES
abbrev pub is_open_type : AlertEventType → Bool
is_open_type alert_delayed = true
is_open_type alert_exception = true
is_open_type alert_delivered = false

abbrev pub type_number : AlertEventType → ℕ
type_number alert_delayed = 0
type_number alert_exception = 1
type_number alert_delivered = 2

-- The `where` of `existing`.
abbrev pub is_open_of : ℕ → AlertEventType → Alert → Bool
is_open_of shipment_id type alert =
    alert.alert_shipment_id is shipment_id
    && (type_number alert.alert_type == type_number type && not alert.alert_is_resolved)

-- The `data` of resolve.
abbrev pub resolved_row : ℕ → Alert → Alert
resolved_row now alert = record alert { alert_is_resolved = true; alert_resolved_at = some now }

-- ADMIN_ROLES
abbrev pub is_admin_role : Role → Bool
is_admin_role admin = true
is_admin_role org_admin = true
is_admin_role _ = false

-- `Set.add`
abbrev pub add_id : List ℕ → ℕ → List ℕ
add_id ids id = if any (λ x. x == id) ids then ids else ids ++ (id ∷ [])

abbrev pub add_involved : List ℕ → Option ℕ → List ℕ
add_involved ids none = ids
add_involved ids (some id) = add_id ids id

abbrev pub add_admins : List ℕ → List User → List ℕ
add_admins ids [] = ids
add_admins ids (user ∷ users) =
    add_admins
      (if user.user_is_active && is_admin_role user.user_role then add_id ids user.user_id else ids)
      users

-- `collectRecipients`
unfoldable pub collect_recipients : List ℕ → List User → Option ℕ → List ℕ
collect_recipients ids users involved = add_involved (add_admins ids users) involved

abbrev pub to_shipper : TargetSide → Bool
to_shipper carrier_side = false
to_shipper _ = true

abbrev pub to_carrier : TargetSide → Bool
to_carrier shipper_side = false
to_carrier _ = true

-- `shipment.carrier_organization?.users ?? []`
abbrev pub members_of : (ℕ → List User) → Option ℕ → List User
members_of members none = []
members_of members (some organization) = members organization

unfoldable pub recipients_of : (ℕ → List User) → TargetSide → Shipment → List ℕ
unfolding collect_recipients
recipients_of members side shipment =
    let shippers : List ℕ =
      if to_shipper side
      then collect_recipients [] (members shipment.shipper_organization_id)
          shipment.created_by_user_id
      else [] in
    if to_carrier side
    then collect_recipients shippers (members_of members shipment.carrier_organization_id)
        shipment.carrier_user_id
    else shippers

abbrev pub is_empty : List ℕ → Bool
is_empty [] = true
is_empty (id ∷ ids) = false

module _ (db : Database) (s : State db) (members : ℕ → List User) (t : Table Alert) where
  -- `prisma.alert.create` and the message.
  unfoldable pub save_alert : Inbox t → ℕ → AlertEventType → TargetSide → ℕ → List ℕ → Inbox t
  save_alert inbox new_id type side shipment_id ids = record inbox {
    alerts = t.save inbox.alerts new_id (record {
      alert_shipment_id = some shipment_id;
      alert_type = type;
      alert_target_side = side;
      alert_is_resolved = false;
      alert_resolved_at = none;
      recipients = ids;
    });
    created = (ids, new_id) ∷ inbox.created;
  }

  -- createAlert for a shipment; where it returns `null` nothing has changed.
  unfoldable pub create_alert : Inbox t → ℕ → AlertEventType → TargetSide → ℕ → Inbox t
  unfolding recipients_of save_alert
  create_alert inbox new_id type side shipment_id =
      if is_open_type type && ltb 0 (t.count inbox.alerts (is_open_of shipment_id type))
      then inbox
      else elim (db.shipments_table.find s.shipments shipment_id) [
        | none ↦ inbox
        | some shipment ↦
            if is_empty (recipients_of members side shipment)
            then inbox
            else save_alert inbox new_id type side shipment_id (recipients_of members side shipment)
      ]

  -- `isInvolvedOrg`
  unfoldable pub is_involved_org : Option User → Option Shipment → Bool
  is_involved_org none shipment = false
  is_involved_org (some user) none = false
  is_involved_org (some user) (some shipment) =
      shipment.shipper_organization_id == user.organization_id
      || shipment.carrier_organization_id is user.organization_id

  abbrev pub shipment_of : Alert → Option Shipment
  shipment_of alert = elim alert.alert_shipment_id [
    | none ↦ none
    | some id ↦ db.shipments_table.find s.shipments id
  ]

  unfoldable pub resolve : Inbox t → ℕ → RequestUser → ℕ → Result (Inbox t)
  unfolding find_user is_involved_org
  resolve inbox now user alert_id = do
    alert ← or_throw (t.find inbox.alerts alert_id) not_found
    throw_if
        (not (is_super_admin user.role)
          && not (is_involved_org (find_user db s user.sub) (shipment_of alert)))
        forbidden
    ok (record inbox { alerts = t.save inbox.alerts alert_id (resolved_row now alert) })
