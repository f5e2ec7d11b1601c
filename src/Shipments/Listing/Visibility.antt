-- ===== src/Shipments/Listing/Visibility.antt =====
-- The list of shipments against the access to one of them (`enforceViewAccess`).
use egypt_supply_chain_visib.Base.{
  ℕ, ==_refl, ◌≡◌, ◌≢◌, ◌⊎◌, inl, inr, Bool, true, ◌&&◌, Option, none, some, String, arith, ok, err,
  forbidden,
}
use egypt_supply_chain_visib.Domain.{RequestUser, User, Shipment, carrier}
use egypt_supply_chain_visib.Store.Database.{Database, State}
use egypt_supply_chain_visib.Shipments.Access.{find_user, enforce_view_access}
use egypt_supply_chain_visib.Shipments.Listing.{
  QueryShipmentDto, mine, assigned, selects, visible_to, status_matches, search_matches,
  carrier_matches, created_within, in_scope, organization_of,
}

&&-eq-true : (a b : Bool) → (a && b) ≡ true → (a ≡ true) × (b ≡ true)
&&-eq-true a b h = ground arith

&&_last : (a b c d e f : Bool) → (a && (b && (c && (d && (e && f))))) ≡ true → f ≡ true
&&_last a b c d e f h = ground arith

module _ (contains : String → String → Bool) (user : RequestUser) (organization : Option ℕ)
    (query : QueryShipmentDto) (shipment : Shipment)
    (selected : selects contains user organization query shipment ≡ true) where
  selects-visible : visible_to user organization shipment ≡ true
  unfolding selects
  selects-visible = (&&-eq-true _ _ selected).0

  selects-in_scope : in_scope user organization query.scope shipment ≡ true
  unfolding selects
  selects-in_scope =
      &&_last (visible_to user organization shipment) (status_matches query shipment)
        (search_matches contains query shipment) (carrier_matches user query shipment)
        (created_within query shipment) (in_scope user organization query.scope shipment) selected

module _ (db : Database) (s : State db) (user : RequestUser) (db_user : User) (shipment : Shipment)
    (found : find_user db s user.sub ≡ some db_user) where
  visible-viewable :
      user.role ≢ carrier
      → visible_to user (some db_user.organization_id) shipment ≡ true
      → enforce_view_access db s user shipment ≡ ok tt
  unfolding visible_to enforce_view_access
  visible-viewable other h = ground arith

  -- Neither scope of a driver selects what the driver may not see.
  mine-viewable :
      user.role ≡ carrier
      → in_scope user (some db_user.organization_id) (some mine) shipment ≡ true
      → enforce_view_access db s user shipment ≡ ok tt
  unfolding in_scope enforce_view_access
  mine-viewable driving h = ground arith

  assigned-viewable :
      user.role ≡ carrier
      → in_scope user (some db_user.organization_id) (some assigned) shipment ≡ true
      → enforce_view_access db s user shipment ≡ ok tt
  unfolding in_scope enforce_view_access
  assigned-viewable driving h = ground arith

  hidden_forbidden :
      user.role ≡ carrier
      → shipment.shipper_organization_id ≢ db_user.organization_id
      → (other : ℕ) → shipment.carrier_user_id ≡ some other
      → other ≢ user.sub
      → enforce_view_access db s user shipment ≡ err forbidden
  unfolding enforce_view_access
  hidden_forbidden driving not_ours other driven not_me = ground arith

-- A request with no filter.
abbrev pub no_filter : QueryShipmentDto
no_filter = record {
  status = none;
  exclude_status = none;
  search = none;
  carrier_organization_id = none;
  scope = none;
  created_after = none;
  created_before = none;
}

-- The callers for whom the list agrees with the access to one shipment: all but drivers, and
-- drivers who ask for their own shipments or for those of their organization.
abbrev pub AsksInBounds : RequestUser → QueryShipmentDto → Type 0
AsksInBounds user query =
    (user.role ≢ carrier)
    ⊎ ((user.role ≡ carrier) × ((query.scope ≡ some mine) ⊎ (query.scope ≡ some assigned)))

-- Every shipment that `findAll` lists for such a caller, whatever the filters, is one that the
-- caller may also open with `findOne`.
pub listed-viewable :
    (contains : String → String → Bool) (db : Database) (s : State db) (user : RequestUser)
    (db_user : User) (query : QueryShipmentDto) (shipment : Shipment)
    → find_user db s user.sub ≡ some db_user
    → AsksInBounds user query
    → selects contains user (organization_of db s user) query shipment ≡ true
    → enforce_view_access db s user shipment ≡ ok tt
unfolding organization_of
listed-viewable contains db s user db_user query shipment found bounds selected =
    let ours : organization_of db s user ≡ some db_user.organization_id =
      rw (found, organization_of) in
    let selected' : selects contains user (some db_user.organization_id) query shipment ≡ true =
      rw (← ours) selected in
    let organization : Option ℕ = some db_user.organization_id in
    let seen = selects-visible contains user organization query shipment selected' in
    let scoped = selects-in_scope contains user organization query shipment selected' in
    elim bounds [
      | inl other ↦ visible-viewable db s user db_user shipment found other seen
      | inr (driving, inl e) ↦
          mine-viewable db s user db_user shipment found driving (rw e at scoped)
      | inr (driving, inr e) ↦
          assigned-viewable db s user db_user shipment found driving (rw e at scoped)
    ]

-- Drivers who set no scope see more than they may open: a shipment of their organization that
-- another driver has is listed to them, if no filter excludes it, but `findOne` refuses it.
pub listed_but_hidden :
    (contains : String → String → Bool) (db : Database) (s : State db) (user : RequestUser)
    (db_user : User) (shipment : Shipment) (other : ℕ)
    → find_user db s user.sub ≡ some db_user
    → user.role ≡ carrier
    → shipment.carrier_organization_id ≡ some db_user.organization_id
    → shipment.shipper_organization_id ≢ db_user.organization_id
    → shipment.carrier_user_id ≡ some other
    → other ≢ user.sub
    → (selects contains user (organization_of db s user) no_filter shipment ≡ true)
      × (enforce_view_access db s user shipment ≡ err forbidden)
unfolding organization_of selects
listed_but_hidden contains db s user db_user shipment other found driving ours not_shipper taken
      not_me =
    (
      ground (arith, ==_refl db_user.organization_id),
      hidden_forbidden db s user db_user shipment found driving not_shipper other taken not_me,
    )
