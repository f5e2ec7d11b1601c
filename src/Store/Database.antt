-- ===== src/Store/Database.antt =====
-- The tables that the shipment service reads and writes, their contents, and what it has published.
use egypt_supply_chain_visib.Base.{ℕ, String, List}
use egypt_supply_chain_visib.Domain.{User, Organization, Route, Checkpoint, Shipment, ShipmentEvent}
use egypt_supply_chain_visib.Store.{Table}
use egypt_supply_chain_visib.Store.Indexed.{indexed}
use egypt_supply_chain_visib.Store.Messages.{Publication, AuditEntry}

pub record Database : Type 1 where
  pub users_table : Table User
  pub organizations_table : Table Organization
  pub routes_table : Table Route
  pub checkpoints_table : Table Checkpoint
  pub shipments_table : Table Shipment
  pub events_table : Table ShipmentEvent

-- The newest message stands first.
pub record State (db : Database) : Type 0 where
  pub users : db.users_table.Rows
  pub organizations : db.organizations_table.Rows
  pub routes : db.routes_table.Rows
  pub checkpoints : db.checkpoints_table.Rows
  pub shipments : db.shipments_table.Rows
  pub events : db.events_table.Rows
  pub published : List Publication
  pub audited : List AuditEntry

-- What a request takes from outside: the clock, the identifiers that the database generates for
-- the rows that it creates, and the reference number made from a random UUID.
pub record Ambient : Type 0 where
  pub now : ℕ
  pub new_shipment_id : ℕ
  pub new_event_id : ℕ
  pub new_reference : String

-- The database in memory.
abbrev pub in_memory : Database
in_memory = record {
  users_table = indexed User;
  organizations_table = indexed Organization;
  routes_table = indexed Route;
  checkpoints_table = indexed Checkpoint;
  shipments_table = indexed Shipment;
  events_table = indexed ShipmentEvent;
}
