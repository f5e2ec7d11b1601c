-- ===== src/Shipments/Timeline.antt =====
-- The invariant of the stored shipments: the timestamps that a status promises are there, and each
-- shipment has an event in its timeline. Every operation keeps it.
pub mod Steps
use egypt_supply_chain_visib.Base.{
  ℕ, ◌+◌, ◌<◌, ◌==◌, ==_iff, ==_refl, ◌≡◌, refl, sym, ap, ◌∙◌, ◌⊎◌, inl, inr, Bool, true, false,
  Bool-cases, Option, none, some, is_some, String, Result, ok, err, if◌then◌else◌, arith,
  throw_if-eq-ok, bind-eq-ok, guard-eq-ok, some,
}
use egypt_supply_chain_visib.Domain.{
  RequestUser, User, Route, Checkpoint, Shipment, ShipmentEvent, ShipmentStatus, draft, confirmed,
  picked_up, cancelled, delivered, in_transit, same_status,
}
use egypt_supply_chain_visib.Store.Database.{Database, State, Ambient}
use egypt_supply_chain_visib.Store.{Table}
use egypt_supply_chain_visib.Shipments.Runs.{At}
use egypt_supply_chain_visib.Shipments.Remove.{is_event_of}

-- The statuses that a shipment has only after it was in transit.
abbrev pub is_underway : ShipmentStatus → Bool
is_underway draft = false
is_underway confirmed = false
is_underway picked_up = false
is_underway cancelled = false
is_underway _ = true

pub record IsTimed (shipment : Shipment) : Type 0 where
  pub departed :
      is_underway shipment.shipment_status ≡ true
      → is_some shipment.shipment_actual_departure_at ≡ true
  pub arrived :
      shipment.shipment_status ≡ delivered → is_some shipment.shipment_actual_arrival_at ≡ true

-- A row of a table.
abbrev pub HasRow : {R : Type 0} (t : Table R) → t.Rows → (R → Bool) → Type 0
HasRow {R} t rows p = (k : ℕ) × (r : R) × (t.find rows k ≡ some r) × (p r ≡ true)

module _ (db : Database) where
  abbrev pub HasEvent : State db → ℕ → Type 0
  HasEvent s id = HasRow db.events_table s.events (is_event_of id)

  pub record IsSound (s : State db) : Type 0 where
    pub timed : (id : ℕ) (shipment : Shipment) → At db s id shipment → IsTimed shipment
    pub recorded : (id : ℕ) (shipment : Shipment) → At db s id shipment → HasEvent s id

  -- The database generates identifiers that it has not used.
  pub record IsFresh (s : State db) (env : Ambient) : Type 0 where
    pub new_event : db.events_table.find s.events env.new_event_id ≡ none
    pub new_shipment : db.shipments_table.find s.shipments env.new_shipment_id ≡ none

  -- One shipment written, and no event lost.
  module _ (s s' : State db) (id : ℕ) (updated : Shipment)
      (written : s'.shipments ≡ db.shipments_table.save s.shipments id updated) where
    pub find_written :
        (j : ℕ)
        → db.shipments_table.find s'.shipments j
          ≡ (if id == j then some updated else db.shipments_table.find s.shipments j)
    find_written j = rw written (db.shipments_table.find-save s.shipments id j updated)

    pub write-IsSound :
        IsSound s
        → IsTimed updated
        → ((j : ℕ) → HasEvent s j → HasEvent s' j)
        → HasEvent s' id
        → IsSound s'
    write-IsSound sound timed kept event = record {
      timed = λ j shipment at. elim (Bool-cases (id == j)) [
        | inl same ↦ ground (arith, find_written j)
        | inr other ↦ sound.timed j shipment (ground (arith, find_written j))
      ];
      recorded = λ j shipment at. elim (Bool-cases (id == j)) [
        | inl same ↦ rw (← (==_iff id j).0 same) event
        | inr other ↦ kept j (sound.recorded j shipment (ground (arith, find_written j)))
      ];
    }

  -- An event added under a new identifier.
  module _ (s s' : State db) (env : Ambient) (fresh : IsFresh s env) (event : ShipmentEvent)
      (added : s'.events ≡ db.events_table.save s.events env.new_event_id event) where
    pub HasEvent-kept : (j : ℕ) → HasEvent s j → HasEvent s' j
    HasEvent-kept j (k, e, at, mine) = (k, e, still, mine)
      where
        still : db.events_table.find s'.events k ≡ some e
        still = rw added (
            ground (
              arith,
              db.events_table.find-save s.events env.new_event_id k event,
              fresh.new_event,
              at_same,
            ))
          where
            at_same : (env.new_event_id == k) ≡ true → env.new_event_id ≡ k
            at_same h = (==_iff _ _).0 h

    pub HasEvent-added : HasEvent s' event.event_shipment_id
    HasEvent-added = (
      env.new_event_id,
      event,
      rw added (
          ground
            (arith, db.events_table.find-save s.events env.new_event_id env.new_event_id event)),
      ==_refl _,
    )
