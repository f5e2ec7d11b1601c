-- ===== src/Alerts/Inbox/Open.antt =====
-- At most one alert of a kind is open for a shipment.
use egypt_supply_chain_visib.Base.{
  ℕ, ltb, ◌≡◌, sym, Bool-cases, Option-cases, inl, inr, true, false, ◌&&◌, none, some, ok, arith,
  subst, List,
}
use egypt_supply_chain_visib.Domain.{RequestUser, User}
use egypt_supply_chain_visib.Store.{Table}
use egypt_supply_chain_visib.Store.Saves.{save-cases}
use egypt_supply_chain_visib.Store.Database.{Database, State}
use egypt_supply_chain_visib.Store.Messages.{AlertEventType}
use egypt_supply_chain_visib.Alerts.Inbox.{
  Alert, Inbox, TargetSide, is_open_type, is_open_of, resolved_row, save_alert, create_alert,
  resolve, recipients_of, is_empty,
}

-- Two open alerts of one shipment and one kind, delayed or exception, are the same.
abbrev pub IsSingle : (t : Table Alert) → Inbox t → Type 0
IsSingle t inbox =
    (i j shipment_id : ℕ) (type : AlertEventType) (a c : Alert)
    → is_open_type type ≡ true
    → t.find inbox.alerts i ≡ some a
    → t.find inbox.alerts j ≡ some c
    → is_open_of shipment_id type a ≡ true
    → is_open_of shipment_id type c ≡ true
    → i ≡ j

module _ (db : Database) (s : State db) (members : ℕ → List User) (t : Table Alert)
    (inbox : Inbox t) (single : IsSingle t inbox) where
  module _ (new_id : ℕ) (type : AlertEventType) (side : TargetSide) (shipment_id : ℕ) where
    -- The kinds and the shipments of two rows that one test selects are the same.
    same_kind :
        (of : ℕ) (kind : AlertEventType) (ids : List ℕ) (c : Alert)
        → is_open_of of kind (record {
          alert_shipment_id = some shipment_id;
          alert_type = type;
          alert_target_side = side;
          alert_is_resolved = false;
          alert_resolved_at = none;
          recipients = ids;
        })
          ≡ true
        → is_open_of of kind c ≡ true
        → (is_open_of shipment_id type c ≡ true) × (is_open_type kind ≡ is_open_type type)
    same_kind of kind ids c h other = ground arith

    save_alert-IsSingle :
        (ids : List ℕ)
        → (is_open_type type && ltb 0 (t.count inbox.alerts (is_open_of shipment_id type))) ≡ false
        → IsSingle t (save_alert db s members t inbox new_id type side shipment_id ids)
    unfolding save_alert
    save_alert-IsSingle ids none_open i j of kind a c opens at_i at_j open_a open_c =
        elim (save-cases t inbox.alerts new_id i _ a at_i) [
          | inl (new_i, e_i) ↦ elim (save-cases t inbox.alerts new_id j _ c at_j) [
            | inl (new_j, e_j) ↦ cc
            | inr (old_j, there_j) ↦ absurd (
                clash j c kind of there_j
                  (subst (λ x. is_open_of of kind x ≡ true) (sym e_i) open_a) open_c opens)
          ]
          | inr (old_i, there_i) ↦ elim (save-cases t inbox.alerts new_id j _ c at_j) [
            | inl (new_j, e_j) ↦ absurd (
                clash i a kind of there_i
                  (subst (λ x. is_open_of of kind x ≡ true) (sym e_j) open_c) open_a opens)
            | inr (old_j, there_j) ↦ single i j of kind a c opens there_i there_j open_a open_c
          ]
        ]
      where
        clash :
            (k : ℕ) (d : Alert) (kind : AlertEventType) (of : ℕ)
            → t.find inbox.alerts k ≡ some d
            → is_open_of of kind (record {
              alert_shipment_id = some shipment_id;
              alert_type = type;
              alert_target_side = side;
              alert_is_resolved = false;
              alert_resolved_at = none;
              recipients = ids;
            })
              ≡ true
            → is_open_of of kind d ≡ true
            → is_open_type kind ≡ true
            → ⊥
        clash k d kind of there fresh is_open opens =
            let (same, alike) = same_kind of kind ids d fresh is_open in
            let positive = t.count_pos inbox.alerts (is_open_of shipment_id type) k d there same in
            ground arith

    -- createAlert never opens a second alert.
    pub create_alert-IsSingle :
        IsSingle t (create_alert db s members t inbox new_id type side shipment_id)
    unfolding create_alert
    create_alert-IsSingle =
        elim (Bool-cases
          (is_open_type type && ltb 0 (t.count inbox.alerts (is_open_of shipment_id type)))) [
            | inl taken ↦ rw (taken, create_alert) single
            | inr none_open ↦
                elim (Option-cases (db.shipments_table.find s.shipments shipment_id)) [
                  | inl missing ↦ rw (none_open, missing, create_alert) single
                  | inr (shipment, there) ↦
                      elim (Bool-cases (is_empty (recipients_of members side shipment))) [
                        | inl nobody ↦ rw (none_open, there, nobody, create_alert) single
                        | inr some_one ↦
                            rw (none_open, there, some_one, create_alert)
                              (save_alert-IsSingle (recipients_of members side shipment) none_open)
                      ]
                ]
          ]

  resolve-run :
      (now alert_id : ℕ) (user : RequestUser) (after : Inbox t)
      → resolve db s members t inbox now user alert_id ≡ ok after
      → (alert : Alert) × (t.find inbox.alerts alert_id ≡ some alert)
        × (t.save inbox.alerts alert_id (resolved_row now alert) ≡ after.alerts)
  unfolding resolve
  resolve-run now alert_id user after h = elim (Option-cases (t.find inbox.alerts alert_id)) [
    | inl gone ↦ absurd (ground arith)
    | inr (alert, found) ↦ (alert, found, ground arith)
  ]

  -- A resolved alert is not open.
  resolve-IsSingle :
      (now alert_id : ℕ) (user : RequestUser) (after : Inbox t)
      → resolve db s members t inbox now user alert_id ≡ ok after
      → IsSingle t after
  resolve-IsSingle now alert_id user after h i j of kind a c opens at_i at_j open_a open_c =
      let (alert, found, stored) = resolve-run now alert_id user after h in
      let place_i =
        save-cases t inbox.alerts alert_id i (resolved_row now alert) a (rw (← stored) at at_i) in
      let place_j =
        save-cases t inbox.alerts alert_id j (resolved_row now alert) c (rw (← stored) at at_j) in
      elim place_i [
        | inl (resolved, e) ↦ absurd (ground (arith, e, open_a))
        | inr (other_i, there_i) ↦ elim place_j [
          | inl (resolved, e) ↦ absurd (ground (arith, e, open_c))
          | inr (other_j, there_j) ↦ single i j of kind a c opens there_i there_j open_a open_c
        ]
      ]

module _ (db : Database) (t : Table Alert) where
  -- A call at some state of the rest of the database; a resolve that is refused changes nothing.
  pub data Act (inbox : Inbox t) : Inbox t → Type 0 where
    creates :
        (s : State db) (members : ℕ → List User) (new_id : ℕ) (type : AlertEventType)
        (side : TargetSide) (shipment_id : ℕ)
        → Act inbox (create_alert db s members t inbox new_id type side shipment_id)
    resolves :
        (s : State db) (members : ℕ → List User) (now : ℕ) (user : RequestUser) (alert_id : ℕ)
        {after : Inbox t}
        → resolve db s members t inbox now user alert_id ≡ ok after
        → Act inbox after

  pub data Acts (inbox : Inbox t) : Inbox t → Type 0 where
    idle : Acts inbox inbox
    then_act : {middle after : Inbox t} → Acts inbox middle → Act middle after → Acts inbox after

  Act-IsSingle : {inbox after : Inbox t} → IsSingle t inbox → Act inbox after → IsSingle t after
  Act-IsSingle {inbox = inbox} single (creates s members new_id type side shipment_id) =
      create_alert-IsSingle db s members t inbox single new_id type side shipment_id
  Act-IsSingle {inbox = inbox} single (resolves s members now user alert_id {after = after} h) =
      resolve-IsSingle db s members t inbox single now alert_id user after h

  -- However often createAlert is called, and whatever is resolved in between, at most one alert of
  -- a kind, delayed or exception, is open for a shipment, if that held at first.
  pub Acts-IsSingle :
      {inbox after : Inbox t} → IsSingle t inbox → Acts inbox after → IsSingle t after
  Acts-IsSingle single idle = single
  Acts-IsSingle single (then_act acts act) = Act-IsSingle (Acts-IsSingle single acts) act
