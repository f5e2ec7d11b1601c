-- ===== src/Alerts/Scanner/Flagged.antt =====
-- What the scan and its consumer leave: an open alert for every late shipment.
use mathlib.Core.List.{Memᴰ}
use egypt_supply_chain_visib.Base.{
  ℕ, suc, ltb, ◌≤◌, ==_refl, ◌≡◌, refl, sym, subst, ap, ◌∙◌, ◌⊎◌, inl, inr, Bool, true, false, not,
  Bool-cases, Option-cases, is_some, none, some, List, [], ◌∷◌, arith, if◌then◌else◌,
}
use egypt_supply_chain_visib.Domain.{User, Shipment}
use egypt_supply_chain_visib.Store.{Table}
use egypt_supply_chain_visib.Store.Saves.{save_here, save_elsewhere}
use egypt_supply_chain_visib.Store.Database.{Database, State}
use egypt_supply_chain_visib.Store.Messages.{ShipmentAlertData, alert_delayed}
use egypt_supply_chain_visib.Alerts.Inbox.{
  Alert, Inbox, both_sides, is_open_of, save_alert, create_alert, recipients_of, is_empty,
}
use egypt_supply_chain_visib.Alerts.Inbox.Open.{IsSingle, create_alert-IsSingle}
use egypt_supply_chain_visib.Alerts.Scanner.{
  is_candidate, delay_data, is_late, has_open_alert, flag_late, scan_for_delayed_shipments,
  handle_delays,
}

-- What the two tests of the loop keep.
flag_head :
    (late alarmed : Bool) (m n : ShipmentAlertData) (rest : List ShipmentAlertData)
    → late ≡ true
    → alarmed ≡ false
    → m ≡ n
    → Memᴰ m (if not late then rest else if alarmed then rest else n ∷ rest)
flag_head late alarmed m n rest is_late not_alarmed same =
    rw (is_late, not_alarmed) (Memᴰ.head same)

flag_tail :
    (late alarmed : Bool) (m n : ShipmentAlertData) (rest : List ShipmentAlertData)
    → Memᴰ m rest
    → Memᴰ m (if not late then rest else if alarmed then rest else n ∷ rest)
flag_tail false alarmed m n rest inside = inside
flag_tail true true m n rest inside = inside
flag_tail true false m n rest inside = Memᴰ.tail inside

module _ (db : Database) (s : State db) (members : ℕ → List User) (t : Table Alert) where
  -- An alert for a delay of the shipment is open.
  abbrev pub HasOpen : Inbox t → ℕ → Type 0
  HasOpen inbox id =
      (k : ℕ) × (alert : Alert) × (t.find inbox.alerts k ≡ some alert)
      × (is_open_of id alert_delayed alert ≡ true)

  -- No alert has an identifier from here on.
  abbrev pub IsUnused : Inbox t → ℕ → Type 0
  IsUnused inbox next = (k : ℕ) → next ≤ k → t.find inbox.alerts k ≡ none

  abbrev handled : Inbox t → ℕ → ℕ → Inbox t
  handled inbox next id = create_alert db s members t inbox next alert_delayed both_sides id

  -- Either nothing is written, or an alert is.
  handled-cases :
      (inbox : Inbox t) (next id : ℕ)
      → (handled inbox next id ≡ inbox)
        ⊎ ((ids : List ℕ) × (handled inbox next id
              ≡ save_alert db s members t inbox next alert_delayed both_sides id ids))
  unfolding create_alert
  handled-cases inbox next id =
      elim (Bool-cases (ltb 0 (t.count inbox.alerts (is_open_of id alert_delayed)))) [
        | inl taken ↦ inl (rw (taken, create_alert) refl)
        | inr free ↦ elim (Option-cases (db.shipments_table.find s.shipments id)) [
          | inl missing ↦ inl (rw (free, missing, create_alert) refl)
          | inr (shipment, there) ↦
              elim (Bool-cases (is_empty (recipients_of members both_sides shipment))) [
                | inl nobody ↦ inl (rw (free, there, nobody, create_alert) refl)
                | inr somebody ↦ inr (
                  recipients_of members both_sides shipment,
                  rw (free, there, somebody, create_alert) refl,
                )
              ]
        ]
      ]

  handled-HasOpen :
      (inbox : Inbox t) (next id other : ℕ)
      → IsUnused inbox next
      → HasOpen inbox other
      → HasOpen (handled inbox next id) other
  unfolding save_alert
  handled-HasOpen inbox next id other unused (k, alert, there, opens) =
      elim (handled-cases inbox next id) [
        | inl same ↦ subst (λ (x : Inbox t). HasOpen x other) (sym same) (k, alert, there, opens)
        | inr (ids, e) ↦
            subst (λ (x : Inbox t). HasOpen x other) (sym e)
              (
                k,
                alert,
                save_elsewhere t inbox.alerts next k _
                      (λ at. absurd (ground (arith, unused k (ground arith))))
                    ∙ there,
                opens,
              )
      ]

  handled-IsUnused :
      (inbox : Inbox t) (next id : ℕ)
      → IsUnused inbox next
      → IsUnused (handled inbox next id) (suc next)
  unfolding save_alert
  handled-IsUnused inbox next id unused k above = elim (handled-cases inbox next id) [
    | inl same ↦ ap (λ (x : Inbox t). t.find x.alerts k) same ∙ unused k (omega arith)
    | inr (ids, e) ↦
        ap (λ (x : Inbox t). t.find x.alerts k) e
        ∙ save_elsewhere t inbox.alerts next k _ (λ at. absurd (ground arith))
        ∙ unused k (omega arith)
  ]

  -- A shipment of which somebody is to be told.
  handled-opens :
      (inbox : Inbox t) (next id : ℕ) (shipment : Shipment)
      → db.shipments_table.find s.shipments id ≡ some shipment
      → is_empty (recipients_of members both_sides shipment) ≡ false
      → HasOpen (handled inbox next id) id
  unfolding create_alert save_alert
  handled-opens inbox next id shipment there somebody =
      elim (Bool-cases (ltb 0 (t.count inbox.alerts (is_open_of id alert_delayed)))) [
        | inl taken ↦
            rw (taken, create_alert)
              (t.count_find inbox.alerts (is_open_of id alert_delayed) (ground arith))
        | inr free ↦
            rw (free, there, somebody, create_alert)
              (next, _, save_here t inbox.alerts next _, ground (arith, ==_refl id))
      ]

  delays-HasOpen :
      (inbox : Inbox t) (next id : ℕ) (messages : List ShipmentAlertData)
      → IsUnused inbox next
      → HasOpen inbox id
      → HasOpen (handle_delays db s t members inbox next messages) id
  unfolding handle_delays
  delays-HasOpen inbox next id [] unused opens = opens
  delays-HasOpen inbox next id (m ∷ messages) unused opens =
      delays-HasOpen (handled inbox next m.shipment_id) (suc next) id messages
        (handled-IsUnused inbox next m.shipment_id unused)
        (handled-HasOpen inbox next m.shipment_id id unused opens)

  -- A message that is among those handled.
  delays-opens :
      (inbox : Inbox t) (next : ℕ) (shipment : Shipment) (messages : List ShipmentAlertData)
      (m : ShipmentAlertData)
      → IsUnused inbox next
      → Memᴰ m messages
      → db.shipments_table.find s.shipments m.shipment_id ≡ some shipment
      → is_empty (recipients_of members both_sides shipment) ≡ false
      → HasOpen (handle_delays db s t members inbox next messages) m.shipment_id
  unfolding handle_delays
  delays-opens inbox next shipment [] m unused inside there somebody = elim inside [ ]
  delays-opens inbox next shipment (first ∷ messages) m unused (Memᴰ.head e) there somebody =
      let same : m.shipment_id ≡ first.shipment_id =
        ap (λ (x : ShipmentAlertData). x.shipment_id) e in
      delays-HasOpen (handled inbox next first.shipment_id) (suc next) m.shipment_id messages
        (handled-IsUnused inbox next first.shipment_id unused)
        (subst (λ (i : ℕ). HasOpen (handled inbox next i) m.shipment_id) same
          (handled-opens inbox next m.shipment_id shipment there somebody))
  delays-opens inbox next shipment (first ∷ messages) m unused (Memᴰ.tail inside) there somebody =
      delays-opens (handled inbox next first.shipment_id) (suc next) shipment messages m
        (handled-IsUnused inbox next first.shipment_id unused) inside there somebody

  delays-IsSingle :
      (inbox : Inbox t) (next : ℕ) (messages : List ShipmentAlertData)
      → IsSingle t inbox
      → IsSingle t (handle_delays db s t members inbox next messages)
  unfolding handle_delays
  delays-IsSingle inbox next [] single = single
  delays-IsSingle inbox next (m ∷ messages) single =
      delays-IsSingle (handled inbox next m.shipment_id) (suc next) messages (
        create_alert-IsSingle db s members t inbox single next alert_delayed both_sides
          m.shipment_id)

  -- A late candidate without an open alert is flagged.
  flag_late-Mem :
      (now : ℕ) (inbox : Inbox t) (candidates : List (ℕ × Shipment)) (id : ℕ) (shipment : Shipment)
      → Memᴰ (id, shipment) candidates
      → is_late db s t now shipment ≡ true
      → has_open_alert db s t inbox shipment.shipment_id ≡ false
      → Memᴰ (delay_data now shipment) (flag_late db s t now inbox candidates)
  unfolding flag_late
  flag_late-Mem now inbox [] id shipment inside late unalarmed = elim inside [ ]
  flag_late-Mem now inbox ((other, row) ∷ candidates) id shipment (Memᴰ.head e) late unalarmed =
      let same : shipment ≡ row = ap (λ (x : ℕ × Shipment). x.1) e in
      let late' : is_late db s t now row ≡ true =
        subst (λ (x : Shipment). is_late db s t now x ≡ true) same late in
      let unalarmed' : has_open_alert db s t inbox row.shipment_id ≡ false =
        subst (λ (x : Shipment). has_open_alert db s t inbox x.shipment_id ≡ false) same
          unalarmed in
      flag_head (is_late db s t now row) (has_open_alert db s t inbox row.shipment_id)
        (delay_data now shipment) (delay_data now row) (flag_late db s t now inbox candidates) late'
        unalarmed' (ap (delay_data now) same)
  flag_late-Mem now inbox ((other, row) ∷ candidates) id shipment (Memᴰ.tail inside) late
        unalarmed =
      let rest = flag_late-Mem now inbox candidates id shipment inside late unalarmed in
      flag_tail (is_late db s t now row) (has_open_alert db s t inbox row.shipment_id)
        (delay_data now shipment) (delay_data now row) (flag_late db s t now inbox candidates) rest

  -- A scan and its consumer, with nobody in between, leave one open alert for every shipment under
  -- way, its row under its own identifier, that is late and of which somebody is to be told, if no
  -- two open alerts were alike and new alerts have identifiers that are not in use.
  pub scan-HasOpen :
      (inbox : Inbox t) (now next id : ℕ) (shipment : Shipment)
      → IsUnused inbox next
      → IsSingle t inbox
      → db.shipments_table.find s.shipments id ≡ some shipment
      → shipment.shipment_id ≡ id
      → is_candidate shipment ≡ true
      → is_late db s t now shipment ≡ true
      → is_empty (recipients_of members both_sides shipment) ≡ false
      → HasOpen
          (handle_delays db s t members inbox next (scan_for_delayed_shipments db s t now inbox))
          id
        × IsSingle t
            (handle_delays db s t members inbox next (scan_for_delayed_shipments db s t now inbox))
  unfolding scan_for_delayed_shipments has_open_alert
  scan-HasOpen inbox now next id shipment unused single there own candidate late somebody =
      let messages = scan_for_delayed_shipments db s t now inbox in
      let listed =
        db.shipments_table.list-Mem s.shipments is_candidate id shipment there candidate in
      let known : db.shipments_table.find s.shipments shipment.shipment_id ≡ some shipment =
        ap (db.shipments_table.find s.shipments) own ∙ there in
      (
        elim (Option-cases (t.first inbox.alerts (is_open_of shipment.shipment_id alert_delayed))) [
          | inl none_open ↦ subst (HasOpen (handle_delays db s t members inbox next messages)) own (
              delays-opens inbox next shipment messages (delay_data now shipment) unused
                (flag_late-Mem now inbox (db.shipments_table.list s.shipments is_candidate) id
                  shipment listed late (ap is_some none_open))
                known somebody)
          | inr ((k, alert), open_one) ↦
              let (found, opens) = t.first-eq-some inbox.alerts _ k alert open_one in
              subst (HasOpen (handle_delays db s t members inbox next messages)) own (
                delays-HasOpen inbox next shipment.shipment_id messages unused
                  (k, alert, found, opens))
        ],
        delays-IsSingle inbox next messages single,
      )
