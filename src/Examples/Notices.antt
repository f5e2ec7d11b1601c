-- ===== src/Examples/Notices.antt =====
-- The theorem on open alerts, at two notices of one delay.
use egypt_supply_chain_visib.Base.{ℕ, ◌≡◌, arith, refl, none, List, [], ◌∷◌}
use egypt_supply_chain_visib.Domain.{User}
use egypt_supply_chain_visib.Store.{Table}
use egypt_supply_chain_visib.Store.Indexed.{indexed}
use egypt_supply_chain_visib.Store.Database.{in_memory}
use egypt_supply_chain_visib.Store.Messages.{alert_delayed}
use egypt_supply_chain_visib.Alerts.Inbox.{Alert, Inbox, both_sides, create_alert}
use egypt_supply_chain_visib.Alerts.Inbox.Open.{IsSingle, idle, then_act, creates, Acts-IsSingle}
use egypt_supply_chain_visib.Examples.Setup.{shipper_row, stranded}

abbrev pub alerts_table : Table Alert
alerts_table = indexed Alert

abbrev pub no_alert : Inbox alerts_table
no_alert = record { alerts = (0, λ k. none); created = [] }

abbrev pub staff : ℕ → List User
staff organization = shipper_row ∷ []

abbrev notified : Inbox alerts_table
notified = create_alert in_memory stranded staff alerts_table no_alert 7 alert_delayed both_sides 1

abbrev notified_twice : Inbox alerts_table
notified_twice =
    create_alert in_memory stranded staff alerts_table notified 8 alert_delayed both_sides 1

-- The shipper's admin and the driver are told, once.
told_once : notified_twice.created ≡ (1 ∷ 2 ∷ [], 7) ∷ []
unfolding create_alert
told_once = refl

pub no_alert-IsSingle : IsSingle alerts_table no_alert
no_alert-IsSingle i j of kind a c opens at_i at_j open_a open_c = absurd (ground arith)

Acts-IsSingle_example : IsSingle alerts_table notified_twice
Acts-IsSingle_example = Acts-IsSingle in_memory alerts_table no_alert-IsSingle (
    then_act (then_act idle (creates stranded staff 7 alert_delayed both_sides 1))
      (creates stranded staff 8 alert_delayed both_sides 1))
