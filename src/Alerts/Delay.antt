-- ===== src/Alerts/Delay.antt =====
-- delay-evaluator.ts: when a shipment should arrive, and whether it is late beyond the grace window.
pub mod Lateness
use egypt_supply_chain_visib.Base.{ℕ, ◌+◌, ◌*◌, ltb, Bool, false, Option, none, some}
use egypt_supply_chain_visib.Domain.{Shipment}

-- DELAY_GRACE_MS
abbrev pub delay_grace_ms : ℕ
delay_grace_ms = 6 * 60 * 60 * 1000

-- The fallback of `computeEffectiveEta`: the route's days from the actual departure.
abbrev pub eta_from_departure : Option ℕ → Option ℕ → Option ℕ
eta_from_departure (some days) (some departure) = some (departure + days * 86_400_000)
eta_from_departure _ _ = none

-- `computeEffectiveEta`, of the shipment and its route's `route_estimated_days`.
unfoldable pub compute_effective_eta : Shipment → Option ℕ → Option ℕ
compute_effective_eta shipment days = elim shipment.shipment_estimated_arrival_at [
  | some eta ↦ some eta
  | none ↦ eta_from_departure days shipment.shipment_actual_departure_at
]

-- `isPastDelayGrace`
unfoldable pub is_past_delay_grace : Option ℕ → ℕ → Bool
is_past_delay_grace none now = false
is_past_delay_grace (some eta) now = ltb (eta + delay_grace_ms) now
