-- ===== src/Alerts/Delay/Lateness.antt =====
-- What the delay evaluator means.
use egypt_supply_chain_visib.Base.{
  ℕ, ◌+◌, ◌*◌, ◌<◌, ◌≤◌, ◌≡◌, ◌↔◌, ◌⊎◌, inl, inr, refl, true, Option, none, some, arith,
  Option-cases,
}
use egypt_supply_chain_visib.Domain.{Shipment}
use egypt_supply_chain_visib.Alerts.Delay.{
  compute_effective_eta, is_past_delay_grace, eta_from_departure,
}

-- `eta` is the shipment's own estimate, or, failing that, its departure and the route's days.
abbrev pub IsEta : Shipment → Option ℕ → ℕ → Type 0
IsEta shipment days eta =
    (shipment.shipment_estimated_arrival_at ≡ some eta)
    ⊎ ((shipment.shipment_estimated_arrival_at ≡ none)
        × ((d : ℕ) × (departure : ℕ) × (days ≡ some d)
            × (shipment.shipment_actual_departure_at ≡ some departure)
            × (eta ≡ departure + d * 86_400_000)))

-- The estimate lies more than six hours in the past.
abbrev pub IsLate : Shipment → Option ℕ → ℕ → Type 0
IsLate shipment days now = (eta : ℕ) × IsEta shipment days eta × (eta + 21_600_000 < now)

fallback_sound :
    (days departed : Option ℕ) (eta : ℕ)
    → eta_from_departure days departed ≡ some eta
    → (d : ℕ) × (departure : ℕ) × (days ≡ some d)
      × (departed ≡ some departure)
      × (eta ≡ departure + d * 86_400_000)
fallback_sound none departed eta h = cc
fallback_sound (some d) none eta h = cc
fallback_sound (some d) (some p) eta h = (d, p, refl, refl, ground arith)

IsEta-sound :
    (shipment : Shipment) (days : Option ℕ) (eta : ℕ)
    → compute_effective_eta shipment days ≡ some eta
    → IsEta shipment days eta
unfolding compute_effective_eta
IsEta-sound shipment days eta h = elim (Option-cases shipment.shipment_estimated_arrival_at) [
  | inl e ↦ inr (e, fallback_sound days shipment.shipment_actual_departure_at eta (ground arith))
  | inr (x, e) ↦ inl (ground arith)
]

IsEta-complete :
    (shipment : Shipment) (days : Option ℕ) (eta : ℕ)
    → IsEta shipment days eta
    → compute_effective_eta shipment days ≡ some eta
unfolding compute_effective_eta
IsEta-complete shipment days eta (inl e) = ground arith
IsEta-complete shipment days eta (inr (e, (d, p, hd, hp, he))) = ground arith

late_of :
    (eta : Option ℕ) (now : ℕ)
    → is_past_delay_grace eta now ≡ true
    → (e : ℕ) × (eta ≡ some e) × (e + 21_600_000 < now)
unfolding is_past_delay_grace
late_of none now h = cc
late_of (some e) now h = (e, refl, ground arith)

of_late : (e now : ℕ) → e + 21_600_000 < now → is_past_delay_grace (some e) now ≡ true
unfolding is_past_delay_grace
of_late e now h = ground arith

-- A shipment is flagged exactly when it has an effective estimate that lies more than six hours,
-- 21,600,000 milliseconds, in the past; and it stays flagged as time goes on.
pub is_past_delay_grace_iff :
    (shipment : Shipment) (days : Option ℕ) (now : ℕ)
    → ((is_past_delay_grace (compute_effective_eta shipment days) now ≡ true)
        ↔ IsLate shipment days now)
      × ((later : ℕ) → now ≤ later → IsLate shipment days now → IsLate shipment days later)
is_past_delay_grace_iff shipment days now = (
  (
    λ h. let (e, eta, past) = late_of _ now h in (e, IsEta-sound shipment days e eta, past),
    λ late. rw (IsEta-complete shipment days late.0 late.1) (of_late late.0 now late.2),
  ),
  λ later h late. (late.0, late.1, omega arith),
)
