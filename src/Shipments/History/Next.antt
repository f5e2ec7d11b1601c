-- ===== src/Shipments/History/Next.antt =====
-- Which status may follow which, written out apart from STATUS_TRANSITIONS, against the code's test.
use egypt_supply_chain_visib.Base.{◌≡◌, subst, inl, inr, ◌⊎◌, true, arith}
use egypt_supply_chain_visib.Domain.{
  ShipmentStatus, draft, confirmed, picked_up, in_transit, at_checkpoint, customs_hold,
  customs_cleared, out_for_delivery, delivered, cancelled, delayed,
}
use egypt_supply_chain_visib.Shipments.Status.{is_valid_transition, status_transitions}
use egypt_supply_chain_visib.Shipments.UpdateStatus.{valid_transition}

-- The statuses that may come next, in words of a shipment's life: it is confirmed, picked up, on its
-- way, at checkpoints and customs, out for delivery, delivered. It may be given up anywhere but at a
-- checkpoint and once customs has cleared it, until it is delivered; and one that was given up may be
-- taken up again, as a draft or confirmed.
abbrev pub ComesNext : ShipmentStatus → ShipmentStatus → Type 0
ComesNext draft new = (new ≡ confirmed) ⊎ (new ≡ cancelled)
ComesNext confirmed new = (new ≡ picked_up) ⊎ (new ≡ cancelled)
ComesNext picked_up new = (new ≡ in_transit) ⊎ (new ≡ cancelled)
ComesNext in_transit new =
    (new ≡ at_checkpoint) ⊎ (new ≡ out_for_delivery) ⊎ (new ≡ delayed) ⊎ (new ≡ cancelled)
ComesNext at_checkpoint new = (new ≡ customs_hold) ⊎ (new ≡ customs_cleared) ⊎ (new ≡ in_transit)
ComesNext customs_hold new = (new ≡ customs_cleared) ⊎ (new ≡ cancelled)
ComesNext customs_cleared new = (new ≡ in_transit) ⊎ (new ≡ out_for_delivery)
ComesNext out_for_delivery new = (new ≡ delivered) ⊎ (new ≡ cancelled)
ComesNext delivered new = ⊥
ComesNext cancelled new = (new ≡ draft) ⊎ (new ≡ confirmed)
ComesNext delayed new = (new ≡ in_transit) ⊎ (new ≡ cancelled)

pub valid_transition-ComesNext :
    (old new : ShipmentStatus) → valid_transition old new ≡ true → (new ≡ old) ⊎ ComesNext old new
unfolding valid_transition is_valid_transition status_transitions
valid_transition-ComesNext draft new h = ground arith
valid_transition-ComesNext confirmed new h = ground arith
valid_transition-ComesNext picked_up new h = ground arith
valid_transition-ComesNext in_transit new h = ground arith
valid_transition-ComesNext at_checkpoint new h = ground arith
valid_transition-ComesNext customs_hold new h = ground arith
valid_transition-ComesNext customs_cleared new h = ground arith
valid_transition-ComesNext out_for_delivery new h = ground arith
valid_transition-ComesNext delivered new h = ground arith
valid_transition-ComesNext cancelled new h = ground arith
valid_transition-ComesNext delayed new h = ground arith

pub stays_delivered :
    (a b : ShipmentStatus) → (b ≡ a) ⊎ ComesNext a b → a ≡ delivered → b ≡ delivered
stays_delivered a b (inl same) e = cc
stays_delivered a b (inr moved) e = absurd (subst (λ (x : ShipmentStatus). ComesNext x b) e moved)
