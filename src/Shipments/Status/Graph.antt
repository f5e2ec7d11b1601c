-- ===== src/Shipments/Status/Graph.antt =====
-- The state machine of STATUS_TRANSITIONS as a graph.
use egypt_supply_chain_visib.Base.{◌≡◌, ◌≢◌, refl, true, arith}
use egypt_supply_chain_visib.Domain.{
  ShipmentStatus, draft, confirmed, picked_up, in_transit, at_checkpoint, customs_hold,
  customs_cleared, out_for_delivery, delivered, cancelled, delayed,
}
use egypt_supply_chain_visib.Shipments.Status.{is_valid_transition}

-- `Leads a b`: there is some chain of allowed transitions from `a` to `b`, however many. It says
-- nothing of a single change.
pub data Leads : ShipmentStatus → ShipmentStatus → Type 0 where
  here : {a : ShipmentStatus} → Leads a a
  step :
      {a c : ShipmentStatus} (b : ShipmentStatus)
      → is_valid_transition a b ≡ true
      → Leads b c
      → Leads a c

-- The last leg, and how each status comes to it.
from_out_for_delivery : Leads out_for_delivery delivered
unfolding is_valid_transition
from_out_for_delivery = step delivered refl here

from_in_transit : Leads in_transit delivered
unfolding is_valid_transition
from_in_transit = step out_for_delivery refl from_out_for_delivery

from_confirmed : Leads confirmed delivered
unfolding is_valid_transition
from_confirmed = step picked_up refl (step in_transit refl from_in_transit)

from_customs_cleared : Leads customs_cleared delivered
unfolding is_valid_transition
from_customs_cleared = step out_for_delivery refl from_out_for_delivery

no_way_out : (a b : ShipmentStatus) → is_valid_transition a b ≡ true → a ≢ delivered
unfolding is_valid_transition
no_way_out a b h = ground arith

no_exit : {a b : ShipmentStatus} → Leads a b → a ≡ delivered → b ≡ delivered
no_exit here e = e
no_exit (step b h p) e = absurd (no_way_out _ b h e)

-- A chain of allowed transitions leads from every status to `delivered`, so that no shipment is
-- stuck, and nothing but `delivered` itself can be reached from `delivered`.
pub Leads-delivered : (a : ShipmentStatus) → Leads a delivered × (Leads delivered a → a ≡ delivered)
unfolding is_valid_transition
Leads-delivered a = (there a, λ p. no_exit p refl)
  where
    there : (b : ShipmentStatus) → Leads b delivered
    there draft = step confirmed refl from_confirmed
    there confirmed = from_confirmed
    there picked_up = step in_transit refl from_in_transit
    there in_transit = from_in_transit
    there at_checkpoint = step in_transit refl from_in_transit
    there customs_hold = step customs_cleared refl from_customs_cleared
    there customs_cleared = from_customs_cleared
    there out_for_delivery = from_out_for_delivery
    there delivered = here
    there cancelled = step confirmed refl from_confirmed
    there delayed = step in_transit refl from_in_transit
