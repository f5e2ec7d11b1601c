-- ===== src/Shipments/Status.antt =====
-- shipments.constants.ts, and `isValidTransition` of shipments.service.ts.
pub mod Graph
use egypt_supply_chain_visib.Base.{Bool, List, [], ◌∷◌, any}
use egypt_supply_chain_visib.Domain.{
  ShipmentStatus, draft, confirmed, picked_up, in_transit, at_checkpoint, customs_hold,
  customs_cleared, out_for_delivery, delivered, cancelled, delayed, same_status,
}

-- STATUS_TRANSITIONS
unfoldable pub status_transitions : ShipmentStatus → List ShipmentStatus
status_transitions draft = confirmed ∷ cancelled ∷ []
status_transitions confirmed = picked_up ∷ cancelled ∷ []
status_transitions picked_up = in_transit ∷ cancelled ∷ []
status_transitions in_transit = at_checkpoint ∷ out_for_delivery ∷ delayed ∷ cancelled ∷ []
status_transitions at_checkpoint = customs_hold ∷ customs_cleared ∷ in_transit ∷ []
status_transitions customs_hold = customs_cleared ∷ cancelled ∷ []
status_transitions customs_cleared = in_transit ∷ out_for_delivery ∷ []
status_transitions out_for_delivery = delivered ∷ cancelled ∷ []
status_transitions delivered = []
status_transitions cancelled = draft ∷ confirmed ∷ []
status_transitions delayed = in_transit ∷ cancelled ∷ []

unfoldable pub is_valid_transition : ShipmentStatus → ShipmentStatus → Bool
unfolding status_transitions
is_valid_transition current next = any (same_status next) (status_transitions current)
