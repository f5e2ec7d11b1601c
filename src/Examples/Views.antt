-- ===== src/Examples/Views.antt =====
-- The theorems on lists, timelines and pages, each applied at a point.
use egypt_supply_chain_visib.Base.{
  ℕ, ◌≡◌, ◌↔◌, ◌<◌, inl, inr, refl, Bool, true, false, none, some, List, [], ◌∷◌, String, length,
  ok, err, All, forbidden, arith,
}
use egypt_supply_chain_visib.Domain.{Shipment, ShipmentEvent, status_change, in_transit}
use egypt_supply_chain_visib.Store.Database.{in_memory}
use egypt_supply_chain_visib.Pagination.{
  build_pagination_meta, page_rows, first_pages, build_pagination_meta_complete,
}
use egypt_supply_chain_visib.Shipments.Access.{find_user, enforce_view_access}
use egypt_supply_chain_visib.Shipments.Listing.{QueryShipmentDto, mine, selects, organization_of}
use egypt_supply_chain_visib.Shipments.Listing.Visibility.{
  no_filter, listed-viewable, listed_but_hidden,
}
use egypt_supply_chain_visib.Shipments.Reached.{
  note_event, get, reached_at, HasVisit, NotAfter, reached_at_latest,
}
use egypt_supply_chain_visib.Examples.Setup.{
  driver, driver_row, at_start, blank, given_up, stranded,
}

-- A search that finds nothing.
abbrev nowhere : String → String → Bool
nowhere text part = false

abbrev my_shipments : QueryShipmentDto
my_shipments = record no_filter { scope = some mine }

listed-viewable_example : enforce_view_access in_memory stranded driver given_up ≡ ok tt
unfolding find_user selects organization_of
listed-viewable_example =
    listed-viewable nowhere in_memory stranded driver driver_row my_shipments given_up refl
      (inr (refl, inl refl)) refl

-- A colleague's shipment.
abbrev colleagues : Shipment
colleagues = record blank {
  carrier_organization_id = some 20;
  carrier_user_id = some 4;
  shipment_status = in_transit;
}

listed_but_hidden_example :
    (selects nowhere driver (organization_of in_memory at_start driver) no_filter colleagues ≡ true)
    × (enforce_view_access in_memory at_start driver colleagues ≡ err forbidden)
listed_but_hidden_example =
    listed_but_hidden nowhere in_memory at_start driver driver_row colleagues 4
      (unfold find_user in refl) refl refl (omega arith) refl (omega arith)

-- A visit of a checkpoint.
abbrev visit : ℕ → ℕ → ShipmentEvent
visit checkpoint time = record {
  event_shipment_id = 1;
  event_type = status_change;
  event_status = in_transit;
  event_description = none;
  event_latitude = none;
  event_longitude = none;
  event_checkpoint_id = some checkpoint;
  recorded_by_user_id = none;
  event_occurred_at = time;
}

abbrev oldest_first : List ShipmentEvent
oldest_first = visit 7 10 ∷ visit 8 20 ∷ visit 7 30 ∷ []

abbrev newest_first : List ShipmentEvent
newest_first = visit 7 30 ∷ visit 8 20 ∷ visit 7 10 ∷ []

reached_at_latest_example : HasVisit 7 30 newest_first × All (NotAfter 7 30) newest_first
unfolding reached_at note_event get
reached_at_latest_example =
    reached_at_latest newest_first 7 30
      ((omega arith, (omega arith, tt)), ((omega arith, tt), (tt, tt))) refl

abbrev five_rows : List ℕ
five_rows = 1 ∷ 2 ∷ 3 ∷ 4 ∷ 5 ∷ []

build_pagination_meta_complete_example :
    (first_pages (build_pagination_meta 2 2 5).total_pages 2 five_rows ≡ five_rows)
    × (((build_pagination_meta 2 2 5).has_next_page ≡ true)
        ↔ (0 < length (page_rows 3 2 five_rows)))
build_pagination_meta_complete_example = build_pagination_meta_complete 2 2 five_rows (omega arith)
