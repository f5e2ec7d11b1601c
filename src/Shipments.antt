-- ===== src/Shipments.antt =====
-- server/src/shipments: the shipment service.
pub mod Status
pub mod Access
pub mod Checks
pub mod Create
pub mod Update
pub mod AssignRoute
pub mod UpdateStatus
pub mod Accept
pub mod Remove
pub mod Runs
pub mod Timeline
pub mod History
pub mod Listing
pub mod Reached
