-- ===== src/Racks.antt =====
-- app/fleetgroups.py: racks of servers, and what hangs on which.
pub mod Model
pub mod Change
pub mod Document
pub mod Fresh
pub mod Sound
pub mod Kept
pub mod Grown
pub mod Reached
pub mod Listing
pub mod Observe
pub mod Seen
pub mod Started
pub mod Watched
