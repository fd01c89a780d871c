-- ===== src/Listing.antt =====
-- The lists that the viewer shows: agent_wrap/domain/logs/listing.py.
pub mod Sessions
pub mod Counted
pub mod Grouped
mod Examples
