-- ===== src/Updates/Order.antt =====
-- In which order an update does what it does.
pub mod Quiet
pub mod Leads
pub mod Later
pub mod Merge
pub mod Check
