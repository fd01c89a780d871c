-- ===== src/Updates.antt =====
-- How the wrapper updates itself: agent_wrap/domain/updates/service.py.
pub mod Host
pub mod Git
pub mod Service
pub mod Trace
pub mod Order
pub mod Revision
mod Examples
