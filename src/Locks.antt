-- ===== src/Locks.antt =====
-- The file locks and the priority lock: agent_wrap/lib/flock.py and agent_wrap/lib/priority_lock.py.
pub mod Files
pub mod Priority
pub mod Held
pub mod Frames
pub mod Turns
pub mod Entry
pub mod Release
pub mod Progress
pub mod Tracker
mod Examples
