-- ===== src/Reader.antt =====
-- The reader of the sidecar's log files: agent_wrap/domain/logs/ingest.py, and what it takes from
-- agent_wrap/domain/logs/normalize.py and agent_wrap/lib/canonical_json.py.
pub mod Json
pub mod Records
pub mod Parser
pub mod Chunks
pub mod Carried
pub mod Ready
pub mod Passes
pub mod Session
pub mod Applied
pub mod Ingests
pub mod Uncut
pub mod Raises
pub mod Resume
pub mod Interrupted
pub mod Retention
pub mod Retained
mod Examples
