-- ===== src/LogIndex.antt =====
-- The request index, agent_wrap/infrastructure/logs/repositories/ingest.py: how blobs are stored,
mod Examples
pub mod Ingest
-- and which of them a sweep deletes.
pub mod Codec
pub mod Pointers
pub mod Sweep
