-- ===== src/Stats.antt =====
-- Usage totals by project, day and model: agent_wrap/domain/stats.
pub mod Days
pub mod Fold
pub mod Conserved
mod Examples
