-- ===== src/Pricing.antt =====
-- What a request costs: agent_wrap/domain/pricing and the price arithmetic of
-- agent_wrap/domain/providers/pricing.py and base.py.
pub mod Usage
mod Examples
pub mod Totals
pub mod Cost
pub mod CostBounds
pub mod Matching
pub mod Compute
pub mod Extract
