-- ===== src/Rails.antt =====
-- The cash rails, atreides/rails: finality classes, coercion of enum values at the boundary, the
-- determination classifier, continuous net settlement and the intraday funding model.
pub mod Finality
pub mod Boundary
pub mod Determination
pub mod Cato
pub mod Cns
pub mod Funding
mod Tests
