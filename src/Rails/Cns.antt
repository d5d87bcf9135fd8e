-- ===== src/Rails/Cns.antt =====
-- atreides/rails/cns.py: continuous net settlement.
mod Profile
pub mod Netting
pub mod Results
pub mod Settle
pub mod Conserve
pub mod Reports
pub mod Bounds
pub mod Assessed
mod Tests
pub use Profile.*
