-- ===== src/Contracts.antt =====
-- atreides/contracts: the typed records that custody operations carry.
pub mod Quorum
