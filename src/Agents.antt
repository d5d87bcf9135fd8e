-- ===== src/Agents.antt =====
-- atreides/agents: the checks that the tier 2 specialist makes before it routes.
pub mod Eligibility
