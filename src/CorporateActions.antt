-- ===== src/CorporateActions.antt =====
-- Corporate actions, atreides/corporate_actions: the lifecycle of an event and its journal, and the
-- elections that holders submit.
pub mod Lifecycle
pub mod Elections
