-- ===== src/Deadlines.antt =====
-- atreides/deadlines: the market calendar, the rules of the deadline clocks and the clocks of reserve
-- deposits, of fails to deliver and of account transfers.
pub mod Calendar
pub mod Rules
pub mod Reserve
pub mod CloseOut
pub mod Acats
