-- ===== src/Rails/Cato.antt =====
-- atreides/rails/cato_cash.py: the gate that a cash leg passes before it is released.
mod Rails
mod Inputs
mod Ladder
mod Decision
mod Digest
mod Checks
mod Gate
mod Tests
