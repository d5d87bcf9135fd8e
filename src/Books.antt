-- ===== src/Books.antt =====
-- atreides/books: the equities book of record.
pub mod Ledger
