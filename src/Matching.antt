-- ===== src/Matching.antt =====
-- Matching two sides of a book: the GSTR-2B file, two sources of lines, and bank transactions.
pub mod Gstr2b
pub mod Reconcile
pub mod Bank
