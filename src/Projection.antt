-- ===== src/Projection.antt =====
-- accounting_pending.go: the book of an account with the executions that its ledger has not recorded.
pub mod Rational
pub mod Types
pub mod Compose
pub mod Printed
pub mod Totals
pub mod Settles
pub mod Prices
pub mod Opened
pub mod Lookup
pub mod Book
