-- ===== src/Execution.antt =====
-- operation.go, order_execution.go and execution_receipt.go: an operation's handle, and what counts as
-- evidence that an order was executed.
pub mod Decimal
pub mod Types
pub mod Disposition
pub mod Evidence
pub mod Recovery
pub mod Verdicts
pub mod Provenance
pub mod Handle
pub mod Fills
pub mod Accounting
pub mod Accounted
pub mod Cover
pub mod Waiting
pub mod Justified
pub mod Waits
pub mod Buffer
pub mod Early
pub mod Receipts
pub mod Paths
