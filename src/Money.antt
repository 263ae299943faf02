-- ===== src/Money.antt =====
-- money_figure.go: the figures a product shows, projected from one snapshot of a wallet.
pub mod Micro
pub mod Decimals
pub mod Sums
pub mod Truncation
pub mod Wallet
pub mod Types
pub mod Parties
pub mod Legs
pub mod OwnLegs
pub mod Placement
pub mod Boundary
pub mod Change
pub mod Totals
pub mod Added
pub mod Revalue
pub mod Compose
pub mod Verbatim
pub mod Predictions
pub mod Extension
pub mod Captions
pub mod Attribution
