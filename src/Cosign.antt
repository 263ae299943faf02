-- ===== src/Cosign.antt =====
-- cosign.go and venue_hop.go: what a co-signature commits to, and when one is asked for.
pub mod Words
pub mod Types
pub mod Digest
pub mod Coding
pub mod Layout
pub mod Hashes
pub mod Accepts
pub mod Binding
pub mod Hop
pub mod Signs
pub mod Consistent
pub mod Keys
