-- ===== src/Client.antt =====
-- The HTTP side of the SDK: errors.go and client.go.
pub mod Json
pub mod Challenges
pub mod Errors
pub mod Envelope
pub mod Types
pub mod Http
pub mod Mapping
