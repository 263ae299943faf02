-- ===== src/Tests.antt =====
-- The properties at concrete inputs, a module for each component.
mod Client
mod Ws
mod Requests
mod CashStream
mod Cache
mod Delivery
mod Ladder
mod Money
mod Execution
mod Projection
mod Cosign
