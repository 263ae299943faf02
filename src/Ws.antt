-- ===== src/Ws.antt =====
-- The realtime connection: websocket.go.
pub mod Manager
pub mod System
pub mod Counters
pub mod Frames
pub mod Subscriptions
pub mod Requests
pub mod Delivery
