-- ===== src/Gateway.antt =====
-- services/gateway/internal/ws: the websocket hub and its clients.
pub mod Hub
pub mod Client
mod Tests
