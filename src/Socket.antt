-- ===== src/Socket.antt =====
-- base-websocket.ts and ws-reconnect.ts: the life of one WebSocket connection.
pub mod Reconnect
pub mod Heartbeat
pub mod Close
mod Tests
