-- ===== src/Relay.antt =====
-- relay_server.cpp: the WebSocket relay.
pub mod Url
pub mod Rooms
