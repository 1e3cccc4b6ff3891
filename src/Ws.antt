-- ===== src/Ws.antt =====
-- mcp/omarchy_hardware/ws_lite.py: the WebSocket client of the Slack bridge.
mod Tests
pub mod Client
pub mod Frame
pub mod Receive
