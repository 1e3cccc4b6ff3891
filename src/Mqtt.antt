-- ===== src/Mqtt.antt =====
-- mcp/omarchy_hardware/mqtt_lite.py: the MQTT 3.1.1 client.
mod Tests
pub mod Topic
pub mod Outcome
pub mod Wire
pub mod Client
pub mod Publish
pub mod Subscribe
pub mod Connect
