-- ===== src/Gpio.antt =====
-- mcp/omarchy_hardware/gpio_ssh.py, and the GPIO tools of mcp/omarchy_hardware/server.py.
mod Tests
pub mod Remote
pub mod Pins
pub mod Tools
pub mod Lawful
