-- ===== src/Settings.antt =====
-- mcp/omarchy_hardware/config.py: how `load` makes the settings of Config.antt from a TOML file.
pub mod Toml
pub mod Outcome
pub mod Fields
pub mod Urls
pub mod Security
pub mod Weintek
pub mod Ming
pub mod Load
pub mod Sound
pub mod Ranges
pub mod Secured
pub mod Loaded
pub mod Checked
pub mod Unhashable
mod Tests
