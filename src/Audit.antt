-- ===== src/Audit.antt =====
-- mcp/omarchy_hardware/audit.py: the log in which every operation that moves hardware is recorded.
pub mod Json
pub mod Chain
pub mod Verify
pub mod Extends
pub mod OneChain
pub mod Bodies
pub mod Sealed
mod Sample
mod Tests
