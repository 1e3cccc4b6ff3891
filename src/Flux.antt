-- ===== src/Flux.antt =====
-- The Flux queries of mcp/omarchy_hardware/ming.py.
pub mod Literal
pub mod Reads
pub mod Query
pub mod Outside
pub mod Times
pub mod Parts
pub mod Schema
pub mod Structure
mod Tests
