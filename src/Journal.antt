-- ===== src/Journal.antt =====
-- mcp/omarchy_hardware/journal.py: what was flashed to each board, and the label of the board.
pub mod Entry
pub mod Store
pub mod Spec
mod LastUploads
pub mod Refines
mod Tests
