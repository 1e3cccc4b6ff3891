-- ===== src/Flash.antt =====
-- mcp/omarchy_hardware/flash.py: compiling and uploading sketches.
mod Tests
pub mod Token
pub mod Valid
pub mod Steps
pub mod Sketch
pub mod Artifact
pub mod Upload
