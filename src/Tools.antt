-- ===== src/Tools.antt =====
-- The reviewer's file tools: packaging/revue_core/src/revue_core/core/tools/read_file.py,
-- read_lines.py and find_code.py.
pub mod Sandbox
pub mod Read
pub mod Find
pub mod Isolation
pub mod Bounds
pub mod Cut
mod Examples
