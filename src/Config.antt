-- ===== src/Config.antt =====
-- The configuration of a server: the file of keys and values that src/base/config_file.cc reads, and the
-- settings that src/server/tracker_main.cc makes of it.
pub mod Tree
pub mod File
pub mod Iterate
pub mod Settings
mod Tests
