-- ===== src/Master.antt =====
-- src/server/master.cc: a server of the group of masters.
pub mod Tasks
pub mod Circle
pub mod Process
mod Tests
