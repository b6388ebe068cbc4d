-- ===== src/Tracker.antt =====
-- src/server/tracker.cc and tracker.h: what masters and workers share. The state of a server, and the
-- results of its functions; the children hold the functions.
pub mod State
pub mod Sockets
pub mod Masters
pub mod Events
pub mod Callbacks
pub mod Frame
pub mod Deliver
pub mod Sends
pub mod Samples
mod Tests
