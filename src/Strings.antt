-- ===== src/Strings.antt =====
-- src/utils: the string functions of the servers.
pub mod Split
pub mod Join
pub mod Codec
pub mod Helpers
