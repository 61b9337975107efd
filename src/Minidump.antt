-- ===== src/Minidump.antt =====
-- The crash handler, the programs in Minidump/.
pub mod Env
pub mod Patch
pub mod Dump
pub mod Session
pub mod Exception
pub mod Handlers
mod Tests
