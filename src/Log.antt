-- ===== src/Log.antt =====
-- The logging library, LogModule/LogModule.cpp with LogModule/LogModule.h and LogModule/mutex.h.
pub mod Env
pub mod State
pub mod Path
pub mod Write
pub mod Directory
pub mod Config
pub mod Module
pub mod Session
pub mod Machine
mod Tests
mod DocumentTests
mod SessionTests
