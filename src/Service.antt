-- ===== src/Service.antt =====
-- The guest service, vTopGuestAgent/main.cpp.
pub mod Env
pub mod State
pub mod Control
pub mod Launch
pub mod Uninstall
pub mod Features
pub mod Lifecycle
pub mod Program
mod Tests
