-- ===== src/Installer.antt =====
-- The installer, InstallDriver/main.cpp.
pub mod Env
pub mod Install
pub mod Handles
pub mod Registry
mod Tests
