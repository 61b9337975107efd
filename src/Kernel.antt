-- ===== src/Kernel.antt =====
-- The functions of inc/v4vkapi.h, with which a driver opens and uses a V4V channel.
pub mod Env
pub mod Requests
pub mod Api
pub mod Stands
pub mod Packets
pub mod Calls
pub mod Open
pub mod Init
pub mod Settle
pub mod Opening
pub mod Session
pub mod Bind
mod Tests
