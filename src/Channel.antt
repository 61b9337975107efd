-- ===== src/Channel.antt =====
-- The functions of inc/v4vapi.h, with which a program opens and uses a V4V channel.
pub mod Env
pub mod Api
pub mod Handles
mod Tests
