-- ===== src/V4v.antt =====
-- The message ring of inc/v4v.h, which the hypervisor fills and a domain reads.
pub mod Memory
pub mod Message
pub mod Registered
pub mod Copy
pub mod Offset
mod Tests
