-- ===== src/Locks.antt =====
-- The locks of inc/scsiboot.h that are taken in interrupt context.
pub mod Threads
pub mod Mrsw
pub mod Irqsafe
mod Tests
