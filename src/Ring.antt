-- ===== src/Ring.antt =====
-- The shared ring of inc/ring.h, on which two domains exchange requests and responses.
pub mod Size
pub mod Macros
pub mod Session
mod Tests
