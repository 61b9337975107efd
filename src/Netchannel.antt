-- ===== src/Netchannel.antt =====
-- The byte ring of inc/vring.h, a pair of them between two domains.
pub mod Pair
pub mod Send
mod Tests
