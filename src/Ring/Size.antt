-- ===== src/Ring/Size.antt =====
-- `__RD2` to `__RD32` and `__RING_SIZE` of inc/ring.h. `x >> n` is `x / 2 ^ n`, and `x << n` is
-- `x * 2 ^ n`, which stays below a word here.
pub mod Floor
use winservice.Base.{ℕ, ◌+◌, ◌-◌, ◌*◌, ◌/◌, ◌==◌, bit_and, if◌then◌else◌}

unfoldable pub rd2 : ℕ → ℕ
rd2 x = if bit_and x 0x2 == 0 then bit_and x 0x1 else 2

unfoldable pub rd4 : ℕ → ℕ
unfolding rd2
rd4 x = if bit_and x 0xc == 0 then rd2 x else rd2 (x / 4) * 4

unfoldable pub rd8 : ℕ → ℕ
unfolding rd4
rd8 x = if bit_and x 0xf0 == 0 then rd4 x else rd4 (x / 16) * 16

unfoldable pub rd16 : ℕ → ℕ
unfolding rd8
rd16 x = if bit_and x 0xff00 == 0 then rd8 x else rd8 (x / 256) * 256

unfoldable pub rd32 : ℕ → ℕ
unfolding rd16
rd32 x = if bit_and x 0xffff0000 == 0 then rd16 x else rd16 (x / 65536) * 65536

-- Where `ring` begins in the shared page: four indexes and 48 bytes of padding.
abbrev pub ring_offset : ℕ
ring_offset = 64

-- `sz` is the size of the shared area, at least `ring_offset`, and `entry` that of a ring entry.
unfoldable pub ring_size : ℕ → ℕ → ℕ
unfolding rd32
ring_size sz entry = rd32 ((sz - ring_offset) / entry)
