-- ===== src/V4v/Message.antt =====
-- The types of inc/v4v.h that its functions read, `v4v_ring_bytes_to_read`, and the header of the
-- next message.
use winservice.Base.{
  ℕ, ◌+◌, ◌-◌, ◌*◌, ◌%◌, ◌^◌, ltb, Option, none, some, List, [], ◌∷◌, if◌then◌else◌,
}
use winservice.Base.Words.{add32, sub32}
use winservice.V4v.Memory.{slice}

pub record V4vAddr : Type 0 where
  pub port : ℕ
  pub domain : ℕ

pub record V4vRingId : Type 0 where
  pub addr : V4vAddr
  pub partner : ℕ

-- `ring` is the array behind the fields, a byte at a time.
pub record V4vRing : Type 0 where
  pub magic : ℕ
  pub id : V4vRingId
  pub len : ℕ
  pub rx_ptr : ℕ
  pub tx_ptr : ℕ
  pub ring : List ℕ

pub record V4vRingMessageHeader : Type 0 where
  pub len : ℕ
  pub source : V4vAddr
  pub pad : ℕ
  pub protocol : ℕ

-- `sizeof (struct v4v_ring_message_header)`
abbrev pub header_size : ℕ
header_size = 16

-- `((a + 0xf) & ~0xf)` of a `uint32_t`
unfoldable pub v4v_roundup : ℕ → ℕ
v4v_roundup a = let b = add32 a 15 in b - b % 16

-- The difference is read as an `int32_t`.
unfoldable pub v4v_ring_bytes_to_read : V4vRing → ℕ
v4v_ring_bytes_to_read r =
    let ret = sub32 r.tx_ptr r.rx_ptr in if ltb ret (2 ^ 31) then ret else add32 r.len ret

-- The packed header in the order of its bytes, the lowest of a number first.
unfoldable pub header_of : List ℕ → Option V4vRingMessageHeader
header_of (l0 ∷ l1 ∷ l2 ∷ l3 ∷ p0 ∷ p1 ∷ p2 ∷ p3 ∷ d0 ∷ d1 ∷ e0 ∷ e1 ∷ o0 ∷ o1 ∷ o2 ∷ o3 ∷ []) =
    some (record {
      len = l0 + 256 * l1 + 65536 * l2 + 16777216 * l3;
      source = record { port = p0 + 256 * p1 + 65536 * p2 + 16777216 * p3; domain = d0 + 256 * d1 };
      pad = e0 + 256 * e1;
      protocol = o0 + 256 * o1 + 65536 * o2 + 16777216 * o3;
    })
header_of _ = none

-- `(struct v4v_ring_message_header *) &r->ring[r->rx_ptr]`
unfoldable pub next_header : V4vRing → Option V4vRingMessageHeader
unfolding slice header_of
next_header r = elim (slice r.ring r.rx_ptr header_size) [
  | none ↦ none
  | some bytes ↦ header_of bytes
]
