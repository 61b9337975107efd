-- ===== src/V4v/Registered.antt =====
-- Registered rings of inc/v4v.h, and the messages on them.
use winservice.Base.{
  ℕ, ◌+◌, ◌-◌, ◌%◌, ◌≤◌, ◌<◌, ◌≡◌, inl, inr, ltb, Bool-cases, some, length, if◌then◌else◌, arith,
}
use winservice.V4v.Message.{
  V4vRing, V4vRingMessageHeader, header_size, v4v_ring_bytes_to_read, next_header,
}

-- A ring as it is registered: its length is that of its array and below 2 ^ 31, and the pointers are
-- inside it, all multiples of 16.
pub record IsRing (r : V4vRing) : Type 0 where
  pub array : length r.ring ≡ r.len
  pub small : r.len < 2147483648
  pub len_aligned : r.len % 16 ≡ 0
  pub rx_inside : r.rx_ptr < r.len
  pub rx_aligned : r.rx_ptr % 16 ≡ 0
  pub tx_inside : r.tx_ptr < r.len
  pub tx_aligned : r.tx_ptr % 16 ≡ 0

-- The header of the next message, which has been written whole.
pub record HasMessage (r : V4vRing) (mh : V4vRingMessageHeader) : Type 0 where
  pub header : next_header r ≡ some mh
  pub least : header_size ≤ mh.len
  pub whole : mh.len ≤ v4v_ring_bytes_to_read r

-- How many bytes there are behind the header.
abbrev pub payload_len : V4vRingMessageHeader → ℕ
payload_len mh = mh.len - header_size

-- How many bytes there are to read: those from `rx_ptr` round to `tx_ptr`.
pub bytes_to_read-round :
    (r : V4vRing)
    → IsRing r
    → v4v_ring_bytes_to_read r
      ≡ (if ltb r.tx_ptr r.rx_ptr then r.len + r.tx_ptr - r.rx_ptr else r.tx_ptr - r.rx_ptr)
unfolding v4v_ring_bytes_to_read
bytes_to_read-round r h = ground (arith, h.small, h.rx_inside, h.tx_inside)

pub bytes_to_read-aligned :
    (r : V4vRing)
    → IsRing r
    → (v4v_ring_bytes_to_read r % 16 ≡ 0) × (v4v_ring_bytes_to_read r < r.len)
bytes_to_read-aligned r h = elim (Bool-cases (ltb r.tx_ptr r.rx_ptr)) [
  | inl e ↦ rw (bytes_to_read-round r h, e) (ground (arith, h, e))
  | inr e ↦ rw (bytes_to_read-round r h, e) (ground (arith, h, e))
]
