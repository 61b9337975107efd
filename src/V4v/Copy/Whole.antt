-- ===== src/V4v/Copy/Whole.antt =====
-- `v4v_copy_out` on a ring that holds a message.
use Prim.Native.Nat.{min}
use winservice.Base.{
  ℕ, ◌+◌, ◌≤◌, ◌==◌, ◌≡◌, refl, ltb, Bool, true, false, length, pos, none, some, List, ◌++◌, drop,
  if◌then◌else◌, arith,
}
use winservice.Base.Words.{add32, sub32}
use winservice.V4v.Message.{
  V4vRing, V4vRingMessageHeader, header_size, v4v_roundup, v4v_ring_bytes_to_read,
}
use winservice.V4v.Copy.Pieces.{at_cursor, round}
use winservice.V4v.Registered.{IsRing, HasMessage, payload_len, bytes_to_read-aligned}
use winservice.V4v.Copy.Cases.{start-Copied, next_ptr}
use winservice.V4v.Copy.{Cursor, wrap_ptr, start_cursor, finish_copy, v4v_copy_out}

-- Where the copy begins.
start_cursor-behind :
    (r : V4vRing) (mh : V4vRingMessageHeader) (t : ℕ) (b : List ℕ)
    → IsRing r
    → HasMessage r mh
    → let p = r.rx_ptr + header_size in
      start_cursor r mh t (some b) ≡ at_cursor (if p == r.len then 0 else p) (payload_len mh) t 0 b
unfolding start_cursor wrap_ptr
start_cursor-behind r mh t b h message =
    let btr = bytes_to_read-aligned r h in
    let p : add32 r.rx_ptr header_size ≡ r.rx_ptr + header_size = omega (arith, h) in
    let n : sub32 mh.len header_size ≡ payload_len mh = omega (arith, message, btr, h) in
    rw (p, n) refl

finish_copy-pos :
    (r : V4vRing) (mh : V4vRingMessageHeader) (from protocol consume : Bool) (c : Cursor)
    → IsRing r
    → HasMessage r mh
    → finish_copy r mh from protocol consume c ≡ record {
      ret = pos (payload_len mh);
      from = if from then some mh.source else none;
      protocol = if protocol then some mh.protocol else none;
      buf = c.buf;
      ring =
          if consume then record r { rx_ptr = wrap_ptr r (add32 c.rxp (v4v_roundup c.len)) } else r;
    }
unfolding finish_copy
finish_copy-pos r mh from protocol consume c h message =
    let btr = bytes_to_read-aligned r h in
    let n : sub32 mh.len header_size ≡ payload_len mh = omega (arith, message, btr, h) in
    let half : ltb (payload_len mh) 2147483648 ≡ true = ground (arith, message, btr, h) in
    rw (n, half) refl

-- On a registered ring that holds a message, and into a buffer with room for what is asked of it,
-- `v4v_copy_out` returns the length `n` of the payload. It leaves in the buffer the first `t` bytes
-- of the payload, or all of it, going round at the end of the ring, and nothing else is changed
-- there; it stores the source and the protocol where it is asked to; and if it consumes the
-- message, `rx_ptr` is behind the payload rounded up to 16 bytes, less the length of the ring where
-- that is at its end or beyond, and else it is as it was.
pub v4v_copy_out-payload :
    (r : V4vRing) (mh : V4vRingMessageHeader) (from protocol consume : Bool) (b : List ℕ) (t : ℕ)
    → IsRing r
    → HasMessage r mh
    → min t (payload_len mh) ≤ length b
    → let n = payload_len mh in
      let p = r.rx_ptr + header_size in
      v4v_copy_out r from protocol (some b) t consume
      ≡ some (record {
        ret = pos n;
        from = if from then some mh.source else none;
        protocol = if protocol then some mh.protocol else none;
        buf = some (round r.ring p (min t n) ++ drop (min t n) b);
        ring = if consume then record r { rx_ptr = next_ptr r p n } else r;
      })
unfolding v4v_copy_out
v4v_copy_out-payload r mh from protocol consume b t h message room =
    let n = payload_len mh in
    let btr = bytes_to_read-aligned r h in
    let p = r.rx_ptr + header_size in
    let enough : ltb (v4v_ring_bytes_to_read r) header_size ≡ false = ground (arith, message) in
    let whole : ltb (v4v_ring_bytes_to_read r) mh.len ≡ false = ground (arith, message) in
    let c =
      start-Copied r p n t b h (omega (arith, h)) (omega (arith, h)) (omega (arith, message, btr))
        room in
    rw
      (
        enough,
        message.header,
        whole,
        start_cursor-behind r mh t b h message,
        c.to_end,
        c.rest,
        finish_copy-pos r mh from protocol consume (c.last) h message,
        c.buf_is,
        c.next_is,
      )
      refl
