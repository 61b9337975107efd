-- ===== src/V4v/Copy.antt =====
-- `v4v_copy_out` of inc/v4v.h.
pub mod Cases
pub mod Pieces
pub mod Whole
use winservice.Base.{
  ℕ, ◌+◌, ◌-◌, ◌==◌, ltb, Bool, true, false, ℤ, pos, negsuc, signed32, Option, none, some, List,
  if◌then◌else◌,
}
use winservice.Base.Words.{add32, sub32}
use winservice.V4v.Memory.{memcpy}
use winservice.V4v.Message.{
  V4vAddr, V4vRing, V4vRingMessageHeader, header_size, v4v_roundup, v4v_ring_bytes_to_read,
  next_header,
}

-- The result, what is stored through `from` and `protocol` (`none` where nothing is), the buffer
-- (`none` for NULL) and the ring.
pub record CopyOut : Type 0 where
  pub ret : ℤ
  pub from : Option V4vAddr
  pub protocol : Option ℕ
  pub buf : Option (List ℕ)
  pub ring : V4vRing

-- The local variables of the copying; `off` is how far `buf` has been moved.
pub record Cursor : Type 0 where
  pub rxp : ℕ
  pub len : ℕ
  pub t : ℕ
  pub off : ℕ
  pub buf : Option (List ℕ)

-- `if (buf) { memcpy (buf, &r->ring[rxp], n); buf += n; }`
unfoldable pub copy_bytes : V4vRing → ℕ → Cursor → Option Cursor
copy_bytes r n c = elim c.buf [
  | none ↦ some c
  | some b ↦ elim (memcpy r.ring c.rxp n c.off b) [
    | none ↦ none
    | some b' ↦ some (record c { off = c.off + n; buf = some b' })
  ]
]

-- The part of a message up to the end of the ring, where it goes round.
unfoldable pub copy_to_end : V4vRing → Cursor → Option Cursor
copy_to_end r c =
    let bte = sub32 r.len c.rxp in
    if ltb bte c.len
    then (if ltb c.t bte
        then elim (copy_bytes r c.t c) [
          | none ↦ none
          | some d ↦ some (record d { rxp = 0; len = sub32 c.len bte; t = 0 })
        ]
        else elim (copy_bytes r bte c) [
          | none ↦ none
          | some d ↦ some (record d { rxp = 0; len = sub32 c.len bte; t = c.t - bte })
        ])
    else some c

-- `if (buf && t) memcpy (buf, &r->ring[rxp], (t < len) ? t : len)`
unfoldable pub copy_rest : V4vRing → Cursor → Option Cursor
copy_rest r c = if c.t == 0 then some c else copy_bytes r (if ltb c.t c.len then c.t else c.len) c

-- `if (rxp == r->len) rxp = 0`
unfoldable pub wrap_ptr : V4vRing → ℕ → ℕ
wrap_ptr r rxp = if rxp == r.len then 0 else rxp

unfoldable pub start_cursor : V4vRing → V4vRingMessageHeader → ℕ → Option (List ℕ) → Cursor
unfolding wrap_ptr
start_cursor r mh t buf = record {
  rxp = wrap_ptr r (add32 r.rx_ptr header_size);
  len = sub32 mh.len header_size;
  t = t;
  off = 0;
  buf = buf;
}

-- The end of the function, behind the copying.
unfoldable pub finish_copy :
    V4vRing → V4vRingMessageHeader → (from protocol consume : Bool) → Cursor → CopyOut
unfolding wrap_ptr v4v_roundup
finish_copy r mh from protocol consume c = record {
  ret = signed32 (sub32 mh.len header_size);
  from = if from then some mh.source else none;
  protocol = if protocol then some mh.protocol else none;
  buf = c.buf;
  ring = if consume then record r { rx_ptr = wrap_ptr r (add32 c.rxp (v4v_roundup c.len)) } else r;
}

-- `-1`, with nothing stored.
abbrev pub nothing_read : V4vRing → Option (List ℕ) → CopyOut
nothing_read r buf = record { ret = negsuc 0; from = none; protocol = none; buf = buf; ring = r }

-- `from`, `protocol` and `consume` say whether these arguments are not 0; `buf` is the array behind
-- the pointer, and `none` NULL. A result `none` is a fault.
unfoldable pub v4v_copy_out :
    V4vRing → (from protocol : Bool) → Option (List ℕ) → ℕ → (consume : Bool) → Option CopyOut
v4v_copy_out r from protocol buf t consume =
    let btr = v4v_ring_bytes_to_read r in
    if ltb btr header_size then some (nothing_read r buf) else elim (next_header r) [
      | none ↦ none
      | some mh ↦
          if ltb btr mh.len
          then some (nothing_read r buf)
          else elim (copy_to_end r (start_cursor r mh t buf)) [
            | none ↦ none
            | some c ↦ elim (copy_rest r c) [
              | none ↦ none
              | some d ↦ some (finish_copy r mh from protocol consume d)
            ]
          ]
    ]
