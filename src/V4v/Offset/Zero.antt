-- ===== src/V4v/Offset/Zero.antt =====
-- `v4v_copy_out_offset` that skips nothing.
use winservice.Base.{
  ℕ, zero, suc, ◌-◌, ◌==◌, ◌≡◌, refl, inl, inr, ltb, Bool, false, Bool-cases, Option, none, some,
  List, if◌then◌else◌, arith,
}
use winservice.Base.Words.{sub32}
use winservice.V4v.Memory.{memcpy, suc_ne_zero}
use winservice.V4v.Message.{
  V4vRing, V4vRingMessageHeader, header_size, v4v_ring_bytes_to_read, next_header,
}
use winservice.V4v.Copy.{
  Cursor, copy_bytes, copy_to_end, copy_rest, start_cursor, finish_copy, v4v_copy_out,
}
use winservice.V4v.Offset.{
  SkipCursor, memcpy_below, v4v_memcpy_skip, skip_bytes, skip_to_end, skip_rest,
  v4v_copy_out_offset,
}

abbrev unskipped : Cursor → SkipCursor
unskipped c = record { cursor = c; skip = 0; base = 0 }

abbrev all_unskipped : Option Cursor → Option SkipCursor
all_unskipped none = none
all_unskipped (some c) = some (unskipped c)

memcpy-nothing : (src : List ℕ) (i off : ℕ) (b : List ℕ) → memcpy src i 0 off b ≡ some b
unfolding memcpy
memcpy-nothing src i off b = refl

-- A copy that is not below its array.
memcpy_below-zero :
    (src : List ℕ) (i n off : ℕ) (b : List ℕ)
    → memcpy_below src i n 0 off (some b)
      ≡ elim (memcpy src i n off b) [ none ↦ none | some b' ↦ some (some b') ]
unfolding memcpy_below
memcpy_below-zero src i zero off b = rw (memcpy-nothing src i off b) refl
memcpy_below-zero src i (suc n) off b =
    let above : ltb off 0 ≡ false = ground arith in
    let same : off - 0 ≡ off = omega arith in rw (suc_ne_zero n, above, same) refl

abbrev cursor_at : (rxp len t off : ℕ) → Option (List ℕ) → Cursor
cursor_at rxp len t off buf = record { rxp = rxp; len = len; t = t; off = off; buf = buf }

-- A cursor by its fields, with what its copy gives.
skip_bytes-copied :
    (r : V4vRing) (n rxp len t off : ℕ) (b : List ℕ) (m : Option (List ℕ))
    → memcpy r.ring rxp n off b ≡ m
    → let c = cursor_at rxp len t off (some b) in
      skip_bytes r n (unskipped c) ≡ all_unskipped (copy_bytes r n c)
unfolding skip_bytes copy_bytes v4v_memcpy_skip
skip_bytes-copied r n rxp len t off b none e =
    rw (copy_bytes, memcpy_below-zero r.ring rxp n off b, e) refl
skip_bytes-copied r n rxp len t off b (some b') e =
    rw (copy_bytes, memcpy_below-zero r.ring rxp n off b, e) refl

skip_bytes-buf :
    (r : V4vRing) (n rxp len t off : ℕ) (buf : Option (List ℕ))
    → let c = cursor_at rxp len t off buf in
      skip_bytes r n (unskipped c) ≡ all_unskipped (copy_bytes r n c)
unfolding skip_bytes copy_bytes
skip_bytes-buf r n rxp len t off none = refl
skip_bytes-buf r n rxp len t off (some b) =
    skip_bytes-copied r n rxp len t off b (memcpy r.ring rxp n off b) refl

skip_bytes-zero :
    (r : V4vRing) (n : ℕ) (c : Cursor)
    → skip_bytes r n (unskipped c) ≡ all_unskipped (copy_bytes r n c)
skip_bytes-zero r n c = skip_bytes-buf r n (c.rxp) (c.len) (c.t) (c.off) (c.buf)

-- The outcome of a copy, and what follows it.
moved_on-zero :
    (m : Option Cursor) (len t : ℕ)
    → (elim (all_unskipped m) [
      | none ↦ none
      | some d ↦ some (record d { cursor = record (d.cursor) { rxp = 0; len = len; t = t } })
    ])
      ≡ all_unskipped
          (elim m [ none ↦ none | some d ↦ some (record d { rxp = 0; len = len; t = t }) ])
moved_on-zero none len t = refl
moved_on-zero (some d) len t = refl

skip_to_end-zero :
    (r : V4vRing) (c : Cursor) → skip_to_end r (unskipped c) ≡ all_unskipped (copy_to_end r c)
unfolding skip_to_end copy_to_end
skip_to_end-zero r c =
    let bte = sub32 r.len c.rxp in
    elim (Bool-cases (ltb bte c.len)) [
      | inr e ↦ rw e refl
      | inl e ↦ rw e (elim (Bool-cases (ltb c.t bte)) [
        | inl s ↦
            rw (s, skip_bytes-zero r c.t c) (moved_on-zero (copy_bytes r c.t c) (sub32 c.len bte) 0)
        | inr s ↦
            rw (s, skip_bytes-zero r bte c)
              (moved_on-zero (copy_bytes r bte c) (sub32 c.len bte) (c.t - bte))
      ])
    ]

skip_rest-zero :
    (r : V4vRing) (c : Cursor) → skip_rest r (unskipped c) ≡ all_unskipped (copy_rest r c)
unfolding skip_rest copy_rest
skip_rest-zero r c = elim (Bool-cases (c.t == 0)) [
  | inl e ↦ rw e refl
  | inr e ↦ rw e (skip_bytes-zero r (if ltb c.t c.len then c.t else c.len) c)
]

-- Both functions from the first copy on.
finished-zero :
    (r : V4vRing) (mh : V4vRingMessageHeader) (from protocol consume : Bool) (m : Option Cursor)
    → (elim (all_unskipped m) [
      | none ↦ none
      | some d ↦ some (finish_copy r mh from protocol consume d.cursor)
    ])
      ≡ elim m [ none ↦ none | some d ↦ some (finish_copy r mh from protocol consume d) ]
finished-zero r mh from protocol consume none = refl
finished-zero r mh from protocol consume (some d) = refl

halves-zero :
    (r : V4vRing) (mh : V4vRingMessageHeader) (from protocol consume : Bool) (m : Option Cursor)
    → (elim (all_unskipped m) [
      | none ↦ none
      | some c ↦ elim (skip_rest r c) [
        | none ↦ none
        | some d ↦ some (finish_copy r mh from protocol consume d.cursor)
      ]
    ])
      ≡ elim m [
        | none ↦ none
        | some c ↦ elim (copy_rest r c) [
          | none ↦ none
          | some d ↦ some (finish_copy r mh from protocol consume d)
        ]
      ]
halves-zero r mh from protocol consume none = refl
halves-zero r mh from protocol consume (some c) =
    rw (skip_rest-zero r c) (finished-zero r mh from protocol consume (copy_rest r c))

behind_header-zero :
    (r : V4vRing) (from protocol : Bool) (buf : Option (List ℕ)) (t : ℕ) (consume : Bool)
    (header : Option V4vRingMessageHeader)
    → next_header r ≡ header
    → ltb (v4v_ring_bytes_to_read r) header_size ≡ false
    → v4v_copy_out_offset r from protocol buf t consume 0
      ≡ v4v_copy_out r from protocol buf t consume
unfolding v4v_copy_out_offset v4v_copy_out
behind_header-zero r from protocol buf t consume none h e = rw (e, h) refl
behind_header-zero r from protocol buf t consume (some mh) h e =
    elim (Bool-cases (ltb (v4v_ring_bytes_to_read r) mh.len)) [
      | inl short ↦ rw (e, h, short) refl
      | inr whole ↦
          rw (e, h, whole, skip_to_end-zero r (start_cursor r mh t buf))
            (halves-zero r mh from protocol consume (copy_to_end r (start_cursor r mh t buf)))
    ]

-- `v4v_copy_out` is `v4v_copy_out_offset` that skips nothing: on every ring, with every buffer,
-- NULL included, whether they return a length or -1, and where they fault.
pub v4v_copy_out_offset-zero :
    (r : V4vRing) (from protocol : Bool) (buf : Option (List ℕ)) (t : ℕ) (consume : Bool)
    → v4v_copy_out_offset r from protocol buf t consume 0
      ≡ v4v_copy_out r from protocol buf t consume
unfolding v4v_copy_out_offset v4v_copy_out
v4v_copy_out_offset-zero r from protocol buf t consume =
    elim (Bool-cases (ltb (v4v_ring_bytes_to_read r) header_size)) [
      | inl e ↦ rw e refl
      | inr e ↦ behind_header-zero r from protocol buf t consume (next_header r) refl e
    ]
