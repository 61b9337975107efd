-- ===== src/V4v/Offset.antt =====
-- `v4v_memcpy_skip` and `v4v_copy_out_offset` of inc/v4v.h.
pub mod Behind
pub mod Dropped
pub mod Skipped
pub mod Zero
use winservice.Base.{
  ℕ, ◌+◌, ◌-◌, ◌==◌, ltb, leb, Bool, true, false, Option, none, some, List, if◌then◌else◌,
}
use winservice.Base.Words.{sub32}
use winservice.V4v.Memory.{memcpy}
use winservice.V4v.Message.{
  V4vRing, V4vRingMessageHeader, header_size, v4v_ring_bytes_to_read, next_header,
}
use winservice.V4v.Copy.{CopyOut, Cursor, start_cursor, finish_copy, nothing_read}

-- A cursor with `skip`, and `base`, the `skip` of the beginning: `buf` points so many bytes below
-- its array.
pub record SkipCursor : Type 0 where
  pub cursor : Cursor
  pub skip : ℕ
  pub base : ℕ

-- `memcpy (dst, src, n)` with `dst` at `off` behind the pointer that lies `base` bytes below the
-- array. Below the array, or with a pointer that comes from NULL, it is a fault where it copies
-- anything.
unfoldable pub memcpy_below :
    List ℕ → ℕ → ℕ → (base off : ℕ) → Option (List ℕ) → Option (Option (List ℕ))
memcpy_below src i n base off buf = if n == 0 then some buf else elim buf [
  | none ↦ none
  | some b ↦
      if ltb off base
      then none
      else elim (memcpy src i n (off - base) b) [ none ↦ none | some b' ↦ some (some b') ]
]

-- The copy and the `skip` that is left.
unfoldable pub v4v_memcpy_skip :
    List ℕ → ℕ → ℕ → (base off skip : ℕ) → Option (List ℕ) → Option (Option (List ℕ) × ℕ)
v4v_memcpy_skip src i len base off skip buf =
    if skip == 0
    then elim (memcpy_below src i len base off buf) [ none ↦ none | some b ↦ some (b, 0) ]
    else if leb len skip
    then some (buf, skip - len)
    else elim (memcpy_below src (i + skip) (len - skip) base (off + skip) buf) [
      | none ↦ none
      | some b ↦ some (b, 0)
    ]

-- `if (buf)`: the pointer is NULL only if it was and nothing has been subtracted from it.
abbrev pub is_null : SkipCursor → Bool
is_null c = elim c.cursor.buf [ some _ ↦ false | none ↦ c.base == 0 ]

unfoldable pub skip_bytes : V4vRing → ℕ → SkipCursor → Option SkipCursor
skip_bytes r n c =
    if is_null c
    then some c
    else elim (v4v_memcpy_skip r.ring c.cursor.rxp n c.base c.cursor.off c.skip c.cursor.buf) [
      | none ↦ none
      | some (b, skip) ↦
          some (record c {
            cursor = record (c.cursor) { off = c.cursor.off + n; buf = b };
            skip = skip;
          })
    ]

unfoldable pub skip_to_end : V4vRing → SkipCursor → Option SkipCursor
skip_to_end r c =
    let k = c.cursor in
    let bte = sub32 r.len k.rxp in
    if ltb bte k.len
    then (if ltb k.t bte
        then elim (skip_bytes r k.t c) [
          | none ↦ none
          | some d ↦
              some
                (record d { cursor = record (d.cursor) { rxp = 0; len = sub32 k.len bte; t = 0 } })
        ]
        else elim (skip_bytes r bte c) [
          | none ↦ none
          | some d ↦ some (record d {
            cursor = record (d.cursor) { rxp = 0; len = sub32 k.len bte; t = k.t - bte };
          })
        ])
    else some c

unfoldable pub skip_rest : V4vRing → SkipCursor → Option SkipCursor
skip_rest r c =
    let k = c.cursor in
    if k.t == 0 then some c else skip_bytes r (if ltb k.t k.len then k.t else k.len) c

unfoldable pub v4v_copy_out_offset :
    V4vRing
    → (from protocol : Bool) → Option (List ℕ)
    → ℕ
    → (consume : Bool) → (skip : ℕ) → Option CopyOut
v4v_copy_out_offset r from protocol buf t consume skip =
    let btr = v4v_ring_bytes_to_read r in
    if ltb btr header_size then some (nothing_read r buf) else elim (next_header r) [
      | none ↦ none
      | some mh ↦
          if ltb btr mh.len
          then some (nothing_read r buf)
          else elim (skip_to_end r
              (record { cursor = start_cursor r mh t buf; skip = skip; base = skip })) [
                | none ↦ none
                | some c ↦ elim (skip_rest r c) [
                  | none ↦ none
                  | some d ↦ some (finish_copy r mh from protocol consume d.cursor)
                ]
              ]
    ]
