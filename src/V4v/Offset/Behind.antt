-- ===== src/V4v/Offset/Behind.antt =====
-- `v4v_copy_out_offset` with a `skip`.
use mathlib.Core.Path.{subst}
use winservice.Base.{
  ℕ, ◌-◌, ◌≤◌, ◌≡◌, refl, ap, inl, inr, ltb, Bool, Bool-cases, Option, none, some, List, length,
  drop, arith,
}
use winservice.V4v.Message.{
  V4vRing, V4vRingMessageHeader, header_size, v4v_ring_bytes_to_read, next_header,
}
use winservice.V4v.Copy.{
  CopyOut, Cursor, copy_to_end, copy_rest, start_cursor, finish_copy, v4v_copy_out,
}
use winservice.V4v.Copy.Pieces.{at_cursor}
use winservice.V4v.Offset.{SkipCursor, skip_to_end, skip_rest, v4v_copy_out_offset}
use winservice.V4v.Offset.Skipped.{skipping, HalfOf, skip_to_end-HalfOf, skip_rest-HalfOf}

-- The buffer behind so many bytes.
abbrev pub behind : ℕ → Option (List ℕ) → Option (List ℕ)
behind s none = none
behind s (some b) = some (drop s b)

-- The same outcome with the buffer behind the skipped bytes, where there is one.
abbrev BehindOf : ℕ → Option CopyOut → Option CopyOut → Type 0
BehindOf s result none = Unit
BehindOf s result (some out) = result ≡ some (record out { buf = behind s out.buf })

module _ (r : V4vRing) (mh : V4vRingMessageHeader) (from protocol consume : Bool) (s : ℕ) where
  finished-BehindOf :
      (k : Option SkipCursor) (m : Option Cursor)
      → HalfOf r s k m
      → BehindOf s
          (elim k [ none ↦ none | some d ↦ some (finish_copy r mh from protocol consume d.cursor) ])
          (elim m [ none ↦ none | some d ↦ some (finish_copy r mh from protocol consume d) ])
  unfolding finish_copy
  finished-BehindOf k none half = tt
  finished-BehindOf k (some d) (b, is, le, same) = rw (same, ap (λ c. c.buf) is) refl

  halves-BehindOf :
      (k : Option SkipCursor) (m : Option Cursor)
      → HalfOf r s k m
      → BehindOf s
          (elim k [
            | none ↦ none
            | some c ↦ elim (skip_rest r c) [
              | none ↦ none
              | some d ↦ some (finish_copy r mh from protocol consume d.cursor)
            ]
          ])
          (elim m [
            | none ↦ none
            | some c ↦ elim (copy_rest r c) [
              | none ↦ none
              | some d ↦ some (finish_copy r mh from protocol consume d)
            ]
          ])
  halves-BehindOf k none half = tt
  halves-BehindOf k (some c) (b, is, le, same) =
      rw (same, ap (copy_rest r) is)
        (finished-BehindOf (skip_rest r (skipping s c.rxp c.len c.t c.off b))
          (copy_rest r (at_cursor c.rxp c.len c.t c.off b))
          (skip_rest-HalfOf r s c.rxp c.len c.t c.off b le))

module _ (r : V4vRing) (from protocol consume : Bool) (t s : ℕ) (b : List ℕ)
    (le : s ≤ length b) where
  started-HalfOf :
      (mh : V4vRingMessageHeader)
      → HalfOf r s
          (skip_to_end r
            (record { cursor = start_cursor r mh t (some (drop s b)); skip = s; base = s }))
          (copy_to_end r (start_cursor r mh t (some b)))
  unfolding start_cursor
  started-HalfOf mh =
      let c = start_cursor r mh t (some b) in
      let none_yet : s - 0 ≡ s = omega arith in
      subst
        (λ k.
          HalfOf r s
            (skip_to_end r
              (record { cursor = start_cursor r mh t (some (drop s b)); skip = k; base = s }))
            (copy_to_end r (start_cursor r mh t (some b))))
        none_yet (skip_to_end-HalfOf r s c.rxp c.len t 0 b le)

  header-BehindOf :
      (header : Option V4vRingMessageHeader)
      → next_header r ≡ header
      → BehindOf s
          (v4v_copy_out_offset r from protocol (some (drop s b)) t consume s)
          (v4v_copy_out r from protocol (some b) t consume)
  unfolding v4v_copy_out_offset v4v_copy_out
  header-BehindOf none is = elim (Bool-cases (ltb (v4v_ring_bytes_to_read r) header_size)) [
    | inl e ↦ rw e refl
    | inr e ↦ rw (e, is) tt
  ]
  header-BehindOf (some mh) is = elim (Bool-cases (ltb (v4v_ring_bytes_to_read r) header_size)) [
    | inl e ↦ rw e refl
    | inr e ↦
        rw (e, is)
          (elim (Bool-cases (ltb (v4v_ring_bytes_to_read r) mh.len)) [
            | inl short ↦ rw short refl
            | inr whole ↦ rw whole (
                halves-BehindOf r mh from protocol consume s
                  (skip_to_end r
                    (record { cursor = start_cursor r mh t (some (drop s b)); skip = s; base = s }))
                  (copy_to_end r (start_cursor r mh t (some b))) (started-HalfOf mh))
          ])
  ]

  -- Where `v4v_copy_out` into an array of at least `s` bytes returns, `v4v_copy_out_offset` with a
  -- `skip` of `s` into the part of the array behind its first `s` bytes returns the same, stores the
  -- same source and protocol, leaves the same ring, and leaves in that part the same bytes.
  pub v4v_copy_out_offset-behind :
      (out : CopyOut)
      → v4v_copy_out r from protocol (some b) t consume ≡ some out
      → v4v_copy_out_offset r from protocol (some (drop s b)) t consume s
        ≡ some (record out { buf = behind s out.buf })
  v4v_copy_out_offset-behind out returned =
      subst (BehindOf s (v4v_copy_out_offset r from protocol (some (drop s b)) t consume s))
        returned (header-BehindOf (next_header r) refl)
