-- ===== src/V4v/Offset/Skipped.antt =====
-- The copies of `v4v_copy_out_offset` are those of `v4v_copy_out` to an array that begins `skip` bytes
-- before the buffer.
use winservice.Base.{
  ℕ, zero, suc, ◌+◌, ◌-◌, ◌≤◌, ◌==◌, ◌≡◌, refl, inl, inr, ltb, leb, true, Bool-cases, Option, none,
  some, List, length, drop, length-drop, if◌then◌else◌, arith,
}
use winservice.Base.Words.{sub32}
use winservice.V4v.Message.{V4vRing}
use winservice.V4v.Copy.{Cursor, copy_bytes, copy_to_end, copy_rest}
use winservice.V4v.Copy.Pieces.{at_cursor, copy_bytes-inside}
use winservice.V4v.Offset.{
  SkipCursor, memcpy_below, v4v_memcpy_skip, skip_bytes, skip_to_end, skip_rest,
}
use winservice.V4v.Memory.{memcpy, copied}
use winservice.V4v.Offset.Dropped.{
  drop-copied_behind, drop-copied_before, drop-copied_across, memcpy_below-inside,
  memcpy-outside_source, memcpy-outside_buffer, length-copied,
}

-- The cursor with the buffer behind the skipped bytes.
abbrev pub skipping : (s rxp len t off : ℕ) → List ℕ → SkipCursor
skipping s rxp len t off b = record {
  cursor = at_cursor rxp len t off (drop s b);
  skip = s - off;
  base = s;
}

skip_bytes-inside :
    (r : V4vRing) (n rxp len t off s : ℕ) (b : List ℕ)
    → rxp + n ≤ length r.ring
    → off + n ≤ length b
    → s ≤ length b
    → skip_bytes r n (skipping s rxp len t off b)
      ≡ some (skipping s rxp len t (off + n) (copied r.ring rxp n off b))
unfolding skip_bytes v4v_memcpy_skip
skip_bytes-inside r n rxp len t off s b inside room le =
    let k = s - off in
    let behind = length-drop s b in
    elim (Bool-cases (k == 0)) [
      | inl e ↦
          let done : s - (off + n) ≡ 0 = ground (arith, e) in
          let same = drop-copied_behind r.ring rxp n off s b room (ground (arith, e)) in
          rw
            (
              e,
              memcpy_below-inside r.ring rxp n s off (drop s b) inside (ground (arith, e))
                  (ground (arith, e, behind)),
              done,
              same,
            )
            refl
      | inr e ↦ elim (Bool-cases (leb n k)) [
        | inl f ↦
            let left : k - n ≡ s - (off + n) = omega arith in
            let same = drop-copied_before r.ring rxp n off s b inside room (ground (arith, e, f)) in
            rw (e, f, left, same) refl
        | inr f ↦
            let done : s - (off + n) ≡ 0 = ground (arith, f) in
            let at : off + k - s ≡ 0 = ground (arith, e) in
            let same =
              drop-copied_across r.ring rxp n off s b inside room (ground (arith, e))
                (ground (arith, f)) in
            let copy =
              memcpy_below-inside r.ring (rxp + k) (n - k) s (off + k) (drop s b)
                (ground (arith, f)) (ground (arith, e)) (ground (arith, e, f, behind)) in
            rw (e, f, copy, at, done, same) refl
      ]
    ]

module _ (r : V4vRing) (s rxp len t off : ℕ) (b : List ℕ) where
  -- What a copy that is made leaves, and the same copy with the bytes skipped.
  abbrev SkipOf : ℕ → Option Cursor → Type 0
  SkipOf n none = Unit
  SkipOf n (some c) =
      (b' : List ℕ) × (c ≡ at_cursor rxp len t (off + n) b')
      × (s ≤ length b')
      × (skip_bytes r n (skipping s rxp len t off b) ≡ some (skipping s rxp len t (off + n) b'))

  skip_bytes-none_more :
      skip_bytes r 0 (skipping s rxp len t off b) ≡ some (skipping s rxp len t (off + 0) b)
  unfolding skip_bytes v4v_memcpy_skip memcpy_below
  skip_bytes-none_more =
      let left : s - off - 0 ≡ s - (off + 0) = omega arith in
      elim (Bool-cases (s - off == 0)) [
        | inl e ↦ let done : s - (off + 0) ≡ 0 = ground (arith, e) in rw (e, done) refl
        | inr e ↦ let short : leb 0 (s - off) ≡ true = ground arith in rw (e, short, left) refl
      ]

  skip_bytes-made :
      (n : ℕ)
      → rxp + n ≤ length r.ring
      → off + n ≤ length b
      → s ≤ length b
      → SkipOf n (copy_bytes r n (at_cursor rxp len t off b))
  skip_bytes-made n inside room le = rw (copy_bytes-inside r n rxp len t off b inside room) (
    copied r.ring rxp n off b,
    refl,
    omega (arith, length-copied r.ring rxp n off b inside room, le),
    skip_bytes-inside r n rxp len t off s b inside room le,
  )

  copy_bytes-refused :
      (n : ℕ) → memcpy r.ring rxp n off b ≡ none → copy_bytes r n (at_cursor rxp len t off b) ≡ none
  unfolding copy_bytes
  copy_bytes-refused n e = rw (copy_bytes, e) refl

  copy_bytes-nothing :
      copy_bytes r 0 (at_cursor rxp len t off b) ≡ some (at_cursor rxp len t (off + 0) b)
  unfolding copy_bytes memcpy
  copy_bytes-nothing = refl

  skip_bytes-SkipOf : (n : ℕ) → s ≤ length b → SkipOf n (copy_bytes r n (at_cursor rxp len t off b))
  skip_bytes-SkipOf zero le = rw (copy_bytes-nothing) (b, refl, le, skip_bytes-none_more)
  skip_bytes-SkipOf (suc n) le = elim (Bool-cases (leb (rxp + suc n) (length r.ring))) [
    | inr e ↦ rw (copy_bytes-refused (suc n) (memcpy-outside_source r.ring rxp n off b e)) tt
    | inl e ↦
        let inside : rxp + suc n ≤ length r.ring = ground (arith, e) in
        elim (Bool-cases (leb (off + suc n) (length b))) [
          | inr f ↦
              rw (copy_bytes-refused (suc n) (memcpy-outside_buffer r.ring rxp n off b inside f)) tt
          | inl f ↦ skip_bytes-made (suc n) inside (ground (arith, f)) le
        ]
  ]

-- The two halves of the copying.
module _ (r : V4vRing) (s : ℕ) where
  abbrev pub HalfOf : (Option SkipCursor) → Option Cursor → Type 0
  HalfOf k none = Unit
  HalfOf k (some c) =
      (b' : List ℕ) × (c ≡ at_cursor c.rxp c.len c.t c.off b')
      × (s ≤ length b')
      × (k ≡ some (skipping s c.rxp c.len c.t c.off b'))

  moved-HalfOf :
      (n rxp len t off : ℕ) (b : List ℕ) (len' t' : ℕ) (m : Option Cursor)
      → SkipOf r s rxp len t off b n m
      → HalfOf
          (elim (skip_bytes r n (skipping s rxp len t off b)) [
            | none ↦ none
            | some d ↦
                some (record d { cursor = record (d.cursor) { rxp = 0; len = len'; t = t' } })
          ])
          (elim m [ none ↦ none | some d ↦ some (record d { rxp = 0; len = len'; t = t' }) ])
  moved-HalfOf n rxp len t off b len' t' none made = tt
  moved-HalfOf n rxp len t off b len' t' (some c) (b', is, le, same) =
      rw (same, is) (b', refl, le, refl)

  made-HalfOf :
      (n rxp len t off : ℕ) (b : List ℕ) (m : Option Cursor)
      → SkipOf r s rxp len t off b n m
      → HalfOf (skip_bytes r n (skipping s rxp len t off b)) m
  made-HalfOf n rxp len t off b none made = tt
  made-HalfOf n rxp len t off b (some c) (b', is, le, same) = rw (same, is) (b', refl, le, refl)

  pub skip_to_end-HalfOf :
      (rxp len t off : ℕ) (b : List ℕ)
      → s ≤ length b
      → HalfOf
          (skip_to_end r (skipping s rxp len t off b))
          (copy_to_end r (at_cursor rxp len t off b))
  unfolding skip_to_end copy_to_end
  skip_to_end-HalfOf rxp len t off b le =
      let bte = sub32 r.len rxp in
      let made = λ (n : ℕ). skip_bytes-SkipOf r s rxp len t off b n le in
      elim (Bool-cases (ltb bte len)) [
        | inr e ↦ rw e (b, refl, le, refl)
        | inl e ↦ rw e (elim (Bool-cases (ltb t bte)) [
          | inl f ↦ rw f (
              moved-HalfOf t rxp len t off b (sub32 len bte) 0
                (copy_bytes r t (at_cursor rxp len t off b)) (made t))
          | inr f ↦ rw f (
              moved-HalfOf bte rxp len t off b (sub32 len bte) (t - bte)
                (copy_bytes r bte (at_cursor rxp len t off b)) (made bte))
        ])
      ]

  pub skip_rest-HalfOf :
      (rxp len t off : ℕ) (b : List ℕ)
      → s ≤ length b
      → HalfOf (skip_rest r (skipping s rxp len t off b)) (copy_rest r (at_cursor rxp len t off b))
  unfolding skip_rest copy_rest
  skip_rest-HalfOf rxp len t off b le = elim (Bool-cases (t == 0)) [
    | inl e ↦ rw e (b, refl, le, refl)
    | inr e ↦
        let n = if ltb t len then t else len in
        rw e (
          made-HalfOf n rxp len t off b (copy_bytes r n (at_cursor rxp len t off b))
            (skip_bytes-SkipOf r s rxp len t off b n le))
  ]
