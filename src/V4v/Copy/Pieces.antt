-- ===== src/V4v/Copy/Pieces.antt =====
-- The copies of `v4v_copy_out`, inside their arrays.
use Prim.Native.Nat.{min}
use mathlib.Core.List.{append_assoc}
use winservice.Base.{
  ℕ, ◌+◌, ◌-◌, ◌≤◌, ◌==◌, ◌≡◌, refl, sym, ap, ◌∙◌, inl, inr, ltb, Bool-cases, some, List, ◌++◌,
  length, drop, length-drop, if◌then◌else◌, arith,
}
use winservice.V4v.Memory.{
  take, copied, memcpy-inside, take-drop, take-append_short, take-append_long, take-append_all,
  drop-append_all, drop-drop, take_all, drop-append_short, drop_all,
}
use winservice.V4v.Message.{V4vRing}
use winservice.V4v.Copy.{Cursor, copy_bytes, copy_rest}

pub copied_nothing : (src : List ℕ) (i off : ℕ) (b : List ℕ) → copied src i 0 off b ≡ b
copied_nothing src i off b = let same : off + 0 ≡ off = omega arith in rw same (take-drop off b)

abbrev pub at_cursor : (rxp len t off : ℕ) → List ℕ → Cursor
at_cursor rxp len t off b = record { rxp = rxp; len = len; t = t; off = off; buf = some b }

pub copy_bytes-inside :
    (r : V4vRing) (n rxp len t off : ℕ) (b : List ℕ)
    → rxp + n ≤ length r.ring
    → off + n ≤ length b
    → copy_bytes r n (at_cursor rxp len t off b)
      ≡ some (at_cursor rxp len t (off + n) (copied r.ring rxp n off b))
unfolding copy_bytes
copy_bytes-inside r n rxp len t off b inside room =
    rw (copy_bytes, memcpy-inside r.ring rxp n off b inside room) refl

-- `copy_rest` where both arrays have room.
pub copy_rest-inside :
    (r : V4vRing) (rxp len t off : ℕ) (b : List ℕ)
    → rxp + min t len ≤ length r.ring
    → off + min t len ≤ length b
    → (o : ℕ) × (copy_rest r (at_cursor rxp len t off b)
        ≡ some (at_cursor rxp len t o (copied r.ring rxp (min t len) off b)))
unfolding copy_rest
copy_rest-inside r rxp len t off b inside room =
    let least : (if ltb t len then t else len) ≡ min t len = ground arith in
    elim (Bool-cases (t == 0)) [
      | inl e ↦
          let none_left : min t len ≡ 0 = ground (arith, e) in
          (
            off,
            rw (e, none_left)
                (ap (λ l. some (at_cursor rxp len t off l))
                  (sym (copied_nothing r.ring rxp off b))),
          )
      | inr e ↦ (
        off + min t len,
        rw (e, least) (copy_bytes-inside r (min t len) rxp len t off b inside room),
      )
    ]

-- The bytes from an index on, going round at the end of the ring.
abbrev pub round : List ℕ → ℕ → ℕ → List ℕ
round ring p n = take n (drop p (ring ++ ring))

pub round-short :
    (ring : List ℕ) (p n : ℕ) → p + n ≤ length ring → round ring p n ≡ take n (drop p ring)
round-short ring p n le =
    rw (drop-append_short p ring ring (omega arith))
      (take-append_short n (drop p ring) ring (omega (arith, length-drop p ring)))

pub round-end : (ring : List ℕ) (n : ℕ) → n ≤ length ring → round ring (length ring) n ≡ take n ring
round-end ring n le =
    rw (drop-append_short (length ring) ring ring (omega arith), drop_all ring) refl

pub round-long :
    (ring : List ℕ) (p n : ℕ)
    → p ≤ length ring
    → round ring p (length ring - p + n) ≡ drop p ring ++ take n ring
round-long ring p n le =
    rw (drop-append_short p ring ring le, ← length-drop p ring)
      (take-append_long n (drop p ring) ring)

-- A copy to the beginning of the buffer, and a second one behind it from the beginning of the ring.
pub copied_front :
    (src : List ℕ) (i m : ℕ) (b : List ℕ) → copied src i m 0 b ≡ take m (drop i src) ++ drop m b
copied_front src i m b =
    let same : 0 + m ≡ m = omega arith in ap (λ k. take m (drop i src) ++ drop k b) same

pub copied_twice :
    (src : List ℕ) (i e m : ℕ) (b : List ℕ)
    → i + e ≡ length src
    → copied src 0 m (0 + e) (copied src i e 0 b) ≡ (drop i src ++ take m src) ++ drop (e + m) b
copied_twice src i e m b whole =
    let start : 0 + e ≡ e = omega arith in
    let xs = drop i src in
    let all : e ≡ length xs = omega (arith, length-drop i src) in
    let part : take e xs ≡ xs = ap (λ k. take k xs) all ∙ take_all xs in
    rw (start, part)
      (ap (λ l. l ++ (take m src ++ drop (e + m) (xs ++ drop e b)))
          (ap (λ k. take k (xs ++ drop e b)) all ∙ take-append_all xs (drop e b))
        ∙ ap (λ l. xs ++ (take m src ++ l))
            (drop-append_all (e + m) m xs (drop e b) (omega (arith, all))
              ∙ drop-drop m e (e + m) b (omega arith))
        ∙ sym (append_assoc xs (take m src) (drop (e + m) b)))
