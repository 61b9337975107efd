-- ===== src/V4v/Copy/Cases.antt =====
-- The copies of `v4v_copy_out` on a registered ring, in the four cases there are.
use Prim.Native.Nat.{min}
use mathlib.Core.Path.{subst}
use winservice.Base.{
  ℕ, ◌+◌, ◌-◌, ◌%◌, ◌≤◌, ◌<◌, ◌==◌, ◌≡◌, refl, sym, ap, ◌∙◌, inl, inr, ltb, true, false, Bool-cases,
  some, List, ◌++◌, length, drop, length-drop, length-append, if◌then◌else◌, arith,
}
use winservice.Base.Words.{add32, sub32}
use winservice.V4v.Memory.{take, copied, length-take}
use winservice.V4v.Message.{V4vRing, v4v_roundup}
use winservice.V4v.Copy.Pieces.{
  at_cursor, copy_bytes-inside, copy_rest-inside, round, round-short, round-end, round-long,
  copied_front, copied_twice,
}
use winservice.V4v.Copy.{Cursor, copy_to_end, copy_rest, wrap_ptr}
use winservice.V4v.Registered.{IsRing}

-- The two halves of the copy leave the bytes of the message, and behind them what was there.
-- `next` is where the next message begins.
pub record Copied (r : V4vRing) (p n t : ℕ) (b : List ℕ) (c : Cursor) : Type 0 where
  pub middle : Cursor
  pub last : Cursor
  pub to_end : copy_to_end r c ≡ some middle
  pub rest : copy_rest r middle ≡ some last
  pub buf_is : last.buf ≡ some (round r.ring p (min t n) ++ drop (min t n) b)
  pub next_is :
      wrap_ptr r (add32 last.rxp (v4v_roundup last.len))
      ≡ (if ltb (p + v4v_roundup n) r.len then p + v4v_roundup n else p + v4v_roundup n - r.len)

-- Where the next message begins, the copy going round or not.
abbrev pub next_ptr : V4vRing → ℕ → ℕ → ℕ
next_ptr r p n =
    if ltb (p + v4v_roundup n) r.len then p + v4v_roundup n else p + v4v_roundup n - r.len

next-short :
    (r : V4vRing) (p n : ℕ)
    → IsRing r
    → p % 16 ≡ 0
    → p + n ≤ r.len
    → wrap_ptr r (add32 p (v4v_roundup n)) ≡ next_ptr r p n
unfolding wrap_ptr v4v_roundup
next-short r p n h aligned le = ground arith

next-end :
    (r : V4vRing) (n : ℕ)
    → IsRing r
    → n + 16 ≤ r.len
    → wrap_ptr r (add32 0 (v4v_roundup n)) ≡ next_ptr r r.len n
unfolding wrap_ptr v4v_roundup
next-end r n h le = ground arith

next-long :
    (r : V4vRing) (p n : ℕ)
    → IsRing r
    → p % 16 ≡ 0
    → p ≤ r.len
    → r.len < p + n
    → n + 16 ≤ r.len
    → wrap_ptr r (add32 0 (v4v_roundup (n - (r.len - p)))) ≡ next_ptr r p n
unfolding wrap_ptr v4v_roundup
next-long r p n h aligned inside over le = ground arith

-- The first copy is not made where the message ends before the ring does.
to_end-short :
    (r : V4vRing) (rxp n t off : ℕ) (b : List ℕ)
    → IsRing r
    → rxp + n ≤ r.len
    → copy_to_end r (at_cursor rxp n t off b) ≡ some (at_cursor rxp n t off b)
unfolding copy_to_end
to_end-short r rxp n t off b h le =
    let bte : ltb (sub32 r.len rxp) n ≡ false = ground (arith, h.small) in rw bte refl

Copied-short :
    (r : V4vRing) (p n t : ℕ) (b : List ℕ)
    → IsRing r
    → p % 16 ≡ 0
    → p + n ≤ r.len
    → min t n ≤ length b
    → Copied r p n t b (at_cursor p n t 0 b)
Copied-short r p n t b h aligned le room =
    let (o, rest) = copy_rest-inside r p n t 0 b (omega (arith, h.array)) (omega arith) in
    record {
      middle = at_cursor p n t 0 b;
      last = at_cursor p n t o (copied r.ring p (min t n) 0 b);
      to_end = to_end-short r p n t 0 b h le;
      rest = rest;
      buf_is = ap some (
          copied_front r.ring p (min t n) b
          ∙ ap (λ l. l ++ drop (min t n) b)
              (sym (round-short r.ring p (min t n) (omega (arith, h.array)))));
      next_is = next-short r p n h aligned le;
    }

Copied-end :
    (r : V4vRing) (n t : ℕ) (b : List ℕ)
    → IsRing r
    → n + 16 ≤ r.len
    → min t n ≤ length b
    → Copied r r.len n t b (at_cursor 0 n t 0 b)
Copied-end r n t b h le room =
    let (o, rest) = copy_rest-inside r 0 n t 0 b (omega (arith, h.array)) (omega arith) in
    record {
      middle = at_cursor 0 n t 0 b;
      last = at_cursor 0 n t o (copied r.ring 0 (min t n) 0 b);
      to_end = to_end-short r 0 n t 0 b h (omega arith);
      rest = rest;
      buf_is = ap some (
          copied_front r.ring 0 (min t n) b
          ∙ ap (λ l. l ++ drop (min t n) b)
              (sym (
                ap (λ k. round r.ring k (min t n)) (sym h.array)
                ∙ round-end r.ring (min t n) (omega (arith, h.array)))));
      next_is = next-end r n h le;
    }

-- The message goes round, and the buffer ends before the ring does.
Copied-part :
    (r : V4vRing) (p n t : ℕ) (b : List ℕ)
    → IsRing r
    → p % 16 ≡ 0
    → p < r.len
    → r.len < p + n
    → n + 16 ≤ r.len
    → p + t < r.len
    → t ≤ length b
    → Copied r p n t b (at_cursor p n t 0 b)
unfolding copy_to_end copy_rest
Copied-part r p n t b h aligned inside over le ends room =
    let e = sub32 r.len p in
    let bte : e ≡ r.len - p = omega (arith, h.small) in
    let wraps : ltb e n ≡ true = ground (arith, bte) in
    let part : ltb t e ≡ true = ground (arith, bte) in
    let left : sub32 n e ≡ n - (r.len - p) = omega (arith, h.small, bte) in
    let copy = copy_bytes-inside r t p n t 0 b (omega (arith, h.array)) (omega arith) in
    let least : min t n ≡ t = omega arith in
    record {
      middle = at_cursor 0 (sub32 n e) 0 (0 + t) (copied r.ring p t 0 b);
      last = at_cursor 0 (sub32 n e) 0 (0 + t) (copied r.ring p t 0 b);
      to_end = rw (wraps, part, copy) refl;
      rest = refl;
      buf_is = rw least (
          ap some (
            copied_front r.ring p t b
            ∙ ap (λ l. l ++ drop t b) (sym (round-short r.ring p t (omega (arith, h.array))))));
      next_is =
          ap (λ l. wrap_ptr r (add32 0 (v4v_roundup l))) left
          ∙ next-long r p n h aligned (omega arith) over le;
    }

-- The message goes round, and so does the copy.
Copied-round :
    (r : V4vRing) (p n t : ℕ) (b : List ℕ)
    → IsRing r
    → p % 16 ≡ 0
    → p < r.len
    → r.len < p + n
    → n + 16 ≤ r.len
    → r.len ≤ p + t
    → min t n ≤ length b
    → Copied r p n t b (at_cursor p n t 0 b)
unfolding copy_to_end
Copied-round r p n t b h aligned inside over le goes room =
    let e = sub32 r.len p in
    let bte : e ≡ r.len - p = omega (arith, h.small) in
    let wraps : ltb e n ≡ true = ground (arith, bte) in
    let whole : ltb t e ≡ false = ground (arith, bte) in
    let left : sub32 n e ≡ n - (r.len - p) = omega (arith, h.small, bte) in
    let copy = copy_bytes-inside r e p n t 0 b (omega (arith, h.array, bte)) (omega (arith, bte)) in
    let half = copied r.ring p e 0 b in
    let m = min (t - e) (sub32 n e) in
    let rest_is : e ≡ length r.ring - p = omega (arith, h.array, bte) in
    let sum : min t n ≡ e + m = omega (arith, left, bte) in
    let (o, rest) =
      copy_rest-inside r 0 (sub32 n e) (t - e) (0 + e) half (omega (arith, h.array, left, bte)) (
        omega (
          arith,
          length-append (take e (drop p r.ring)) (drop (0 + e) b),
          length-take e (drop p r.ring) (omega (arith, h.array, bte, length-drop p r.ring)),
          length-drop (0 + e) b,
          sum,
        )) in
    record {
      middle = at_cursor 0 (sub32 n e) (t - e) (0 + e) half;
      last = at_cursor 0 (sub32 n e) (t - e) o (copied r.ring 0 m (0 + e) half);
      to_end = rw (wraps, whole, copy) refl;
      rest = rest;
      buf_is = ap some (
          copied_twice r.ring p e m b (omega (arith, h.array, bte))
          ∙ ap (λ l. l ++ drop (e + m) b)
              (sym (
                ap (λ k. round r.ring p (k + m)) rest_is
                ∙ round-long r.ring p m (omega (arith, h.array))))
          ∙ ap (λ k. round r.ring p k ++ drop k b) (sym sum));
      next_is =
          ap (λ l. wrap_ptr r (add32 0 (v4v_roundup l))) left
          ∙ next-long r p n h aligned (omega arith) over le;
    }

-- All four cases: `q` is where the copy starts.
pub start-Copied :
    (r : V4vRing) (p n t : ℕ) (b : List ℕ)
    → IsRing r
    → p % 16 ≡ 0
    → p ≤ r.len
    → n + 16 ≤ r.len
    → min t n ≤ length b
    → Copied r p n t b (at_cursor (if p == r.len then 0 else p) n t 0 b)
start-Copied r p n t b h aligned inside le room = elim (Bool-cases (p == r.len)) [
  | inl e ↦
      let same : p ≡ r.len = ground (arith, e) in
      rw e (
        subst (λ k. Copied r k n t b (at_cursor 0 n t 0 b)) (sym same)
          (Copied-end r n t b h le room))
  | inr ne ↦ rw ne (elim (Bool-cases (ltb r.len (p + n))) [
    | inr short ↦ Copied-short r p n t b h aligned (ground (arith, short)) room
    | inl long ↦ elim (Bool-cases (ltb (p + t) r.len)) [
      | inl part ↦
          Copied-part r p n t b h aligned (ground (arith, ne)) (ground (arith, long)) le
            (ground (arith, part)) (ground (arith, long, part))
      | inr whole ↦
          Copied-round r p n t b h aligned (ground (arith, ne)) (ground (arith, long)) le
            (ground (arith, whole)) room
    ]
  ])
]
