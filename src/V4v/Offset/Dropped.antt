-- ===== src/V4v/Offset/Dropped.antt =====
-- Copies into an array whose first bytes are left out of account.
use winservice.Base.{
  ℕ, zero, suc, ◌+◌, ◌-◌, ◌≤◌, ◌<◌, ◌≡◌, refl, sym, ap, ◌∙◌, ltb, leb, true, false, none, some,
  List, [], ◌∷◌, ◌++◌, length, drop, length-drop, length-append, arith,
}
use winservice.V4v.Copy.Pieces.{copied_nothing}
use winservice.V4v.Offset.{memcpy_below}
use winservice.V4v.Memory.{
  take, slice, write_at, memcpy, copied, memcpy-inside, length-take, drop-append_short,
  drop-append_all, drop-drop, suc_ne_zero,
}

module _ {A : Type 0} where
  take_nil : (n : ℕ) → take {A = A} n [] ≡ []
  take_nil zero = refl
  take_nil (suc n) = refl

  drop-take : (k n : ℕ) (xs : List A) → drop k (take n xs) ≡ take (n - k) (drop k xs)
  drop-take zero n xs = ap (λ m. take m xs) (omega arith)
  drop-take (suc k) zero xs = let none_left : 0 - suc k ≡ 0 = omega arith in rw none_left refl
  drop-take (suc k) (suc n) [] = sym (take_nil (suc n - suc k))
  drop-take (suc k) (suc n) (x ∷ xs) = drop-take k n xs ∙ ap (λ m. take m (drop k xs)) (omega arith)

-- A copy behind the skipped bytes, before their end, and across it.
pub drop-copied_behind :
    (src : List ℕ) (i n off s : ℕ) (b : List ℕ)
    → off + n ≤ length b
    → s ≤ off
    → drop s (copied src i n off b) ≡ copied src i n (off - s) (drop s b)
drop-copied_behind src i n off s b room le =
    let front = length-take off b (omega (arith, room)) in
    drop-append_short s (take off b) (take n (drop i src) ++ drop (off + n) b)
      (omega (arith, front, le))
    ∙ ap (λ l. l ++ (take n (drop i src) ++ drop (off + n) b)) (drop-take s off b)
    ∙ ap (λ l. take (off - s) (drop s b) ++ (take n (drop i src) ++ l))
        (sym (drop-drop (off - s + n) s (off + n) b (omega (arith, le))))

pub drop-copied_before :
    (src : List ℕ) (i n off s : ℕ) (b : List ℕ)
    → i + n ≤ length src
    → off + n ≤ length b
    → off + n ≤ s
    → drop s (copied src i n off b) ≡ drop s b
drop-copied_before src i n off s b inside room le =
    let front = length-take off b (omega (arith, room)) in
    let middle = length-take n (drop i src) (omega (arith, inside, length-drop i src)) in
    drop-append_all s (s - off) (take off b) (take n (drop i src) ++ drop (off + n) b)
      (omega (arith, front, le))
    ∙ drop-append_all (s - off) (s - off - n) (take n (drop i src)) (drop (off + n) b)
        (omega (arith, middle, le))
    ∙ drop-drop (s - off - n) (off + n) s b (omega (arith, le))

pub drop-copied_across :
    (src : List ℕ) (i n off s : ℕ) (b : List ℕ)
    → i + n ≤ length src
    → off + n ≤ length b
    → off ≤ s
    → s < off + n
    → drop s (copied src i n off b) ≡ copied src (i + (s - off)) (n - (s - off)) 0 (drop s b)
drop-copied_across src i n off s b inside room le lt =
    let k = s - off in
    let front = length-take off b (omega (arith, room)) in
    let middle = length-take n (drop i src) (omega (arith, inside, length-drop i src)) in
    drop-append_all s k (take off b) (take n (drop i src) ++ drop (off + n) b)
      (omega (arith, front, le))
    ∙ drop-append_short k (take n (drop i src)) (drop (off + n) b) (omega (arith, middle, lt))
    ∙ ap (λ l. l ++ drop (off + n) b)
        (drop-take k n (drop i src) ∙ ap (take (n - k)) (drop-drop k i (i + k) src (omega arith)))
    ∙ ap (λ l. take (n - k) (drop (i + k) src) ++ l)
        (sym (drop-drop (0 + (n - k)) s (off + n) b (omega (arith, le, lt))))

pub memcpy_below-inside :
    (src : List ℕ) (i n base off : ℕ) (b : List ℕ)
    → i + n ≤ length src
    → base ≤ off
    → off - base + n ≤ length b
    → memcpy_below src i n base off (some b) ≡ some (some (copied src i n (off - base) b))
unfolding memcpy_below
memcpy_below-inside src i zero base off b inside le room =
    ap (λ l. some (some l)) (sym (copied_nothing src i (off - base) b))
memcpy_below-inside src i (suc n) base off b inside le room =
    let above : ltb off base ≡ false = ground (arith, le) in
    rw (suc_ne_zero n, above, memcpy-inside src i (suc n) (off - base) b inside room) refl

pub memcpy-outside_source :
    (src : List ℕ) (i n off : ℕ) (b : List ℕ)
    → leb (i + suc n) (length src) ≡ false
    → memcpy src i (suc n) off b ≡ none
unfolding memcpy slice
memcpy-outside_source src i n off b e = rw (suc_ne_zero n, e) refl

pub memcpy-outside_buffer :
    (src : List ℕ) (i n off : ℕ) (b : List ℕ)
    → i + suc n ≤ length src
    → leb (off + suc n) (length b) ≡ false
    → memcpy src i (suc n) off b ≡ none
unfolding memcpy slice write_at
memcpy-outside_buffer src i n off b inside e =
    let count = length-take (suc n) (drop i src) (omega (arith, inside, length-drop i src)) in
    let whole : leb (i + suc n) (length src) ≡ true = ground (arith, inside) in
    rw (suc_ne_zero n, whole, count, e) refl

pub length-copied :
    (src : List ℕ) (i n off : ℕ) (b : List ℕ)
    → i + n ≤ length src
    → off + n ≤ length b
    → length (copied src i n off b) ≡ length b
length-copied src i n off b inside room = omega (
  arith,
  length-append (take off b) (take n (drop i src) ++ drop (off + n) b),
  length-append (take n (drop i src)) (drop (off + n) b),
  length-take off b (omega (arith, room)),
  length-take n (drop i src) (omega (arith, inside, length-drop i src)),
  length-drop (off + n) b,
  room,
)
