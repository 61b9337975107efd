-- ===== src/V4v/Memory.antt =====
-- Copies between arrays of bytes. `none` is an access outside an array, which is a fault.
use winservice.Base.{
  ℕ, zero, suc, ◌+◌, ◌≤◌, ◌==◌, ◌≡◌, refl, true, false, sym, Option, none, some, List, [], ◌∷◌,
  ◌++◌, length, drop, leb, if◌then◌else◌, length-drop, ap, ◌∙◌, arith,
}

abbrev pub take {ℓ} : {A : Type ℓ} → ℕ → List A → List A
take zero xs = []
take (suc n) [] = []
take (suc n) (x ∷ xs) = x ∷ take n xs

-- `n` bytes from the index `i` on.
unfoldable pub slice : List ℕ → ℕ → ℕ → Option (List ℕ)
slice xs i n = if leb (i + n) (length xs) then some (take n (drop i xs)) else none

-- The bytes at the index `i` replaced.
unfoldable pub write_at : ℕ → List ℕ → List ℕ → Option (List ℕ)
write_at i bytes buf =
    if leb (i + length bytes) (length buf)
    then some (take i buf ++ (bytes ++ drop (i + length bytes) buf))
    else none

-- `memcpy(buf + off, &src[i], n)`
unfoldable pub memcpy : List ℕ → ℕ → ℕ → ℕ → List ℕ → Option (List ℕ)
unfolding slice write_at
memcpy src i n off buf =
    if n == 0
    then some buf
    else elim (slice src i n) [ none ↦ none | some bytes ↦ write_at off bytes buf ]

module _ {A : Type 0} where
  pub length-take : (n : ℕ) (xs : List A) → n ≤ length xs → length (take n xs) ≡ n
  length-take zero xs h = refl
  length-take (suc n) [] h = absurd (omega arith)
  length-take (suc n) (x ∷ xs) h = ap suc (length-take n xs (omega arith))

  pub take_all : (xs : List A) → take (length xs) xs ≡ xs
  take_all [] = refl
  take_all (x ∷ xs) = ap (λ l. x ∷ l) (take_all xs)

  pub take-append_short : (n : ℕ) (xs ys : List A) → n ≤ length xs → take n (xs ++ ys) ≡ take n xs
  take-append_short zero xs ys h = refl
  take-append_short (suc n) [] ys h = absurd (omega arith)
  take-append_short (suc n) (x ∷ xs) ys h =
      ap (λ l. x ∷ l) (take-append_short n xs ys (omega arith))

  pub take-append_long :
      (n : ℕ) (xs ys : List A) → take (length xs + n) (xs ++ ys) ≡ xs ++ take n ys
  take-append_long n [] ys = ap (λ k. take k ys) (omega arith)
  take-append_long n (x ∷ xs) ys =
      let next : suc (length xs) + n ≡ suc (length xs + n) = omega arith in
      ap (λ k. take k (x ∷ (xs ++ ys))) next ∙ ap (λ l. x ∷ l) (take-append_long n xs ys)

  pub drop-append_short :
      (n : ℕ) (xs ys : List A) → n ≤ length xs → drop n (xs ++ ys) ≡ drop n xs ++ ys
  drop-append_short zero xs ys h = refl
  drop-append_short (suc n) [] ys h = absurd (omega arith)
  drop-append_short (suc n) (x ∷ xs) ys h = drop-append_short n xs ys (omega arith)

  pub drop_all : (xs : List A) → drop (length xs) xs ≡ []
  drop_all [] = refl
  drop_all (x ∷ xs) = drop_all xs

  pub take-append_all : (xs ys : List A) → take (length xs) (xs ++ ys) ≡ xs
  take-append_all [] ys = refl
  take-append_all (x ∷ xs) ys = ap (λ l. x ∷ l) (take-append_all xs ys)

  pub drop-append_all :
      (n m : ℕ) (xs ys : List A) → n ≡ length xs + m → drop n (xs ++ ys) ≡ drop m ys
  drop-append_all n m [] ys e = ap (λ k. drop k ys) (omega arith)
  drop-append_all zero m (x ∷ xs) ys e = absurd (omega arith)
  drop-append_all (suc n) m (x ∷ xs) ys e = drop-append_all n m xs ys (omega arith)

  drop_nil : (k : ℕ) → drop {A = A} k [] ≡ []
  drop_nil zero = refl
  drop_nil (suc k) = refl

  pub drop-drop : (m n k : ℕ) (xs : List A) → k ≡ m + n → drop m (drop n xs) ≡ drop k xs
  drop-drop m zero k xs e = ap (λ j. drop j xs) (omega arith)
  drop-drop zero (suc n) k [] e = sym (drop_nil k)
  drop-drop (suc m) (suc n) k [] e = sym (drop_nil k)
  drop-drop m (suc n) zero (x ∷ xs) e = absurd (omega arith)
  drop-drop m (suc n) (suc k) (x ∷ xs) e = drop-drop m n k xs (omega arith)

  pub take-drop : (n : ℕ) (xs : List A) → take n xs ++ drop n xs ≡ xs
  take-drop zero xs = refl
  take-drop (suc n) [] = refl
  take-drop (suc n) (x ∷ xs) = ap (λ l. x ∷ l) (take-drop n xs)

leb_le : (a b : ℕ) → a ≤ b → leb a b ≡ true
leb_le a b le = ground arith

pub suc_ne_zero : (n : ℕ) → (suc n == 0) ≡ false
suc_ne_zero n = ground arith

-- What a copy inside both arrays leaves.
abbrev pub copied : List ℕ → ℕ → ℕ → ℕ → List ℕ → List ℕ
copied src i n off buf = take off buf ++ (take n (drop i src) ++ drop (off + n) buf)

pub memcpy-inside :
    (src : List ℕ) (i n off : ℕ) (buf : List ℕ)
    → i + n ≤ length src
    → off + n ≤ length buf
    → memcpy src i n off buf ≡ some (copied src i n off buf)
unfolding memcpy slice write_at
memcpy-inside src i zero off buf inside room =
    let same : off + 0 ≡ off = omega arith in rw same (ap some (sym (take-drop off buf)))
memcpy-inside src i (suc n) off buf inside room =
    let count = length-take (suc n) (drop i src) (omega (arith, length-drop i src)) in
    rw
      (
        suc_ne_zero n,
        leb_le (i + suc n) (length src) inside,
        count,
        leb_le (off + suc n) (length buf) room,
      )
      refl
