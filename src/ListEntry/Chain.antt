-- ===== src/ListEntry/Chain.antt =====
-- Lists in memory: what their links are, and that they stay where the memory does.
use mathlib.Core.Path.{subst}
use winservice.Base.{
  ℕ, ◌≡◌, ◌≢◌, ◌⊎◌, inl, inr, refl, sym, ◌∙◌, Bool, true, false, some, List, [], ◌∷◌, ◌++◌, arith,
}
use winservice.ListEntry.{Memory, store}

-- The entry behind `p` is `q`, and the one before `q` is `p`.
abbrev pub Linked : Memory → ℕ → ℕ → Type 0
Linked m p q = (m.flink p ≡ some q) × (m.blink q ≡ some p)

-- The entries from `p` on, linked in order.
abbrev pub IsChain : Memory → ℕ → List ℕ → Type 0
IsChain m p [] = Unit
IsChain m p (x ∷ xs) = Linked m p x × IsChain m x xs

abbrev pub last_of : ℕ → List ℕ → ℕ
last_of p [] = p
last_of p (x ∷ xs) = last_of x xs

-- The list anchored at `h` has the entries `xs`.
abbrev pub IsList : Memory → ℕ → List ℕ → Type 0
IsList m h xs = IsChain m h xs × Linked m (last_of h xs) h

abbrev pub is_nil : List ℕ → Bool
is_nil [] = true
is_nil (x ∷ xs) = false

abbrev pub IsOutside : ℕ → List ℕ → Type 0
IsOutside z [] = Unit
IsOutside z (x ∷ xs) = (z ≢ x) × IsOutside z xs

abbrev pub IsInside : ℕ → List ℕ → Type 0
IsInside z [] = ⊥
IsInside z (x ∷ xs) = (z ≡ x) ⊎ IsInside z xs

abbrev pub IsDistinct : List ℕ → Type 0
IsDistinct [] = Unit
IsDistinct (x ∷ xs) = IsOutside x xs × IsDistinct xs

abbrev pub AreApart : List ℕ → List ℕ → Type 0
AreApart [] ys = Unit
AreApart (x ∷ xs) ys = IsOutside x ys × AreApart xs ys

pub last_of-append :
    (p : ℕ) (xs : List ℕ) (y : ℕ) (ys : List ℕ) → last_of p (xs ++ (y ∷ ys)) ≡ last_of y ys
last_of-append p [] y ys = refl
last_of-append p (x ∷ xs) y ys = last_of-append x xs y ys

pub append-IsChain :
    (m : Memory) (p : ℕ) (xs : List ℕ) (y : ℕ) (ys : List ℕ)
    → IsChain m p xs
    → Linked m (last_of p xs) y
    → IsChain m y ys
    → IsChain m p (xs ++ (y ∷ ys))
append-IsChain m p [] y ys c l d = (l, d)
append-IsChain m p (x ∷ xs) y ys (k, c) l d = (k, append-IsChain m x xs y ys c l d)

pub outside-last : (z p : ℕ) (xs : List ℕ) → z ≢ p → IsOutside z xs → z ≢ last_of p xs
outside-last z p [] ne out = ne
outside-last z p (x ∷ xs) ne (first, rest) = outside-last z x xs first rest

-- The last of a chain is apart from what the chain is apart from.
pub last-IsOutside : (p : ℕ) (xs ys : List ℕ) → AreApart (p ∷ xs) ys → IsOutside (last_of p xs) ys
last-IsOutside p [] ys (out, _) = out
last-IsOutside p (x ∷ xs) ys (_, rest) = last-IsOutside x xs ys rest

-- Another memory with the same `Flink` in all entries but the last, and the same `Blink` in all but the
-- first, has the chain too.
pub same-IsChain :
    (m u : Memory) (p : ℕ) (xs : List ℕ)
    → IsDistinct (p ∷ xs)
    → ((z : ℕ) → IsInside z (p ∷ xs) → z ≢ last_of p xs → u.flink z ≡ m.flink z)
    → ((z : ℕ) → IsInside z xs → u.blink z ≡ m.blink z)
    → IsChain m p xs
    → IsChain u p xs
same-IsChain m u p [] distinct f b c = tt
same-IsChain m u p (x ∷ xs) (out, distinct) f b ((k, l), c) = (
  (f p (inl refl) (outside-last p x xs out.0 out.1) ∙ k, b x (inl refl) ∙ l),
  same-IsChain m u x xs distinct (λ z i ne. f z (inr i) ne) (λ z i. b z (inr i)) c,
)

pub inside-differs : (z w : ℕ) (xs : List ℕ) → IsInside z xs → IsOutside w xs → z ≢ w
inside-differs z w [] i out = elim i [ ]
inside-differs z w (x ∷ xs) (inl e) (ne, rest) = λ same. ne (sym same ∙ e)
inside-differs z w (x ∷ xs) (inr i) (ne, rest) = inside-differs z w xs i rest

pub inside-IsOutside : (z : ℕ) (xs ys : List ℕ) → IsInside z xs → AreApart xs ys → IsOutside z ys
inside-IsOutside z [] ys i apart = elim i [ ]
inside-IsOutside z (x ∷ xs) ys (inl e) (out, rest) = subst (λ w. IsOutside w ys) (sym e) out
inside-IsOutside z (x ∷ xs) ys (inr i) (out, rest) = inside-IsOutside z xs ys i rest

pub last-IsInside : (p : ℕ) (xs : List ℕ) → IsInside (last_of p xs) (p ∷ xs)
last-IsInside p [] = inl refl
last-IsInside p (x ∷ xs) = inr (last-IsInside x xs)

-- What is written at an anchor of an empty list.
abbrev pub emptied : ℕ → Memory → Memory
emptied w m = record { flink = store m.flink w w; blink = store m.blink w w }

-- A list that has the entry neither for its anchor nor among its own stays.
pub emptied-IsList :
    (m : Memory) (w h : ℕ) (xs : List ℕ)
    → IsDistinct (h ∷ xs)
    → IsOutside w (h ∷ xs)
    → IsList m h xs
    → IsList (emptied w m) h xs
emptied-IsList m w h xs distinct out (c, l) =
    let last = inside-differs (last_of h xs) w (h ∷ xs) (last-IsInside h xs) out in
    let anchor = out.0 in
    (
      same-IsChain m (emptied w m) h xs distinct
          (λ z i ne. let other = inside-differs z w (h ∷ xs) i out in ground (arith, other))
          (λ z i. let other = inside-differs z w xs i out.1 in ground (arith, other)) c,
      (ground (arith, last, anchor, l.0), ground (arith, last, anchor, l.1)),
    )

pub first_of : (m : Memory) (h : ℕ) (xs : List ℕ) → IsList m h xs → (f : ℕ) × (m.flink h ≡ some f)
first_of m h [] list = (h, list.1.0)
first_of m h (x ∷ xs) list = (x, list.0.0.0)
