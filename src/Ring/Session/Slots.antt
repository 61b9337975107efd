-- ===== src/Ring/Session/Slots.antt =====
-- The entries of a ring of `n` slots that lie in line from a counter on.
use winservice.Base.{
  ℕ, ◌+◌, ◌%◌, ◌≤◌, ◌<◌, ◌≡◌, ◌≢◌, sym, ap, ◌∙◌, List, [], ◌∷◌, ◌++◌, map, length, length-append,
  Bool-cases, ltb, ◌/◌, inl, inr, arith,
}
use winservice.Base.Words.{low32}
use winservice.Base.PowerOfTwo.{IsSize, low_bits, size-whole}
use native.Mathlib.Nat.{mod-mod_of_dvd, div-add-mod, mul-add, mul-le-mul_left}
use mathlib.Core.Path.{subst}
use mathlib.Core.List.{map-append, append_assoc}
use winservice.Ring.Macros.{SringEntry, store, ring_index}

module _ {n : ℕ} (size : IsSize n) where
  -- The slot of a counter, though the index has wrapped around.
  pub ring_index-low32 : (i : ℕ) → ring_index n (low32 i) ≡ i % n
  unfolding ring_index
  ring_index-low32 i =
      low_bits size (low32 i) ∙ mod-mod_of_dvd n {b = 4294967296} i (size-whole size)

  -- Less than a round apart, two counters have different slots.
  pub mod-ne : (i j : ℕ) → i < j → j < i + n → i % n ≢ j % n
  mod-ne i j lt near same =
      let below = div-add-mod i n in
      let above = div-add-mod j n in
      elim (Bool-cases (ltb (i / n) (j / n))) [
        | inl less ↦
            let gap : i / n + 1 ≤ j / n = ground (arith, less) in
            let wide = mul-le-mul_left n gap in
            let sum = mul-add n (i / n) 1 in omega (arith, below, above, same, wide, sum)
        | inr other ↦
            let gap : j / n ≤ i / n = ground (arith, other) in
            let wide = mul-le-mul_left n gap in omega (arith, below, above, same, wide)
      ]

module _ {A Q P : Type 0} (n : ℕ) (wrap : A → SringEntry Q P) where
  -- The items stand in the slots of the counters from `i` on.
  abbrev pub Slots : (ℕ → SringEntry Q P) → ℕ → List A → Type 0
  Slots ring i [] = Unit
  Slots ring i (x ∷ xs) = (ring (i % n) ≡ wrap x) × Slots ring (i + 1) xs

  -- An entry written less than a round ahead, behind the items.
  pub Slots-store :
      (size : IsSize n) (ring : ℕ → SringEntry Q P) (e : SringEntry Q P) (xs : List A) (i j : ℕ)
      → i + length xs ≤ j
      → j < i + n
      → Slots ring i xs
      → Slots (store (j % n) e ring) i xs
  Slots-store size ring e [] i j le near h = tt
  Slots-store size ring e (x ∷ xs) i j le near h = (
    ground (arith, mod-ne size i j, h.0),
    Slots-store size ring e xs (i + 1) j (omega arith) (omega arith) h.1,
  )

  -- An entry written behind them by the other end, less than a round before.
  pub Slots-store_before :
      (size : IsSize n) (ring : ℕ → SringEntry Q P) (e : SringEntry Q P) (xs : List A) (i j : ℕ)
      → j < i
      → i + length xs ≤ j + n
      → Slots ring i xs
      → Slots (store (j % n) e ring) i xs
  Slots-store_before size ring e [] i j lt near h = tt
  Slots-store_before size ring e (x ∷ xs) i j lt near h = (
    ground (arith, mod-ne size j i, h.0),
    Slots-store_before size ring e xs (i + 1) j (omega arith) (omega arith) h.1,
  )

  pub Slots-append :
      (size : IsSize n) (ring : ℕ → SringEntry Q P) (x : A) (xs : List A) (i j : ℕ)
      → j ≡ i + length xs
      → j < i + n
      → Slots ring i xs
      → Slots (store (j % n) (wrap x) ring) i (xs ++ x ∷ [])
  Slots-append size ring x [] i j e near h = (ground (arith, e), tt)
  Slots-append size ring x (y ∷ ys) i j e near h = (
    ground (arith, mod-ne size i j, h.0, e),
    Slots-append size ring x ys (i + 1) j (omega arith) (omega arith) h.1,
  )

module _ {A B : Type 0} (f : A → B) where
  -- An item that is queued comes behind those that were queued before.
  pub order-queue :
      (taken : List B) (xs all : List A) (x : A)
      → taken ++ map f xs ≡ map f all
      → taken ++ map f (xs ++ x ∷ []) ≡ map f (all ++ x ∷ [])
  order-queue taken xs all x e =
      rw (map-append f xs (x ∷ []), map-append f all (x ∷ []))
        (sym (append_assoc taken (map f xs) (f x ∷ [])) ∙ ap (λ l. l ++ f x ∷ []) e)

  -- The first of the items that wait is the next that is read.
  pub order-take :
      (taken : List B) (x : A) (xs all : List A) (b : B)
      → b ≡ f x
      → taken ++ map f (x ∷ xs) ≡ map f all
      → (taken ++ b ∷ []) ++ map f xs ≡ map f all
  order-take taken x xs all b same e = append_assoc taken (b ∷ []) (map f xs) ∙ rw same e

-- The items that wait in the slots from `i` up to `total`, behind those that have been read.
pub record Queued {A Q P : Type 0} (n : ℕ) (wrap : A → SringEntry Q P) (ring : ℕ → SringEntry Q P)
    (i total : ℕ) (taken : List (SringEntry Q P)) (all : List A) : Type 0 where
  pub items : List A
  pub count : total ≡ i + length items
  pub slots : Slots {Q = Q} {P = P} n wrap ring i items
  pub order : taken ++ map wrap items ≡ map wrap all

module _ {A Q P : Type 0} {n : ℕ} (wrap : A → SringEntry Q P) where
  take_items :
      (ring : ℕ → SringEntry Q P) (i total : ℕ) (taken : List (SringEntry Q P)) (all xs : List A)
      → total ≡ i + length xs
      → Slots {Q = Q} {P = P} n wrap ring i xs
      → taken ++ map wrap xs ≡ map wrap all
      → i < total
      → Queued n wrap ring (i + 1) total (taken ++ ring (i % n) ∷ []) all
  take_items ring i total taken all [] count slots order lt = absurd (omega arith)
  take_items ring i total taken all (x ∷ xs) count slots order lt = record {
    items = xs;
    count = omega arith;
    slots = slots.1;
    order = order-take wrap taken x xs all (ring (i % n)) slots.0 order;
  }

  -- Reading the slot of the next item takes that item.
  pub take-Queued :
      {ring : ℕ → SringEntry Q P} {i total : ℕ} {taken : List (SringEntry Q P)} {all : List A}
      (slot : ℕ)
      → slot ≡ i % n
      → i < total
      → Queued n wrap ring i total taken all
      → Queued n wrap ring (i + 1) total (taken ++ ring slot ∷ []) all
  take-Queued {ring} {i} {total} {taken} {all} slot e lt h =
      subst (λ k. Queued n wrap ring (i + 1) total (taken ++ ring k ∷ []) all) (sym e)
        (take_items ring i total taken all h.items h.count h.slots h.order lt)

  -- Writing the slot behind the last item queues one more.
  pub append-Queued :
      {ring : ℕ → SringEntry Q P} {i total : ℕ} {taken : List (SringEntry Q P)} {all : List A}
      (size : IsSize n) (x : A)
      → total < i + n
      → Queued n wrap ring i total taken all
      → Queued n wrap (store (total % n) (wrap x) ring) i (total + 1) taken (all ++ x ∷ [])
  append-Queued {ring} {i} {total} {taken} {all} size x near h = record {
    items = h.items ++ x ∷ [];
    count = omega (arith, h.count, length-append h.items (x ∷ []));
    slots = Slots-append n wrap size ring x h.items i total h.count near h.slots;
    order = order-queue wrap taken h.items all x h.order;
  }

  -- Entries that the other end writes, ahead or behind within a round, leave the items.
  pub write_ahead-Queued :
      {ring : ℕ → SringEntry Q P} {i total : ℕ} {taken : List (SringEntry Q P)} {all : List A}
      (size : IsSize n) (e : SringEntry Q P) (j : ℕ)
      → total ≤ j
      → j < i + n
      → Queued n wrap ring i total taken all
      → Queued n wrap (store (j % n) e ring) i total taken all
  write_ahead-Queued {ring} {i} size e j le near h = record {
    items = h.items;
    count = h.count;
    slots = Slots-store n wrap size ring e h.items i j (omega (arith, h.count)) near h.slots;
    order = h.order;
  }

  pub write_behind-Queued :
      {ring : ℕ → SringEntry Q P} {i total : ℕ} {taken : List (SringEntry Q P)} {all : List A}
      (size : IsSize n) (e : SringEntry Q P) (j : ℕ)
      → j < i
      → total ≤ j + n
      → Queued n wrap ring i total taken all
      → Queued n wrap (store (j % n) e ring) i total taken all
  write_behind-Queued {ring} {i} size e j lt near h = record {
    items = h.items;
    count = h.count;
    slots = Slots-store_before n wrap size ring e h.items i j lt (omega (arith, h.count)) h.slots;
    order = h.order;
  }
