-- ===== src/ListEntry/Splice.antt =====
-- One list at the end of another.
use mathlib.Core.Path.{subst}
use mathlib.Core.List.{append-nil}
use winservice.Base.{
  ℕ, ◌==◌, ◌≡◌, ◌≢◌, inl, inr, refl, sym, false, some, List, [], ◌∷◌, ◌++◌, ok, Ends, Ends-bind,
  Ends-both, Ends-mono, arith,
}
use winservice.ListEntry.{
  Memory, ListMacros, store, splice_entries, xm_list_splice, xm_list_transplant, initialize,
}
use winservice.ListEntry.Chain.{
  Linked, IsChain, last_of, IsList, is_nil, IsInside, IsOutside, IsDistinct, AreApart,
  last_of-append, append-IsChain, same-IsChain, inside-differs, inside-IsOutside, last-IsInside,
  emptied, emptied-IsList, first_of,
}

abbrev pub spliced : Memory → (a tail first last : ℕ) → Memory
spliced m a tail first last = record {
  flink = store (store m.flink tail first) last a;
  blink = store (store m.blink first tail) a last;
}

splice_entries-runs :
    (m : Memory) (a b tail first last : ℕ)
    → Linked m tail a
    → Linked m b first
    → Linked m last b
    → a ≢ first
    → last ≢ tail
    → splice_entries a b m ≡ ok tt (spliced m a tail first last)
unfolding splice_entries
splice_entries-runs m a b tail first last (ta, at) (bf, fb) (lb, bl) ne ne' =
    let d : (a == first) ≡ false = ground (arith, ne) in
    let e : (last == tail) ≡ false = ground (arith, ne') in
    rw (bf, bl, at, ta, at, fb, d, at, e, lb) refl

-- An entry is in one memory as in another.
abbrev Same : ℕ → Memory → Memory → Type 0
Same z u m = (u.flink z ≡ m.flink z) × (u.blink z ≡ m.blink z)

-- Two lists that share no entry, the second one not empty.
module _ (m : Memory) (a : ℕ) (xs : List ℕ) (b y : ℕ) (ys : List ℕ) (list_a : IsList m a xs)
    (list_b : IsList m b (y ∷ ys)) (distinct_a : IsDistinct (a ∷ xs))
    (distinct_b : IsDistinct (b ∷ y ∷ ys)) (apart : AreApart (a ∷ xs) (b ∷ y ∷ ys)) where
  abbrev result : Memory
  result = spliced m a (last_of a xs) y (last_of y ys)

  -- An entry of the first list is none of the second.
  crosses : (z w : ℕ) → IsInside z (a ∷ xs) → IsInside w (y ∷ ys) → w ≢ z
  crosses z w i j =
      inside-differs w z (y ∷ ys) j (inside-IsOutside z (a ∷ xs) (b ∷ y ∷ ys) i apart).1

  first-IsChain : IsChain result a xs
  first-IsChain =
      same-IsChain m result a xs distinct_a
        (λ z i ne.
          let other = crosses z (last_of y ys) i (last-IsInside y ys) in ground (arith, ne, other))
        (λ z i.
          let other = crosses z y (inr i) (inl refl) in
          let ne = inside-differs z a xs i distinct_a.0 in ground (arith, ne, other))
        list_a.0

  second-IsChain : IsChain result y ys
  second-IsChain =
      same-IsChain m result y ys distinct_b.1
        (λ z i ne.
          let other = crosses (last_of a xs) z (last-IsInside a xs) i in ground (arith, ne, other))
        (λ z i.
          let other = crosses a z (inl refl) (inr i) in
          let ne = inside-differs z y ys i distinct_b.1.0 in ground (arith, ne, other))
        list_b.0.1

  middle-Linked : Linked result (last_of a xs) y
  middle-Linked =
      let other = crosses (last_of a xs) (last_of y ys) (last-IsInside a xs) (last-IsInside y ys) in
      let ne = crosses a y (inl refl) (inl refl) in (ground (arith, other), ground (arith, ne))

  end-Linked : Linked result (last_of y ys) a
  end-Linked = (ground arith, ground arith)

  result-IsList : IsList result a (xs ++ (y ∷ ys))
  result-IsList = (
    append-IsChain result a xs y ys first-IsChain middle-Linked second-IsChain,
    subst (λ l. Linked result l a) (sym (last_of-append a xs y ys)) end-Linked,
  )

  result-same :
      (z : ℕ)
      → IsOutside z (a ∷ xs)
      → IsOutside z (y ∷ ys)
      → (result.flink z ≡ m.flink z) × (result.blink z ≡ m.blink z)
  result-same z out out' =
      let first = inside-differs (last_of a xs) z (a ∷ xs) (last-IsInside a xs) out in
      let second = inside-differs (last_of y ys) z (y ∷ ys) (last-IsInside y ys) out' in
      let ne = out.0 in let ne' = out'.0 in (ground (arith, first, second), ground (arith, ne, ne'))

  entries-spliced : splice_entries a b m ≡ ok tt result
  entries-spliced =
      splice_entries-runs m a b (last_of a xs) y (last_of y ys) list_a.1 list_b.0.0 list_b.1
        (λ e. crosses a y (inl refl) (inl refl) (sym e))
        (crosses (last_of a xs) (last_of y ys) (last-IsInside a xs) (last-IsInside y ys))

module _ (macros : ListMacros)
    (tells_empty : (m : Memory) (h : ℕ) (xs : List ℕ)
      → IsDistinct (h ∷ xs)
      → IsList m h xs
      → macros.is_list_empty h m ≡ is_nil xs) where
  -- For two lists of distinct entries that share none, with their anchors: XmListSplice returns, and the
  -- first anchor has the entries of the first list and then those of the second, each in its order; and
  -- an entry that is none of the first list, not its anchor and none of the second is as before.
  pub splice-IsList :
      (m : Memory) (a : ℕ) (xs : List ℕ) (b : ℕ) (ys : List ℕ) (z : ℕ)
      → IsList m a xs
      → IsList m b ys
      → IsDistinct (a ∷ xs)
      → IsDistinct (b ∷ ys)
      → AreApart (a ∷ xs) (b ∷ ys)
      → IsOutside z (a ∷ xs)
      → IsOutside z ys
      → Ends
          (λ _ u. IsList u a (xs ++ ys) × (u.flink z ≡ m.flink z) × (u.blink z ≡ m.blink z))
          (xm_list_splice macros a b m)
  unfolding xm_list_splice
  splice-IsList m a xs b [] z list_a list_b distinct_a distinct_b apart out out' =
      rw (tells_empty m b [] distinct_b list_b)
        (subst (IsList m a) (sym (append-nil xs)) list_a, refl, refl)
  splice-IsList m a xs b (y ∷ ys) z list_a list_b distinct_a distinct_b apart out out' =
      rw
        (
          tells_empty m b (y ∷ ys) distinct_b list_b,
          entries-spliced m a xs b y ys list_a list_b distinct_a distinct_b apart,
        )
        (
          result-IsList m a xs b y ys list_a list_b distinct_a distinct_b apart,
          (result-same m a xs b y ys list_a list_b distinct_a distinct_b apart z out out').0,
          (result-same m a xs b y ys list_a list_b distinct_a distinct_b apart z out out').1,
        )

  module _
      (initializes : (m : Memory) (h f b : ℕ)
        → m.flink h ≡ some f
        → m.blink h ≡ some b
        → macros.initialize_list_head h m ≡ emptied h m) where
    -- For a list of distinct entries and an entry `dest` that is none of them and not the anchor:
    -- XmListTransplant returns, `dest` anchors a list of the entries, in their order, and the anchor
    -- `src` an empty list; and an entry that is none of these is as before.
    pub transplant-IsList :
        (m : Memory) (dest f b src : ℕ) (ys : List ℕ) (z : ℕ)
        → m.flink dest ≡ some f
        → m.blink dest ≡ some b
        → IsList m src ys
        → IsDistinct (dest ∷ src ∷ ys)
        → IsOutside z (dest ∷ src ∷ ys)
        → Ends
            (λ _ u.
              IsList u dest ys
              × IsList u src []
              × (u.flink z ≡ m.flink z)
              × (u.blink z ≡ m.blink z))
            (xm_list_transplant macros dest src m)
    unfolding xm_list_transplant
    transplant-IsList m dest f b src ys z fd bd list distinct out =
        rw (initializes m dest f b fd bd) (
          Ends-bind
            (λ _ u.
              (IsList u dest ys × Same src u (emptied dest m))
              × (IsList u dest ys × Same z u (emptied dest m)))
            (λ _ u.
              IsList u dest ys
              × IsList u src []
              × (u.flink z ≡ m.flink z)
              × (u.blink z ≡ m.blink z))
            (xm_list_splice macros dest src (emptied dest m)) (λ _. initialize macros src)
            (Ends-both (λ _ u. IsList u dest ys × Same src u (emptied dest m))
              (λ _ u. IsList u dest ys × Same z u (emptied dest m))
              (xm_list_splice macros dest src (emptied dest m))
              (onto_empty src (λ e. distinct.0.0 (sym e)) distinct.1.0)
              (onto_empty z out.0 out.1.1))
            λ _ u ((whole, (f_src, b_src)), (_, (f_z, b_z))).
              let ne : src ≢ dest = λ e. distinct.0.0 (sym e) in
              let (first, fs) = first_of m src ys list in
              let fs' : u.flink src ≡ some first = ground (arith, f_src, fs, ne) in
              let bs' : u.blink src ≡ some (last_of src ys) = ground (arith, b_src, list.1.1, ne) in
              let other = out.0 in
              let other' = out.1.0 in
              rw (initializes u src first (last_of src ys) fs' bs') (
                emptied-IsList u src dest ys (distinct.0.1, distinct.1.1) (ne, distinct.1.0) whole,
                (tt, (ground arith, ground arith)),
                ground (arith, f_z, other, other'),
                ground (arith, b_z, other, other'),
              ))
      where
        onto_empty :
            (w : ℕ)
            → w ≢ dest
            → IsOutside w ys
            → Ends
                (λ _ u. IsList u dest ys × Same w u (emptied dest m))
                (xm_list_splice macros dest src (emptied dest m))
        onto_empty w ne w_out =
            Ends-mono (xm_list_splice macros dest src (emptied dest m))
              (splice-IsList (emptied dest m) dest [] src ys w (tt, (ground arith, ground arith))
                (emptied-IsList m dest src ys distinct.1 distinct.0 list) (tt, tt) distinct.1
                (distinct.0, tt) (ne, tt) w_out)
              λ _ u (whole, f_w, b_w). (whole, (f_w, b_w))
