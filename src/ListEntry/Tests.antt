-- ===== src/ListEntry/Tests.antt =====
-- Lists of two and of one entry in a small memory.
use winservice.Base.{
  ℕ, ◌==◌, ◌≡◌, refl, Bool, false, Option, none, some, List, [], ◌∷◌, Ends, if◌then◌else◌, arith,
}
use winservice.ListEntry.{Memory, ListMacros, xm_list_splice, xm_list_transplant}
use winservice.ListEntry.Chain.{IsList, is_nil, IsDistinct, emptied}
use winservice.ListEntry.Splice.{splice-IsList, transplant-IsList}

-- Whether the entry behind the anchor is the anchor.
abbrev points_back : Option ℕ → ℕ → Bool
points_back none h = false
points_back (some q) h = q == h

abbrev macros : ListMacros
macros = record { is_list_empty = λ h m. points_back (m.flink h) h; initialize_list_head = emptied }

macros_tell :
    (m : Memory) (h : ℕ) (xs : List ℕ)
    → IsDistinct (h ∷ xs)
    → IsList m h xs
    → macros.is_list_empty h m ≡ is_nil xs
macros_tell m h [] distinct list = rw list.1.0 (ground arith)
macros_tell m h (x ∷ xs) distinct list = let ne = distinct.0.0 in rw list.0.0.0 (ground (arith, ne))

macros_initialize :
    (m : Memory) (h f b : ℕ)
    → m.flink h ≡ some f
    → m.blink h ≡ some b
    → macros.initialize_list_head h m ≡ emptied h m
macros_initialize m h f b fd bd = refl

-- The anchor 10 with the entries 11 and 12, the anchor 20 with the entry 21, and 30.
abbrev linked : List (ℕ × ℕ) → ℕ → Option ℕ
linked [] z = none
linked ((p, q) ∷ links) z = if z == p then some q else linked links z

abbrev memory : Memory
memory = record {
  flink = linked ((10, 11) ∷ (11, 12) ∷ (12, 10) ∷ (20, 21) ∷ (21, 20) ∷ (30, 0) ∷ []);
  blink = linked ((10, 12) ∷ (11, 10) ∷ (12, 11) ∷ (20, 21) ∷ (21, 20) ∷ (30, 0) ∷ []);
}

abbrev two : List ℕ
two = 11 ∷ 12 ∷ []

abbrev one : List ℕ
one = 21 ∷ []

two-IsList : IsList memory 10 two
two-IsList = ground arith

one-IsList : IsList memory 20 one
one-IsList = ground arith

splice-IsList_example :
    Ends
      (λ _ u.
        IsList u 10 (11 ∷ 12 ∷ 21 ∷ [])
        × (u.flink 30 ≡ memory.flink 30)
        × (u.blink 30 ≡ memory.blink 30))
      (xm_list_splice macros 10 20 memory)
splice-IsList_example =
    splice-IsList macros macros_tell memory 10 two 20 one 30 two-IsList one-IsList (omega arith)
      (omega arith) (omega arith) (omega arith) (omega arith)

transplant-IsList_example :
    Ends
      (λ _ u.
        IsList u 30 two
        × IsList u 10 []
        × (u.flink 21 ≡ memory.flink 21)
        × (u.blink 21 ≡ memory.blink 21))
      (xm_list_transplant macros 30 10 memory)
transplant-IsList_example =
    transplant-IsList macros macros_tell macros_initialize memory 30 0 0 10 two 21 refl refl
      two-IsList (omega arith) (omega arith)
