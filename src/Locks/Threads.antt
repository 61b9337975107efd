-- ===== src/Locks/Threads.antt =====
-- Threads by their numbers: one of them replaced, and how many of the first `n` count.
use mathlib.Core.Path.{subst}
use winservice.Base.{
  ℕ, zero, suc, ◌+◌, ◌≤◌, ◌<◌, ◌≡◌, ◌≢◌, refl, sym, inl, inr, ◌==◌, Bool-cases, if◌then◌else◌,
  arith,
}

abbrev pub update {ℓ} : {A : Type ℓ} → (ℕ → A) → ℕ → A → ℕ → A
update f i a j = if j == i then a else f j

module _ {ℓ} {A : Type ℓ} (weight : A → ℕ) where
  pub total : ℕ → (ℕ → A) → ℕ
  total zero f = 0
  total (suc n) f = weight (f n) + total n f

  -- Behind the threads that count.
  beyond-total : (f : ℕ → A) (i : ℕ) (t : A) (n : ℕ) → n ≤ i → total n (update f i t) ≡ total n f
  unfolding total
  beyond-total f i t zero le = refl
  beyond-total f i t (suc n) le = ground (arith, beyond-total f i t n)

  -- The one thread's weight goes and comes.
  pub total-update :
      (f : ℕ → A) (i : ℕ) (t : A) (n : ℕ)
      → i < n
      → total n f + weight t ≡ total n (update f i t) + weight (f i)
  unfolding total
  total-update f i t zero lt = absurd (omega arith)
  total-update f i t (suc n) lt = elim (Bool-cases (n == i)) [
    | inl e ↦ ground (arith, e, beyond-total f i t n)
    | inr e ↦ ground (arith, e, total-update f i t n)
  ]

  pub weight-le-total : (n : ℕ) (f : ℕ → A) (i : ℕ) → i < n → weight (f i) ≤ total n f
  unfolding total
  weight-le-total zero f i lt = absurd (omega arith)
  weight-le-total (suc n) f i lt = elim (Bool-cases (n == i)) [
    | inl e ↦ ground (arith, e)
    | inr e ↦ ground (arith, e, weight-le-total n f i)
  ]

  -- Two threads that count are two of the count.
  pub weights-le-total :
      (n : ℕ) (f : ℕ → A) (i j : ℕ)
      → i < n
      → j < n
      → i ≢ j
      → weight (f i) + weight (f j) ≤ total n f
  unfolding total
  weights-le-total zero f i j lti ltj ne = absurd (omega arith)
  weights-le-total (suc n) f i j lti ltj ne = elim (Bool-cases (n == i)) [
    | inl e ↦ ground (arith, e, ne, weight-le-total n f j)
    | inr e ↦ elim (Bool-cases (n == j)) [
      | inl d ↦ ground (arith, e, d, ne, weight-le-total n f i)
      | inr d ↦ ground (arith, e, d, ne, weights-le-total n f i j)
    ]
  ]

  pub total-le : (f : ℕ → A) (each : (t : A) → weight t ≤ 1) (n : ℕ) → total n f ≤ n
  unfolding total
  total-le f each zero = omega arith
  total-le f each (suc n) = omega (arith, total-le f each n, each (f n))

  pub total-none : (f : ℕ → A) (none : (i : ℕ) → weight (f i) ≡ 0) (n : ℕ) → total n f ≡ 0
  unfolding total
  total-none f none zero = refl
  total-none f none (suc n) = omega (arith, total-none f none n, none n)

-- What holds of every thread, and of the new one at its number.
pub update-all {ℓ} :
    {A : Type ℓ} (P : ℕ → A → Type 0) (f : ℕ → A) (i : ℕ) (a : A)
    → ((j : ℕ) → P j (f j))
    → P i a
    → (j : ℕ) → P j (update f i a j)
update-all P f i a all here j = elim (Bool-cases (j == i)) [
  | inl e ↦ let same : j ≡ i = ground (arith, e) in rw e (subst (λ k. P k a) (sym same) here)
  | inr e ↦ rw e (all j)
]
