-- ===== src/Locks/Irqsafe/Exclusion.antt =====
-- Threads that take and release the lock, in any order of their accesses.
use mathlib.Core.Path.{subst}
use winservice.Base.{ℕ, ◌+◌, ◌≤◌, ◌<◌, ◌≡◌, ◌≢◌, ◌⊎◌, refl, sym, arith}
use winservice.Locks.Threads.{
  update, update-all, total, total-update, weight-le-total, weights-le-total, total-none,
}
use winservice.Locks.Irqsafe.{
  Pc, outside, acquiring, holding, Thread, acquire_irqsafe_lock, try_acquire_irqsafe_lock, exchange,
  release_irqsafe_lock, access, System, Step, call_acquire, call_try_acquire, moving, idle_threads,
  Reach, begin, next,
}

-- The interrupt level is raised inside, with the level of before kept, and is that level outside.
abbrev pub IsSound : (high base : ℕ) → Pc → (irql : ℕ) → Type 0
IsSound high base outside irql = irql ≡ base
IsSound high base (acquiring try saved) irql = (irql ≡ high) × (saved ≡ base)
IsSound high base (holding saved) irql = (irql ≡ high) × (saved ≡ base)

abbrev pub pc_holds : Pc → ℕ
pc_holds (holding _) = 1
pc_holds _ = 0

access-Counts :
    (high base : ℕ) (pc : Pc) (lock irql r r' : ℕ)
    → IsSound high base pc irql
    → lock ≡ r
    → r ≤ 1
    → pc_holds pc ≤ r
    → let a = access pc lock irql in
      r' + pc_holds pc ≡ r + pc_holds a.1.pc
      → (a.0 ≡ r') × (r' ≤ 1) × IsSound high base a.1.pc a.1.irql
unfolding access exchange release_irqsafe_lock
access-Counts high base outside lock irql r r' sound counted one own kept = ground (arith, sound)
access-Counts high base (acquiring try saved) lock irql r r' sound counted one own kept =
    ground (arith, sound)
access-Counts high base (holding saved) lock irql r r' sound counted one own kept =
    ground (arith, sound)

abbrev pub holds : Thread → ℕ
holds t = pc_holds t.pc

abbrev SoundAt : (high : ℕ) (base : ℕ → ℕ) → ℕ → Thread → Type 0
SoundAt high base i t = IsSound high (base i) t.pc t.irql

module _ (high n : ℕ) (base : ℕ → ℕ) where
  -- The lock is the number of its holders, which is at most 1.
  record Inv (s : System) : Type 0 where
    counted : s.lock ≡ total holds n s.threads
    one : total holds n s.threads ≤ 1
    sound : (i : ℕ) → SoundAt high base i (s.threads i)

  level : (s : System) (i : ℕ) → (s.threads i).pc ≡ outside → Inv s → (s.threads i).irql ≡ base i
  level s i out inv = subst (λ pc. IsSound high (base i) pc (s.threads i).irql) out (inv.sound i)

  call-Inv :
      (s : System) (i : ℕ) (t : Thread)
      → i < n
      → (s.threads i).pc ≡ outside
      → holds t ≡ 0
      → SoundAt high base i t
      → Inv s
      → Inv (record s { threads = update s.threads i t })
  call-Inv s i t lt out none_held sound inv =
      let kept = total-update holds s.threads i t n lt in
      record {
        counted = ground (arith, inv.counted, kept, out, none_held);
        one = ground (arith, inv.one, kept, out, none_held);
        sound = update-all (SoundAt high base) s.threads i t inv.sound sound;
      }

  Step-Inv : {s t : System} → Step high n s t → Inv s → Inv t
  unfolding acquire_irqsafe_lock try_acquire_irqsafe_lock
  Step-Inv {s} (call_acquire i lt out) inv =
      call-Inv s i (acquire_irqsafe_lock high (s.threads i).irql) lt out refl
        (refl, level s i out inv) inv
  Step-Inv {s} (call_try_acquire i lt out) inv =
      call-Inv s i (try_acquire_irqsafe_lock high (s.threads i).irql) lt out refl
        (refl, level s i out inv) inv
  Step-Inv {s} (moving i lt) inv =
      let t = s.threads i in
      let t' = (access t.pc s.lock t.irql).1 in
      let (counted, one, sound) =
        access-Counts high (base i) t.pc s.lock t.irql (total holds n s.threads)
          (total holds n (update s.threads i t')) (inv.sound i) inv.counted inv.one
          (weight-le-total holds n s.threads i lt) (sym (total-update holds s.threads i t' n lt)) in
      record {
        counted = counted;
        one = one;
        sound = update-all (SoundAt high base) s.threads i t' inv.sound sound;
      }

  Reach-Inv : {s : System} → Reach high n base s → Inv s
  Reach-Inv begin = record {
    counted = sym (total-none holds (idle_threads base).threads (λ i. refl) n);
    one = omega (arith, total-none holds (idle_threads base).threads (λ i. refl) n);
    sound = λ i. refl;
  }
  Reach-Inv (next r step) = Step-Inv step (Reach-Inv r)

  -- Whatever threads do with the lock, in any order of their accesses: of two threads one does not hold
  -- it, the lock is the number of its holders, and the level of a thread's processor is the one it had
  -- where it is outside the functions and does not hold the lock, and `HIGH_LEVEL` elsewhere, with
  -- that one saved.
  pub Reach-exclusive_holder :
      {s : System}
      → Reach high n base s
      → (i j : ℕ) → i < n
      → j < n
      → i ≢ j
      → IsSound high (base i) (s.threads i).pc (s.threads i).irql
        × ((holds (s.threads i) ≡ 0) ⊎ (holds (s.threads j) ≡ 0))
        × (s.lock ≡ total holds n s.threads)
  Reach-exclusive_holder {s} r i j lti ltj ne =
      let inv = Reach-Inv r in
      let two = weights-le-total holds n s.threads i j lti ltj ne in
      (inv.sound i, ground (arith, inv.one, two), inv.counted)
