-- ===== src/Locks/Irqsafe.antt =====
-- The lock that one thread holds at a time, an access at a time.
pub mod Exclusion
use winservice.Base.{ℕ, ◌<◌, ◌==◌, ◌≡◌, Bool, true, false, if◌then◌else◌}
use winservice.Locks.Threads.{update}

-- Where a thread is: in the loop of `acquire_irqsafe_lock`, or before the one exchange of
-- `try_acquire_irqsafe_lock`; `saved` is the interrupt level that is to be restored.
pub data Pc : Type 0 where
  outside : Pc
  acquiring : (try : Bool) (saved : ℕ) → Pc
  holding : (saved : ℕ) → Pc

pub record Thread : Type 0 where
  pub pc : Pc
  pub irql : ℕ

abbrev pub at : Pc → ℕ → Thread
at pc irql = record { pc = pc; irql = irql }

-- `high` is `HIGH_LEVEL`. The calls, up to the first access to the lock.
unfoldable pub acquire_irqsafe_lock : (high irql : ℕ) → Thread
acquire_irqsafe_lock high irql = at (acquiring false irql) high

unfoldable pub try_acquire_irqsafe_lock : (high irql : ℕ) → Thread
try_acquire_irqsafe_lock high irql = at (acquiring true irql) high

-- `InterlockedCompareExchange(&l->lock, 1, 0)`, and what follows it.
unfoldable pub exchange : (try : Bool) (saved lock irql : ℕ) → ℕ × Thread
exchange try saved lock irql =
    if lock == 0
    then (1, at (holding saved) irql)
    else (lock, if try then at outside saved else at (acquiring false saved) irql)

unfoldable pub release_irqsafe_lock : (saved : ℕ) → ℕ × Thread
release_irqsafe_lock saved = (0, at outside saved)

-- The next access of a thread: the lock and the thread behind it.
unfoldable pub access : Pc → (lock irql : ℕ) → ℕ × Thread
unfolding exchange release_irqsafe_lock
access outside lock irql = (lock, at outside irql)
access (acquiring try saved) lock irql = exchange try saved lock irql
access (holding saved) lock irql = release_irqsafe_lock saved

pub record System : Type 0 where
  pub lock : ℕ
  pub threads : ℕ → Thread

pub data Step (high n : ℕ) (s : System) : System → Type 0 where
  call_acquire :
      (i : ℕ)
      → i < n
      → (s.threads i).pc ≡ outside
      → Step high n s
          (record s { threads = update s.threads i (acquire_irqsafe_lock high (s.threads i).irql) })
  call_try_acquire :
      (i : ℕ)
      → i < n
      → (s.threads i).pc ≡ outside
      → Step high n s (record s {
        threads = update s.threads i (try_acquire_irqsafe_lock high (s.threads i).irql);
      })
  moving :
      (i : ℕ)
      → i < n
      → Step high n s (record {
        lock = (access (s.threads i).pc s.lock (s.threads i).irql).0;
        threads = update s.threads i (access (s.threads i).pc s.lock (s.threads i).irql).1;
      })

abbrev pub idle_threads : (ℕ → ℕ) → System
idle_threads base = record { lock = 0; threads = λ i. at outside (base i) }

pub data Reach (high n : ℕ) (base : ℕ → ℕ) : System → Type 0 where
  begin : Reach high n base (idle_threads base)
  next : {s t : System} → Reach high n base s → Step high n s t → Reach high n base t
