-- ===== src/Locks/Mrsw/Exclusion.antt =====
-- Readers and writers in any order of their accesses.
use winservice.Base.{ℕ, ◌<◌}
use winservice.Locks.Threads.{total}
use winservice.Locks.Mrsw.{writer_bit, Thread, System}
use winservice.Locks.Mrsw.Kept.{reads, writes, IsSound, Counts}

abbrev pub thread_reads : Thread → ℕ
thread_reads t = reads t.pc

abbrev pub thread_writes : Thread → ℕ
thread_writes t = writes t.pc

abbrev SoundAt : (high : ℕ) (base : ℕ → ℕ) → ℕ → Thread → Type 0
SoundAt high base i t = IsSound high (base i) t.pc t.irql

module _ (high n : ℕ) (base : ℕ → ℕ) (small : n < writer_bit) where
  -- The lock counts the threads that hold it, and each thread is sound.
  record Inv (s : System) : Type 0 where
    counts : Counts s.lock (total thread_reads n s.threads) (total thread_writes n s.threads)
    sound : (i : ℕ) → IsSound high (base i) (s.threads i).pc (s.threads i).irql
