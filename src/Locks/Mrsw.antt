-- ===== src/Locks/Mrsw.antt =====
-- The lock of many readers or one writer. A thread makes one access to the lock at a time.
pub mod Kept
pub mod Exclusion
use winservice.Base.{ℕ, ◌<◌, ◌==◌, ◌≡◌, Bool, true, false, bit_and, if◌then◌else◌}
use winservice.Base.Words.{add32, sub32}
use winservice.Locks.Threads.{update}

-- `XM_MRSW_WRITER_HELD`
abbrev pub writer_bit : ℕ
writer_bit = 0x80000000

-- `lock & XM_MRSW_WRITER_HELD`
unfoldable pub writer_held : ℕ → Bool
writer_held lock = if bit_and lock writer_bit == 0 then false else true

-- Where a thread is, with its local variables: `saved` is what `KeRaiseIrql` has stored, `seen` the
-- lock as it was read, and `try` whether it is in `try_acquire_mrsw_read`.
pub data Pc : Type 0 where
  -- in none of the functions, and holding nothing
  outside : Pc
  read_loop : (try : Bool) (saved : ℕ) → Pc
  read_swap : (try : Bool) (saved seen : ℕ) → Pc
  -- holding the lock as a reader, before the assertions of `release_mrsw_read` and behind each
  reading : (saved : ℕ) → Pc
  read_asserted : (saved : ℕ) → Pc
  read_decrement : (saved : ℕ) → Pc
  -- in the loops of `acquire_mrsw_write`
  write_wait : Pc
  write_loop : (saved : ℕ) → Pc
  write_swap : (saved : ℕ) → Pc
  -- holding the lock as the writer
  writing : (saved : ℕ) → Pc
  -- behind an assertion that failed
  bugcheck : Pc

-- A thread and the interrupt level of its processor.
pub record Thread : Type 0 where
  pub pc : Pc
  pub irql : ℕ

abbrev pub at : Pc → ℕ → Thread
at pc irql = record { pc = pc; irql = irql }

-- `high` is `HIGH_LEVEL`. The calls, up to the first access to the lock.
unfoldable pub acquire_mrsw_read : (high irql : ℕ) → Thread
acquire_mrsw_read high irql = at (read_loop false irql) high

unfoldable pub try_acquire_mrsw_read : (high irql : ℕ) → Thread
try_acquire_mrsw_read high irql = at (read_loop true irql) high

unfoldable pub acquire_mrsw_write : (irql : ℕ) → Thread
acquire_mrsw_write irql = at write_wait irql

-- The rounds of the readers' loops: the lock is read, and it is exchanged if it has not changed.
unfoldable pub read_lock : (try : Bool) (saved lock irql : ℕ) → ℕ × Thread
unfolding writer_held
read_lock try saved lock irql =
    if writer_held lock
    then (if try then (lock, at outside saved) else (lock, at (read_loop false saved) irql))
    else (lock, at (read_swap try saved lock) irql)

unfoldable pub exchange_read : (try : Bool) (saved seen lock irql : ℕ) → ℕ × Thread
exchange_read try saved seen lock irql =
    if lock == seen
    then (add32 seen 1, at (reading saved) irql)
    else (lock, at (read_loop try saved) irql)

-- The accesses of `release_mrsw_read`: two assertions and the decrement.
unfoldable pub release_mrsw_read : (saved lock irql : ℕ) → ℕ × Thread
release_mrsw_read saved lock irql =
    if lock == 0 then (lock, at bugcheck irql) else (lock, at (read_asserted saved) irql)

unfoldable pub assert_no_writer : (saved lock irql : ℕ) → ℕ × Thread
unfolding writer_held
assert_no_writer saved lock irql =
    if writer_held lock then (lock, at bugcheck irql) else (lock, at (read_decrement saved) irql)

unfoldable pub decrement : (saved lock : ℕ) → ℕ × Thread
decrement saved lock = (sub32 lock 1, at outside saved)

-- The accesses of `acquire_mrsw_write`: outside the raised level, in the loop, and the exchange.
unfoldable pub await_free : (high lock irql : ℕ) → ℕ × Thread
await_free high lock irql =
    if lock == 0 then (lock, at (write_loop irql) high) else (lock, at write_wait irql)

unfoldable pub write_lock : (saved lock irql : ℕ) → ℕ × Thread
write_lock saved lock irql =
    if lock == 0 then (lock, at (write_swap saved) irql) else (lock, at (write_loop saved) irql)

unfoldable pub exchange_write : (saved lock irql : ℕ) → ℕ × Thread
exchange_write saved lock irql =
    if lock == 0 then (writer_bit, at (writing saved) irql) else (lock, at (write_loop saved) irql)

unfoldable pub release_mrsw_write : (saved lock irql : ℕ) → ℕ × Thread
release_mrsw_write saved lock irql =
    if lock == writer_bit then (0, at outside saved) else (lock, at bugcheck irql)

-- The next access of a thread: the lock and the thread behind it.
unfoldable pub access : (high : ℕ) → Pc → (lock irql : ℕ) → ℕ × Thread
unfolding read_lock exchange_read release_mrsw_read assert_no_writer decrement await_free write_lock
    exchange_write release_mrsw_write
access high outside lock irql = (lock, at outside irql)
access high (read_loop try saved) lock irql = read_lock try saved lock irql
access high (read_swap try saved seen) lock irql = exchange_read try saved seen lock irql
access high (reading saved) lock irql = release_mrsw_read saved lock irql
access high (read_asserted saved) lock irql = assert_no_writer saved lock irql
access high (read_decrement saved) lock irql = decrement saved lock
access high write_wait lock irql = await_free high lock irql
access high (write_loop saved) lock irql = write_lock saved lock irql
access high (write_swap saved) lock irql = exchange_write saved lock irql
access high (writing saved) lock irql = release_mrsw_write saved lock irql
access high bugcheck lock irql = (lock, at bugcheck irql)

pub record System : Type 0 where
  pub lock : ℕ
  pub threads : ℕ → Thread

-- A thread that holds nothing calls one of the functions, or a thread makes its next access.
pub data Step (high n : ℕ) (s : System) : System → Type 0 where
  call_read :
      (i : ℕ)
      → i < n
      → (s.threads i).pc ≡ outside
      → Step high n s
          (record s { threads = update s.threads i (acquire_mrsw_read high (s.threads i).irql) })
  call_try_read :
      (i : ℕ)
      → i < n
      → (s.threads i).pc ≡ outside
      → Step high n s (record s {
        threads = update s.threads i (try_acquire_mrsw_read high (s.threads i).irql);
      })
  call_write :
      (i : ℕ)
      → i < n
      → (s.threads i).pc ≡ outside
      → Step high n s
          (record s { threads = update s.threads i (acquire_mrsw_write (s.threads i).irql) })
  moving :
      (i : ℕ)
      → i < n
      → Step high n s (record {
        lock = (access high (s.threads i).pc s.lock (s.threads i).irql).0;
        threads = update s.threads i (access high (s.threads i).pc s.lock (s.threads i).irql).1;
      })

-- A lock of 0 and threads in none of the functions, at interrupt levels of their own.
abbrev pub idle_threads : (ℕ → ℕ) → System
idle_threads base = record { lock = 0; threads = λ i. at outside (base i) }

pub data Reach (high n : ℕ) (base : ℕ → ℕ) : System → Type 0 where
  begin : Reach high n base (idle_threads base)
  next : {s t : System} → Reach high n base s → Step high n s t → Reach high n base t
