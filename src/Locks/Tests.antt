-- ===== src/Locks/Tests.antt =====
-- Two threads and the locks.
use winservice.Base.{ℕ, zero, suc, ◌<◌, ◌≡◌, ◌≢◌, ◌⊎◌, refl, arith}
use winservice.Locks.Threads.{update, total}
use winservice.Locks.Mrsw
use winservice.Locks.Mrsw.{
  writer_bit, writer_held, acquire_mrsw_read, try_acquire_mrsw_read, acquire_mrsw_write, read_lock,
  exchange_read, release_mrsw_read, assert_no_writer, decrement, await_free, write_lock,
  exchange_write, release_mrsw_write,
}
use winservice.Locks.Mrsw.Kept
use winservice.Locks.Irqsafe
use winservice.Locks.Irqsafe.{acquire_irqsafe_lock, try_acquire_irqsafe_lock, exchange}
use winservice.Locks.Irqsafe.Exclusion
use winservice.Locks.Irqsafe.Exclusion.{holds, Reach-exclusive_holder}

two_threads : (◌<◌ 0 2) × (◌<◌ 1 2) × (◌≢◌ {A = ℕ} 0 1)
two_threads = (omega arith, omega arith, ground arith)

-- Levels 2 and 0 outside, and 31 inside.
abbrev levels : ℕ → ℕ
levels zero = 2
levels (suc i) = 0

abbrev moved : ℕ → Mrsw.System → Mrsw.System
unfolding Mrsw.access
moved i s = record {
  lock = (Mrsw.access 31 (s.threads i).pc s.lock (s.threads i).irql).0;
  threads = update s.threads i (Mrsw.access 31 (s.threads i).pc s.lock (s.threads i).irql).1;
}

abbrev called : ℕ → Mrsw.Thread → Mrsw.System → Mrsw.System
called i t s = record s { threads = update s.threads i t }

-- The first thread reads, and the second waits to write.
abbrev read_held : Mrsw.System
read_held = moved 1 (
    called 1 (acquire_mrsw_write 0)
      (moved 0 (moved 0 (called 0 (acquire_mrsw_read 31 2) (Mrsw.idle_threads levels)))))

read_held_lock : read_held.lock ≡ 1
unfolding acquire_mrsw_read acquire_mrsw_write Mrsw.access read_lock exchange_read writer_held
    await_free
read_held_lock = refl

-- The first thread holds the lock, and the second tries it.
abbrev exchanged : ℕ → Irqsafe.System → Irqsafe.System
unfolding Irqsafe.access
exchanged i s = record {
  lock = (Irqsafe.access (s.threads i).pc s.lock (s.threads i).irql).0;
  threads = update s.threads i (Irqsafe.access (s.threads i).pc s.lock (s.threads i).irql).1;
}

abbrev requested : ℕ → Irqsafe.Thread → Irqsafe.System → Irqsafe.System
requested i t s = record s { threads = update s.threads i t }

abbrev spin_held : Irqsafe.System
spin_held = exchanged 1 (
    requested 1 (try_acquire_irqsafe_lock 31 0)
      (exchanged 0 (requested 0 (acquire_irqsafe_lock 31 2) (Irqsafe.idle_threads levels))))

spin_held-Reach : Irqsafe.Reach 31 2 levels spin_held
unfolding acquire_irqsafe_lock try_acquire_irqsafe_lock Irqsafe.access
spin_held-Reach =
    let entered = Irqsafe.next Irqsafe.begin (Irqsafe.call_acquire 0 two_threads.0 refl) in
    let held = Irqsafe.next entered (Irqsafe.moving 0 two_threads.0) in
    let trying = Irqsafe.next held (Irqsafe.call_try_acquire 1 two_threads.1 refl) in
    Irqsafe.next trying (Irqsafe.moving 1 two_threads.1)

-- The try fails, and the second thread is back at its level.
spin_held_second : (spin_held.threads 1).irql ≡ 0
unfolding acquire_irqsafe_lock try_acquire_irqsafe_lock Irqsafe.access exchange
spin_held_second = refl

Reach-exclusive_holder_example :
    Exclusion.IsSound 31 2 (spin_held.threads 0).pc (spin_held.threads 0).irql
    × ((holds (spin_held.threads 0) ≡ 0) ⊎ (holds (spin_held.threads 1) ≡ 0))
    × (spin_held.lock ≡ total holds 2 spin_held.threads)
Reach-exclusive_holder_example =
    Reach-exclusive_holder 31 2 levels spin_held-Reach 0 1 two_threads.0 two_threads.1 two_threads.2
