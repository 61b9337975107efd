-- ===== src/Locks/Mrsw/Kept.antt =====
-- What an access to the lock keeps.
use winservice.Base.{ℕ, ◌+◌, ◌*◌, ◌≤◌, ◌<◌, ◌≡◌, ◌⊎◌, leb, arith}
use winservice.Base.Words.{bit_and-shifted}
use winservice.Locks.Mrsw.{
  writer_bit, writer_held, Pc, outside, read_loop, read_swap, reading, read_asserted,
  read_decrement, write_wait, write_loop, write_swap, writing, bugcheck, access, read_lock,
  exchange_read, release_mrsw_read, assert_no_writer, decrement, await_free, write_lock,
  exchange_write, release_mrsw_write,
}

-- Who holds the lock as a reader, and as the writer.
abbrev pub reads : Pc → ℕ
reads (reading _) = 1
reads (read_asserted _) = 1
reads (read_decrement _) = 1
reads _ = 0

abbrev pub writes : Pc → ℕ
writes (writing _) = 1
writes _ = 0

-- The interrupt level is raised inside, with the level of before kept, and is that level outside; a
-- lock that a reader has seen had no writer.
abbrev pub IsSound : (high base : ℕ) → Pc → (irql : ℕ) → Type 0
IsSound high base outside irql = irql ≡ base
IsSound high base write_wait irql = irql ≡ base
IsSound high base (read_loop try saved) irql = (irql ≡ high) × (saved ≡ base)
IsSound high base (read_swap try saved seen) irql =
    (irql ≡ high) × (saved ≡ base) × (seen < writer_bit)
IsSound high base (reading saved) irql = (irql ≡ high) × (saved ≡ base)
IsSound high base (read_asserted saved) irql = (irql ≡ high) × (saved ≡ base)
IsSound high base (read_decrement saved) irql = (irql ≡ high) × (saved ≡ base)
IsSound high base (write_loop saved) irql = (irql ≡ high) × (saved ≡ base)
IsSound high base (write_swap saved) irql = (irql ≡ high) × (saved ≡ base)
IsSound high base (writing saved) irql = (irql ≡ high) × (saved ≡ base)
IsSound high base bugcheck irql = ⊥

-- The lock counts `r` readers or one writer.
pub record Counts (lock r w : ℕ) : Type 0 where
  pub counted : lock ≡ r + writer_bit * w
  pub few : r < writer_bit
  pub exclusive : (w ≡ 0) ⊎ ((w ≡ 1) × (r ≡ 0))

writer_held-eq : (lock : ℕ) → lock < 4294967296 → writer_held lock ≡ leb writer_bit lock
unfolding writer_held
writer_held-eq lock word = ground (arith, bit_and-shifted lock 1 31)

-- The access of a thread that is at `pc`, where `r` and `w` count the holders before and `r'` and
-- `w'` those behind.
pub access-Counts :
    (high base : ℕ) (pc : Pc) (lock irql r w r' w' : ℕ)
    → IsSound high base pc irql
    → Counts lock r w
    → reads pc ≤ r
    → writes pc ≤ w
    → let a = access high pc lock irql in
      r' + reads pc ≡ r + reads a.1.pc
      → w' + writes pc ≡ w + writes a.1.pc
      → r' < writer_bit
      → Counts a.0 r' w' × IsSound high base a.1.pc a.1.irql
unfolding access read_lock exchange_read release_mrsw_read assert_no_writer decrement await_free
    write_lock exchange_write release_mrsw_write
access-Counts high base outside lock irql r w r' w' sound c own owned rr ww few =
    ground (arith, c, sound)
access-Counts high base (read_loop try saved) lock irql r w r' w' sound c own owned rr ww few =
    let word : lock < 4294967296 = ground (arith, c) in
    ground (arith, c, sound, writer_held-eq lock word)
access-Counts high base (read_swap try saved seen) lock irql r w r' w' sound c own owned rr ww few =
    ground (arith, c, sound)
access-Counts high base (reading saved) lock irql r w r' w' sound c own owned rr ww few =
    ground (arith, c, sound)
access-Counts high base (read_asserted saved) lock irql r w r' w' sound c own owned rr ww few =
    let word : lock < 4294967296 = ground (arith, c) in
    ground (arith, c, sound, writer_held-eq lock word)
access-Counts high base (read_decrement saved) lock irql r w r' w' sound c own owned rr ww few =
    ground (arith, c, sound)
access-Counts high base write_wait lock irql r w r' w' sound c own owned rr ww few =
    ground (arith, c, sound)
access-Counts high base (write_loop saved) lock irql r w r' w' sound c own owned rr ww few =
    ground (arith, c, sound)
access-Counts high base (write_swap saved) lock irql r w r' w' sound c own owned rr ww few =
    ground (arith, c, sound)
access-Counts high base (writing saved) lock irql r w r' w' sound c own owned rr ww few =
    ground (arith, c, sound)
access-Counts high base bugcheck lock irql r w r' w' sound c own owned rr ww few = absurd sound
