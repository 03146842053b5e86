-- ===== src/Barrier.antt =====
-- assignment-2/PA2_2020/2_barrier/barrier.h and barrier.c (the copy under assignment-2-Final has the
-- same statements): a barrier of a mutex, a condition variable and a counter, and threads that call
-- `barrier_wait` again and again, interleaved in any order.
pub mod Mutex
pub mod Rounds
pub mod Spurious
mod Tests
pub mod Threads
use decs.Base.Int.{ℤ, ◌-ℤ◌, pos, eq_ℤ}
use decs.Base.{Bool, if◌then◌else◌, true, false}

-- `struct barrier_t`, without the mutex and the condition variable, which stand in `System`
pub record Barrier : Type 0 where
  pub thread_count_initial : ℤ
  pub count : ℤ

unfoldable pub barrier_init : ℤ → Barrier
barrier_init nthreads = record { thread_count_initial = nthreads; count = nthreads }

-- What `barrier_wait` does to the counter between the lock and the wait or the unlock; the result says
-- whether the caller takes the branch of the broadcast.
unfoldable pub arrive : Barrier → Barrier × Bool
unfolding ◌-ℤ◌
arrive b =
    let left = b.count -ℤ pos 1 in
    if eq_ℤ left (pos 0)
    then (record b { count = b.thread_count_initial }, true)
    else (record b { count = left }, false)
