-- ===== src/Barrier/Tests.antt =====
-- The theorems on the barrier at a run of two threads.
use decs.Barrier.Spurious.{spurious_passes}
use decs.Barrier.Rounds.{returned-le-arrived}
use decs.Base.Int.{pos}
use decs.Barrier.Mutex.{barrier_never_stuck}
use decs.Barrier.Threads.{
  returned, System, arrived, Step, ReachSpurious, Reach, later, start, call, lock, wait, broadcast,
  unlock, relock,
}
use decs.Barrier.{arrive, barrier_init}
use decs.Base.{refl, ◌≡◌, ◌≤◌, arith}

-- Thread 0 waits, thread 1 arrives last and returns, and thread 0 has taken the mutex again.
one_round : (s : System) × Reach 2 2 s
unfolding arrive barrier_init
one_round = (
  _,
  later
      (later
        (later
          (later
            (later
              (later
                (later (later start (call 0 0 (omega arith) refl))
                  (lock 0 0 (omega arith) refl refl))
                (wait 0 0 (omega arith) refl refl))
              (call 1 0 (omega arith) refl))
            (lock 1 0 (omega arith) refl refl))
          (broadcast 1 0 (omega arith) refl refl))
        (unlock 1 0 (omega arith) refl))
      (relock 0 0 (omega arith) refl refl),
)

one_round_counts :
    (returned (one_round.0.pc 1) ≡ 1)
    × (arrived (one_round.0.pc 0) ≡ 1)
    × (one_round.0.barrier.count ≡ pos 2)
unfolding one_round
one_round_counts = (refl, refl, refl)

returned-le-arrived_example : returned (one_round.0.pc 1) ≤ arrived (one_round.0.pc 0)
returned-le-arrived_example =
    returned-le-arrived (omega arith) one_round.1 1 0 (omega arith) (omega arith)

barrier_never_stuck_example : (t : System) × Step 2 one_round.0 t
barrier_never_stuck_example = barrier_never_stuck (omega arith) one_round.1

spurious_passes_example :
    (s : System) × ReachSpurious 2 2 s × (returned (s.pc 0) ≡ 1) × (arrived (s.pc 1) ≡ 0)
spurious_passes_example = spurious_passes 2 (omega arith)
