-- ===== src/Barrier/Spurious.antt =====
-- barrier.c waits outside a loop, so a wakeup without a broadcast lets a thread through.
use decs.Barrier.{barrier_init, arrive}
use mathlib.Core.Path.{fun_ext}
use decs.Base.Family.{put}
use decs.Barrier.Threads.{
  Pc, System, outside, ReachSpurious, StepSpurious, later, waiting, ordinary, call, lock, wait,
  inside, entering, Step, leaving, returned, woken, arrived, spurious, relock, unlock,
}
use decs.Base.Int.{ℤ, pos}
use decs.Base.{ℕ, Bool, ◌≡◌, ◌<◌, arith, false, ◌-◌, true, refl}

-- the states of thread 0 on its way through `barrier_wait` alone
abbrev alone : ℕ → ℤ → Bool → Pc → System
alone n left held p = record {
  barrier = record { thread_count_initial = pos n; count = left };
  held = held;
  pc = put (λ _. outside 0) 0 p;
}

put-put {ℓ} : {A : Type ℓ} (f : ℕ → A) (i : ℕ) (a b : A) → put (put f i a) i b ≡ put f i b
put-put f i a b = fun_ext (λ j. ground arith)

put_same {ℓ} : {A : Type ℓ} (a : A) (i : ℕ) → put (λ _. a) i a ≡ (λ _. a)
put_same a i = fun_ext (λ j. ground arith)

module _ (n : ℕ) (several : 1 < n) where
  -- from one state of thread 0 to the next
  step_alone :
      (p p' : Pc) {left left' : ℤ} {held held' : Bool}
      → ReachSpurious n n (alone n left held p)
      → StepSpurious n (alone n left held p) (record {
        barrier = record { thread_count_initial = pos n; count = left' };
        held = held';
        pc = put (put (λ _. outside 0) 0 p) 0 p';
      })
      → ReachSpurious n n (alone n left' held' p')
  step_alone p p' r st = rw (← put-put (λ _. outside 0) 0 p p') (later r st)

  begun : ReachSpurious n n (alone n (pos n) false (outside 0))
  unfolding barrier_init
  begun = rw (put_same (outside 0) 0) ReachSpurious.start

  arrives_early :
      arrive (record { thread_count_initial = pos n; count = pos n })
      ≡ (record { thread_count_initial = pos n; count = pos (n - 1) }, false)
  unfolding arrive
  arrives_early = ground arith

  first : 0 < n
  first = omega arith

  locked : ReachSpurious n n (alone n (pos n) true (inside 0))
  locked =
      step_alone (entering 0) (inside 0)
        (step_alone (outside 0) (entering 0) begun (ordinary (call 0 0 first refl)))
        (ordinary (lock 0 0 first refl refl))

  waits : ReachSpurious n n (alone n (pos (n - 1)) false (waiting 0))
  waits =
      let st : Step n (alone n (pos n) true (inside 0)) (record {
        barrier = (arrive (record { thread_count_initial = pos n; count = pos n })).0;
        held = false;
        pc = put (put (λ _. outside 0) 0 (inside 0)) 0 (waiting 0);
      }) =
        wait 0 0 first refl (rw arrives_early) in
      step_alone (inside 0) (waiting 0) locked (rw arrives_early at (ordinary st))

  passed : ReachSpurious n n (alone n (pos (n - 1)) false (outside 1))
  passed =
      step_alone (leaving 0) (outside 1)
        (step_alone (woken 0) (leaving 0)
          (step_alone (waiting 0) (woken 0) waits (spurious 0 0 first refl))
          (ordinary (relock 0 0 first refl refl)))
        (ordinary (unlock 0 0 first refl))

  -- With a wakeup that no broadcast causes, which POSIX allows, thread 0 of any number of threads
  -- above 1 can return from its first call of `barrier_wait` while thread 1 has arrived at none: the
  -- barrier does not hold the threads together.
  pub spurious_passes :
      (s : System) × ReachSpurious n n s × (returned (s.pc 0) ≡ 1) × (arrived (s.pc 1) ≡ 0)
  spurious_passes = (alone n (pos (n - 1)) false (outside 1), passed, refl, refl)
