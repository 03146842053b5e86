-- ===== src/Counters/Tests.antt =====
-- threads.c: a run with one thread.
use decs.Base.Family.{put}
use decs.Counters.{
  Reach, System, init, step, absent, start, at_lock, create, at_load, at_store, all_created,
  at_unlock, lock, gone, load, printed, store, unlock, join, print,
}
use decs.Counters.Total.{Reach-printed}
use decs.Base.{refl, ◌≡◌, false, arith}

abbrev one_end : System
one_end = record {
  counter = 1;
  held = false;
  pc =
      put (put (put (put (put (λ _. absent) 0 at_lock) 0 at_load) 0 (at_store 0)) 0 at_unlock) 0
        gone;
  main = printed 1;
}

-- `main` creates the thread, which increments the counter, joins it and prints.
one_run : Reach 1 one_end
unfolding init
one_run =
    let s1 : Reach 1 _ = step start (create 0 refl (omega arith)) in
    let s2 : Reach 1 _ = step s1 (all_created 1 refl (omega arith)) in
    let s3 : Reach 1 _ = step s2 (lock 0 (omega arith) refl refl) in
    let s4 : Reach 1 _ = step s3 (load 0 (omega arith) refl) in
    let s5 : Reach 1 _ = step s4 (store 0 0 (omega arith) refl) in
    let s6 : Reach 1 _ = step s5 (unlock 0 (omega arith) refl) in
    let s7 : Reach 1 _ = step s6 (join 0 refl (omega arith) refl) in
    step s7 (print 1 refl (omega arith))

Reach-printed_example : one_end.counter ≡ 1
Reach-printed_example = Reach-printed 1 one_end.counter one_end one_run refl
