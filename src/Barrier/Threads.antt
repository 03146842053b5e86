-- ===== src/Barrier/Threads.antt =====
-- Threads that call `barrier_wait` on one barrier, interleaved at the mutex and the condition
-- variable.
use decs.Base.Int.{pos}
use decs.Base.Family.{put}
use decs.Barrier.{Barrier, barrier_init, arrive}
use decs.Base.{ℕ, ◌+◌, Bool, ◌<◌, true, ◌≡◌, false}

-- Where a thread stands; the number counts the calls of `barrier_wait` that have returned.
pub data Pc : Type 0 where
  outside : ℕ → Pc  -- not in `barrier_wait`
  entering : ℕ → Pc  -- at `pthread_mutex_lock`
  inside : ℕ → Pc  -- holds the mutex, before the counter is changed
  waiting : ℕ → Pc  -- in `pthread_cond_wait`, without the mutex
  woken : ℕ → Pc  -- still in `pthread_cond_wait`, about to take the mutex again
  leaving : ℕ → Pc  -- holds the mutex, before `pthread_mutex_unlock`

-- The calls that have returned.
abbrev pub returned : Pc → ℕ
returned (outside d) = d
returned (entering d) = d
returned (inside d) = d
returned (waiting d) = d
returned (woken d) = d
returned (leaving d) = d

-- The calls that have changed the counter.
abbrev pub arrived : Pc → ℕ
arrived (outside d) = d
arrived (entering d) = d
arrived (inside d) = d
arrived (waiting d) = d + 1
arrived (woken d) = d + 1
arrived (leaving d) = d + 1

abbrev pub is_waiting : Pc → Bool
is_waiting (waiting d) = true
is_waiting (outside d) = false
is_waiting (entering d) = false
is_waiting (inside d) = false
is_waiting (woken d) = false
is_waiting (leaving d) = false

-- `pthread_cond_broadcast`: each thread that waits is woken.
abbrev pub wake : Pc → Pc
wake (waiting d) = woken d
wake (outside d) = outside d
wake (entering d) = entering d
wake (inside d) = inside d
wake (woken d) = woken d
wake (leaving d) = leaving d

-- The barrier, whether its mutex is held, and the threads.
pub record System : Type 0 where
  pub barrier : Barrier
  pub held : Bool
  pub pc : ℕ → Pc

-- `barrier_init` for `k` threads, with no thread in `barrier_wait`
abbrev pub init : ℕ → System
init k = record { barrier = barrier_init (pos k); held = false; pc = λ _. outside 0 }

abbrev pub move : System → ℕ → Pc → System
move s i p = record s { pc = put s.pc i p }

-- A step of thread `i` of `n` in `barrier_wait`.
pub data Step (n : ℕ) (s : System) : System → Type 0 where
  call : (i d : ℕ) → i < n → s.pc i ≡ outside d → Step n s (move s i (entering d))
  lock :
      (i d : ℕ)
      → i < n
      → s.pc i ≡ entering d
      → s.held ≡ false
      → Step n s (record s { held = true; pc = put s.pc i (inside d) })
  wait :
      (i d : ℕ)
      → i < n
      → s.pc i ≡ inside d
      → (arrive s.barrier).1 ≡ false
      → Step n s
          (record { barrier = (arrive s.barrier).0; held = false; pc = put s.pc i (waiting d) })
  broadcast :
      (i d : ℕ)
      → i < n
      → s.pc i ≡ inside d
      → (arrive s.barrier).1 ≡ true
      → Step n s (record {
        barrier = (arrive s.barrier).0;
        held = true;
        pc = put (λ j. wake (s.pc j)) i (leaving d);
      })
  relock :
      (i d : ℕ)
      → i < n
      → s.pc i ≡ woken d
      → s.held ≡ false
      → Step n s (record s { held = true; pc = put s.pc i (leaving d) })
  unlock :
      (i d : ℕ)
      → i < n
      → s.pc i ≡ leaving d
      → Step n s (record s { held = false; pc = put s.pc i (outside (d + 1)) })

pub data Reach (n k : ℕ) : System → Type 0 where
  start : Reach n k (init k)
  later : {s t : System} → Reach n k s → Step n s t → Reach n k t

-- POSIX lets `pthread_cond_wait` return without a broadcast.
pub data StepSpurious (n : ℕ) (s : System) : System → Type 0 where
  ordinary : {t : System} → Step n s t → StepSpurious n s t
  spurious : (i d : ℕ) → i < n → s.pc i ≡ waiting d → StepSpurious n s (move s i (woken d))

pub data ReachSpurious (n k : ℕ) : System → Type 0 where
  start : ReachSpurious n k (init k)
  later : {s t : System} → ReachSpurious n k s → StepSpurious n s t → ReachSpurious n k t
