-- ===== src/Race/Handshake.antt =====
-- hare_tortoise.c: how the reporter wakes the randomizer, the turtle and the hare (threads 0, 1 and 2)
-- and waits for each of them, with a lock and two condition variables for each. The threads are
-- interleaved at these, in any order; `pthread_cond_wait` has no spurious wakeup.
pub mod Locks
pub mod LostWakeup
pub mod Refinement
pub mod Rounds
mod Tests
use decs.Base.Family.{put}
use decs.Base.Int.{◌+ℤ◌, pos}
use decs.Race.{State, init_race, Config, randomizer_action, turtle_action, hare_action}
use decs.Base.{ℕ, refl, if◌then◌else◌, ◌≡◌, suc, Bool, true, ◌==◌, ◌<◌, zero, false}

-- Where one of the three threads stands
pub data Pc : Type 0 where
  testing : Pc  -- at `while (no_winner)`
  acquiring : Pc  -- at `lock_acquire`
  holding : Pc  -- holds the lock, at `cond_wait`
  waiting : Pc  -- in `cond_wait`, without the lock
  woken : Pc  -- still in `cond_wait`, about to take the lock again
  acting : Pc  -- holds the lock, behind `cond_wait`
  signalling : Pc  -- at `cond_signal`
  releasing : Pc  -- at `lock_release`
  done : Pc

-- Where the reporter stands; the number is that of the thread it deals with.
pub data Reporter : Type 0 where
  at_test : Reporter  -- at `while (no_winner)`
  at_count : Reporter  -- at `clock_tick += 1`
  at_acquire at_signal at_wait : ℕ → Reporter
  asleep : ℕ → Reporter  -- in `cond_wait`, without the lock
  roused : ℕ → Reporter  -- still in `cond_wait`, about to take the lock again
  at_release : ℕ → Reporter
  at_check : Reporter  -- at `if (no_winner == 0)`
  last_acquire last_signal last_release : ℕ → Reporter
  at_end : Reporter

-- The shared variables, the three locks and the threads
pub record System : Type 0 where
  pub shared : State
  pub held : ℕ → Bool
  pub pc : ℕ → Pc
  pub reporter : Reporter

-- What `init` leaves to the reporter: each thread holds its lock and is about to wait.
unfoldable pub init : Config → System
unfolding init_race
init c = record { shared = init_race c; held = λ _. true; pc = λ _. holding; reporter = at_test }

-- What thread `i` does between its wakeup and its signal
unfoldable pub action : Config → ℕ → State → State
action c zero s = randomizer_action c s
action c (suc zero) s = turtle_action c s
action c (suc (suc i)) s = hare_action c s

unfoldable pub count_clock : State → State
count_clock s = record s { clock_tick = s.clock_tick +ℤ pos 1 }

-- A `cond_signal` to the threads that wait on a condition variable: at most one does.
unfoldable pub rouse_thread : Pc → Pc
rouse_thread waiting = woken
rouse_thread testing = testing
rouse_thread acquiring = acquiring
rouse_thread holding = holding
rouse_thread woken = woken
rouse_thread acting = acting
rouse_thread signalling = signalling
rouse_thread releasing = releasing
rouse_thread done = done

unfoldable pub rouse_reporter : ℕ → Reporter → Reporter
rouse_reporter i at_test = at_test
rouse_reporter i at_count = at_count
rouse_reporter i (at_acquire j) = at_acquire j
rouse_reporter i (at_signal j) = at_signal j
rouse_reporter i (at_wait j) = at_wait j
rouse_reporter i (asleep j) = if i == j then roused j else asleep j
rouse_reporter i (roused j) = roused j
rouse_reporter i (at_release j) = at_release j
rouse_reporter i at_check = at_check
rouse_reporter i (last_acquire j) = last_acquire j
rouse_reporter i (last_signal j) = last_signal j
rouse_reporter i (last_release j) = last_release j
rouse_reporter i at_end = at_end

-- behind the handshake with a thread, and behind the last signal to it
unfoldable pub after : ℕ → Reporter
after zero = at_acquire 1
after (suc zero) = at_acquire 2
after (suc (suc i)) = at_check

unfoldable pub after_last : ℕ → Reporter
after_last zero = last_acquire 1
after_last (suc zero) = last_acquire 2
after_last (suc (suc i)) = at_test

-- A step of thread `i`
pub data ThreadStep (c : Config) (s : System) (i : ℕ) : System → Type 0 where
  go_round :
      s.pc i ≡ testing
      → s.shared.no_winner ≡ true
      → ThreadStep c s i (record s { pc = put s.pc i acquiring })
  leave :
      s.pc i ≡ testing
      → s.shared.no_winner ≡ false
      → ThreadStep c s i (record s { pc = put s.pc i done })
  acquire :
      s.pc i ≡ acquiring
      → s.held i ≡ false
      → ThreadStep c s i (record s { held = put s.held i true; pc = put s.pc i holding })
  wait :
      s.pc i ≡ holding
      → ThreadStep c s i (record s { held = put s.held i false; pc = put s.pc i waiting })
  wake :
      s.pc i ≡ woken
      → s.held i ≡ false
      → ThreadStep c s i (record s { held = put s.held i true; pc = put s.pc i acting })
  act :
      s.pc i ≡ acting
      → ThreadStep c s i (record s { shared = action c i s.shared; pc = put s.pc i signalling })
  signal :
      s.pc i ≡ signalling
      → ThreadStep c s i
          (record s { reporter = rouse_reporter i s.reporter; pc = put s.pc i releasing })
  release :
      s.pc i ≡ releasing
      → ThreadStep c s i (record s { held = put s.held i false; pc = put s.pc i testing })

-- A step of the reporter
pub data ReporterStep (s : System) : System → Type 0 where
  start_round :
      s.reporter ≡ at_test
      → s.shared.no_winner ≡ true
      → ReporterStep s (record s { reporter = at_count })
  end_race :
      s.reporter ≡ at_test
      → s.shared.no_winner ≡ false
      → ReporterStep s (record s { reporter = at_end })
  count :
      s.reporter ≡ at_count
      → ReporterStep s (record s { shared = count_clock s.shared; reporter = at_acquire 0 })
  acquire :
      (i : ℕ)
      → s.reporter ≡ at_acquire i
      → s.held i ≡ false
      → ReporterStep s (record s { held = put s.held i true; reporter = at_signal i })
  signal :
      (i : ℕ)
      → s.reporter ≡ at_signal i
      → ReporterStep s (record s { pc = put s.pc i (rouse_thread (s.pc i)); reporter = at_wait i })
  wait :
      (i : ℕ)
      → s.reporter ≡ at_wait i
      → ReporterStep s (record s { held = put s.held i false; reporter = asleep i })
  wake :
      (i : ℕ)
      → s.reporter ≡ roused i
      → s.held i ≡ false
      → ReporterStep s (record s { held = put s.held i true; reporter = at_release i })
  release :
      (i : ℕ)
      → s.reporter ≡ at_release i
      → ReporterStep s (record s { held = put s.held i false; reporter = after i })
  next_round :
      s.reporter ≡ at_check
      → s.shared.no_winner ≡ true
      → ReporterStep s (record s { reporter = at_test })
  stop_threads :
      s.reporter ≡ at_check
      → s.shared.no_winner ≡ false
      → ReporterStep s (record s { reporter = last_acquire 0 })
  acquire_last :
      (i : ℕ)
      → s.reporter ≡ last_acquire i
      → s.held i ≡ false
      → ReporterStep s (record s { held = put s.held i true; reporter = last_signal i })
  signal_last :
      (i : ℕ)
      → s.reporter ≡ last_signal i
      → ReporterStep s
          (record s { pc = put s.pc i (rouse_thread (s.pc i)); reporter = last_release i })
  release_last :
      (i : ℕ)
      → s.reporter ≡ last_release i
      → ReporterStep s (record s { held = put s.held i false; reporter = after_last i })

-- What any sequence of steps of the three threads and the reporter leads to
pub data Reach (c : Config) : System → Type 0 where
  start : Reach c (init c)
  thread : {s t : System} (i : ℕ) → Reach c s → i < 3 → ThreadStep c s i t → Reach c t
  report : {s t : System} → Reach c s → ReporterStep s t → Reach c t
