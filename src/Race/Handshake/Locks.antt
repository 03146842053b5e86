-- ===== src/Race/Handshake/Locks.antt =====
-- hare_tortoise.c, the handshakes: who holds the lock of a thread.
use decs.Race.{Config}
use decs.Race.Handshake.{
  Pc, Reporter, System, init, rouse_reporter, rouse_thread, after, after_last, ThreadStep,
  at_acquire, at_signal, testing, acquiring, at_wait, holding, asleep, waiting, roused, woken,
  at_release, acting, last_acquire, signalling, last_signal, releasing, last_release, done, at_test,
  at_count, at_check, at_end, ReporterStep, Reach, thread, report, start,
}
use decs.Base.{ℕ, refl, Bool, ◌≡◌, false, ◌||◌, arith, true, ◌&&◌, suc, zero, ◌==◌}

unfoldable pub thread_holds : Pc → Bool
thread_holds testing = false
thread_holds acquiring = false
thread_holds holding = true
thread_holds waiting = false
thread_holds woken = false
thread_holds acting = true
thread_holds signalling = true
thread_holds releasing = true
thread_holds done = false

unfoldable pub reporter_holds : ℕ → Reporter → Bool
reporter_holds j at_test = false
reporter_holds j at_count = false
reporter_holds j (at_acquire i) = false
reporter_holds j (at_signal i) = i == j
reporter_holds j (at_wait i) = i == j
reporter_holds j (asleep i) = false
reporter_holds j (roused i) = false
reporter_holds j (at_release i) = i == j
reporter_holds j at_check = false
reporter_holds j (last_acquire i) = false
reporter_holds j (last_signal i) = i == j
reporter_holds j (last_release i) = i == j
reporter_holds j at_end = false

-- A lock is held exactly while the thread or the reporter holds it, and never by both.
pub record IsLocked (s : System) : Type 0 where
  pub known : (j : ℕ) → s.held j ≡ (thread_holds (s.pc j) || reporter_holds j s.reporter)
  pub apart : (j : ℕ) → (thread_holds (s.pc j) && reporter_holds j s.reporter) ≡ false

pub init-IsLocked : (c : Config) → IsLocked (init c)
unfolding init thread_holds reporter_holds
init-IsLocked c = record { known = λ j. refl; apart = λ j. refl }

rouse_reporter-holds :
    (i j : ℕ) (r : Reporter) → reporter_holds j (rouse_reporter i r) ≡ reporter_holds j r
unfolding rouse_reporter reporter_holds
rouse_reporter-holds i j r = ground arith

rouse_thread-holds : (p : Pc) → thread_holds (rouse_thread p) ≡ thread_holds p
unfolding rouse_thread thread_holds
rouse_thread-holds p = ground arith

after-holds : (i j : ℕ) → reporter_holds j (after i) ≡ false
unfolding after reporter_holds
after-holds zero j = refl
after-holds (suc zero) j = refl
after-holds (suc (suc i)) j = refl

after_last-holds : (i j : ℕ) → reporter_holds j (after_last i) ≡ false
unfolding after_last reporter_holds
after_last-holds zero j = refl
after_last-holds (suc zero) j = refl
after_last-holds (suc (suc i)) j = refl

pub ThreadStep-IsLocked :
    {c : Config} {s : System} {i : ℕ} {t : System} → ThreadStep c s i t → IsLocked s → IsLocked t
unfolding thread_holds
ThreadStep-IsLocked (ThreadStep.go_round e f) v = record {
  known = λ j. ground (arith, v.known j, v.apart j, e);
  apart = λ j. ground (arith, v.known j, v.apart j, e);
}
ThreadStep-IsLocked (ThreadStep.leave e f) v = record {
  known = λ j. ground (arith, v.known j, v.apart j, e);
  apart = λ j. ground (arith, v.known j, v.apart j, e);
}
ThreadStep-IsLocked {i = i} (ThreadStep.acquire e f) v = record {
  known = λ j. ground (arith, v.known j, v.known i, e);
  apart = λ j. ground (arith, v.known j, v.apart j, v.known i, e);
}
ThreadStep-IsLocked {i = i} (ThreadStep.wait e) v = record {
  known = λ j. ground (arith, v.known j, v.apart i, e);
  apart = λ j. ground (arith, v.apart j, e);
}
ThreadStep-IsLocked {i = i} (ThreadStep.wake e f) v = record {
  known = λ j. ground (arith, v.known j, v.known i, e);
  apart = λ j. ground (arith, v.known j, v.apart j, v.known i, e);
}
ThreadStep-IsLocked (ThreadStep.act e) v = record {
  known = λ j. ground (arith, v.known j, v.apart j, e);
  apart = λ j. ground (arith, v.known j, v.apart j, e);
}
ThreadStep-IsLocked {s = s} {i = i} (ThreadStep.signal e) v = record {
  known = λ j. ground (arith, v.known j, v.apart j, e, rouse_reporter-holds i j s.reporter);
  apart = λ j. ground (arith, v.known j, v.apart j, e, rouse_reporter-holds i j s.reporter);
}
ThreadStep-IsLocked {i = i} (ThreadStep.release e) v = record {
  known = λ j. ground (arith, v.known j, v.apart i, e);
  apart = λ j. ground (arith, v.apart j, e);
}

pub ReporterStep-IsLocked : {s t : System} → ReporterStep s t → IsLocked s → IsLocked t
unfolding reporter_holds
ReporterStep-IsLocked (ReporterStep.start_round e f) v = record {
  known = λ j. ground (arith, v.known j, e);
  apart = λ j. ground (arith, v.apart j, e);
}
ReporterStep-IsLocked (ReporterStep.end_race e f) v = record {
  known = λ j. ground (arith, v.known j, e);
  apart = λ j. ground (arith, v.apart j, e);
}
ReporterStep-IsLocked (ReporterStep.count e) v = record {
  known = λ j. ground (arith, v.known j, e);
  apart = λ j. ground (arith, v.apart j, e);
}
ReporterStep-IsLocked (ReporterStep.acquire i e f) v = record {
  known = λ j. ground (arith, v.known j, e);
  apart = λ j. ground (arith, v.known j, v.known i, e);
}
ReporterStep-IsLocked {s = s} (ReporterStep.signal i e) v = record {
  known = λ j. ground (arith, v.known j, e, rouse_thread-holds (s.pc i));
  apart = λ j. ground (arith, v.apart j, e, rouse_thread-holds (s.pc i));
}
ReporterStep-IsLocked (ReporterStep.wait i e) v = record {
  known = λ j. ground (arith, v.known j, v.apart j, e);
  apart = λ j. ground (arith, v.apart j, e);
}
ReporterStep-IsLocked (ReporterStep.wake i e f) v = record {
  known = λ j. ground (arith, v.known j, e);
  apart = λ j. ground (arith, v.known j, v.known i, e);
}
ReporterStep-IsLocked (ReporterStep.release i e) v = record {
  known = λ j. ground (arith, v.known j, v.apart j, e, after-holds i j);
  apart = λ j. ground (arith, v.apart j, e, after-holds i j);
}
ReporterStep-IsLocked (ReporterStep.next_round e f) v = record {
  known = λ j. ground (arith, v.known j, e);
  apart = λ j. ground (arith, v.apart j, e);
}
ReporterStep-IsLocked (ReporterStep.stop_threads e f) v = record {
  known = λ j. ground (arith, v.known j, e);
  apart = λ j. ground (arith, v.apart j, e);
}
ReporterStep-IsLocked (ReporterStep.acquire_last i e f) v = record {
  known = λ j. ground (arith, v.known j, e);
  apart = λ j. ground (arith, v.known j, v.known i, e);
}
ReporterStep-IsLocked {s = s} (ReporterStep.signal_last i e) v = record {
  known = λ j. ground (arith, v.known j, e, rouse_thread-holds (s.pc i));
  apart = λ j. ground (arith, v.apart j, e, rouse_thread-holds (s.pc i));
}
ReporterStep-IsLocked (ReporterStep.release_last i e) v = record {
  known = λ j. ground (arith, v.known j, v.apart j, e, after_last-holds i j);
  apart = λ j. ground (arith, v.apart j, e, after_last-holds i j);
}

pub Reach-IsLocked : {c : Config} {s : System} → Reach c s → IsLocked s
Reach-IsLocked {c} start = init-IsLocked c
Reach-IsLocked (thread i r lt step) = ThreadStep-IsLocked step (Reach-IsLocked r)
Reach-IsLocked (report r step) = ReporterStep-IsLocked step (Reach-IsLocked r)
