-- ===== src/Barrier/Mutex.antt =====
-- barrier.c: which thread holds the mutex of the barrier, and that the threads never come to a standstill.
use decs.Barrier.Rounds.{some_thread_runs}
use decs.Barrier.{arrive}
use decs.Base.Family.{count, one_if, count_none, count-put, count_passes, count_positive, count-map}
use decs.Barrier.Threads.{
  Pc, System, wake, Step, Reach, inside, outside, call, is_waiting, leaving, entering, later,
  broadcast, lock, waiting, start, woken, wait, unlock, relock,
}
use decs.Base.{ℕ, refl, Bool, ◌≡◌, ◌<◌, true, false, Bool-cases, arith, inl, inr, ◌+◌}

-- The thread stands between the return of `pthread_mutex_lock` and `pthread_mutex_unlock`, and does
-- not wait.
abbrev pub holds : Pc → Bool
holds (inside d) = true
holds (leaving d) = true
holds (outside d) = false
holds (entering d) = false
holds (waiting d) = false
holds (woken d) = false

-- The mutex is held exactly while a thread holds it, and then one alone does.
abbrev pub IsLocked : ℕ → System → Type 0
IsLocked n s = count holds n s.pc ≡ one_if s.held

holds-wake : (p : Pc) → holds (wake p) ≡ holds p
holds-wake (outside d) = refl
holds-wake (entering d) = refl
holds-wake (inside d) = refl
holds-wake (waiting d) = refl
holds-wake (woken d) = refl
holds-wake (leaving d) = refl

Step-IsLocked : {n : ℕ} {s t : System} → IsLocked n s → Step n s t → IsLocked n t
Step-IsLocked {n} {s} locked (call i d lt at) =
    ground (arith, count-put holds n s.pc i (entering d) lt)
Step-IsLocked {n} {s} locked (lock i d lt at is_free) =
    ground (arith, count-put holds n s.pc i (inside d) lt)
Step-IsLocked {n} {s} locked (wait i d lt at early) = ground (
  arith,
  count-put holds n s.pc i (waiting d) lt,
  count_positive holds n s.pc i lt (ground arith),
)
Step-IsLocked {n} {s} locked (broadcast i d lt at last) = ground (
  arith,
  count-put holds n (λ j. wake (s.pc j)) i (leaving d) lt,
  count-map holds n s.pc (λ j. wake (s.pc j)) (λ j. holds-wake (s.pc j)),
  holds-wake (s.pc i),
  count_positive holds n s.pc i lt (ground arith),
)
Step-IsLocked {n} {s} locked (relock i d lt at is_free) =
    ground (arith, count-put holds n s.pc i (leaving d) lt)
Step-IsLocked {n} {s} locked (unlock i d lt at) = ground (
  arith,
  count-put holds n s.pc i (outside (d + 1)) lt,
  count_positive holds n s.pc i lt (ground arith),
)

pub Reach-IsLocked : {n k : ℕ} {s : System} → Reach n k s → IsLocked n s
Reach-IsLocked {n} start = count_none holds n _ (λ i lt. refl)
Reach-IsLocked (later r st) = Step-IsLocked (Reach-IsLocked r) st

-- A thread that holds the mutex can take a step.
holder_steps :
    {n : ℕ} {s : System} (i : ℕ) → i < n → holds (s.pc i) ≡ true → (t : System) × Step n s t
holder_steps {n} {s} i lt h = go (s.pc i) refl h
  where
    go : (p : Pc) → s.pc i ≡ p → holds p ≡ true → (t : System) × Step n s t
    go (inside d) at h = elim (Bool-cases (arrive s.barrier).1) [
      | inl last ↦ (_, broadcast i d lt at last)
      | inr early ↦ (_, wait i d lt at early)
    ]
    go (leaving d) at h = (_, unlock i d lt at)
    go (outside d) at h = (_, call i d lt at)
    go (entering d) at h = absurd (ground arith)
    go (waiting d) at h = absurd (ground arith)
    go (woken d) at h = absurd (ground arith)

-- With the mutex free, a thread that does not wait can take a step.
runner_steps :
    {n : ℕ} {s : System} (i : ℕ)
    → i < n
    → s.held ≡ false
    → holds (s.pc i) ≡ false
    → is_waiting (s.pc i) ≡ false
    → (t : System) × Step n s t
runner_steps {n} {s} i lt is_free h w = go (s.pc i) refl h w
  where
    go : (p : Pc) → s.pc i ≡ p → holds p ≡ false → is_waiting p ≡ false → (t : System) × Step n s t
    go (outside d) at h w = (_, call i d lt at)
    go (entering d) at h w = (_, lock i d lt at is_free)
    go (woken d) at h w = (_, relock i d lt at is_free)
    go (inside d) at h w = absurd (ground arith)
    go (leaving d) at h w = absurd (ground arith)
    go (waiting d) at h w = absurd (ground arith)

-- Every state that `n` threads reach over a barrier initialised for `n` has a next step: the barrier
-- never deadlocks.
pub barrier_never_stuck : {n : ℕ} {s : System} → 0 < n → Reach n n s → (t : System) × Step n s t
barrier_never_stuck {n} {s} some r =
    let locked = Reach-IsLocked r in
    elim (Bool-cases s.held) [
      | inl held ↦ let (i, lt, h) = count_passes holds n s.pc (ground arith) in holder_steps i lt h
      | inr is_free ↦
          let (i, lt, w) = some_thread_runs some r in
          elim (Bool-cases (holds (s.pc i))) [
            | inl h ↦ holder_steps i lt h
            | inr h ↦ runner_steps i lt is_free h w
          ]
    ]
