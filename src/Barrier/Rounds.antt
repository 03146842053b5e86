-- ===== src/Barrier/Rounds.antt =====
-- barrier.c without spurious wakeups: the rounds of the barrier, and that no thread runs ahead.
use decs.Base.Family.{count, put, count-put, count_none, count_fails, count_others}
use decs.Base.Int.{pos}
use decs.Barrier.{arrive, Barrier, barrier_init}
use decs.Barrier.Threads.{
  Pc, System, outside, inside, is_waiting, entering, waiting, woken, wake, leaving, Step, Reach,
  returned, init, call, later, arrived, lock, start, wait, broadcast, relock, unlock,
}
use decs.Base.{
  ℕ, refl, ◌≡◌, ◌<◌, Bool, ◌-◌, true, false, arith, ◌+◌, ap, ◌≢◌, Bool-cases, ℕ_discrete, ◌≤◌, inl,
  inr, ◌∙◌,
}

-- In round `g` a thread has not yet arrived, or waits, or still has to return from round `g - 1`.
abbrev pub InRound : ℕ → Pc → Type 0
InRound g (outside d) = d ≡ g
InRound g (entering d) = d ≡ g
InRound g (inside d) = d ≡ g
InRound g (waiting d) = d ≡ g
InRound g (woken d) = d + 1 ≡ g
InRound g (leaving d) = d + 1 ≡ g

-- The threads are in round `g`; the counter is the number of threads that do not wait.
pub record Inv (n g : ℕ) (s : System) : Type 0 where
  pub initial : s.barrier.thread_count_initial ≡ pos n
  pub counter : s.barrier.count ≡ pos (n - count is_waiting n s.pc)
  pub some_runs : count is_waiting n s.pc < n
  pub round : (i : ℕ) → i < n → InRound g (s.pc i)

arrive_last :
    (b : Barrier) (c : ℕ)
    → b.count ≡ pos c
    → (arrive b).1 ≡ true
    → (c ≡ 1) × ((arrive b).0 ≡ record b { count = b.thread_count_initial })
unfolding arrive
arrive_last b c e last = (ground arith, ground arith)

arrive_early :
    (b : Barrier) (c : ℕ)
    → b.count ≡ pos c
    → 0 < c
    → (arrive b).1 ≡ false
    → (1 < c) × ((arrive b).0 ≡ record b { count = pos (c - 1) })
unfolding arrive
arrive_early b c e some early = (ground arith, ground arith)

is_waiting-wake : (p : Pc) → is_waiting (wake p) ≡ false
is_waiting-wake (waiting e) = refl
is_waiting-wake (outside e) = refl
is_waiting-wake (entering e) = refl
is_waiting-wake (inside e) = refl
is_waiting-wake (woken e) = refl
is_waiting-wake (leaving e) = refl

module _ {n g : ℕ} {s : System} (inv : Inv n g s) (i : ℕ) (lt : i < n) where
  -- A step of thread `i` alone that leaves the counter alone and neither begins nor ends a wait.
  move-Inv :
      (p : Pc) (held : Bool)
      → is_waiting (s.pc i) ≡ false
      → is_waiting p ≡ false
      → InRound g p
      → Inv n g (record s { held = held; pc = put s.pc i p })
  move-Inv p held was is fits =
      let same : count is_waiting n (put s.pc i p) ≡ count is_waiting n s.pc =
        ground (arith, count-put is_waiting n s.pc i p lt) in
      record {
        initial = inv.initial;
        counter = rw same inv.counter;
        some_runs = rw same inv.some_runs;
        round = λ j ltj. ground (arith, inv.round j ltj);
      }

  wait-Inv :
      (d : ℕ)
      → s.pc i ≡ inside d
      → (arrive s.barrier).1 ≡ false
      → Inv n g
          (record { barrier = (arrive s.barrier).0; held = false; pc = put s.pc i (waiting d) })
  wait-Inv d at early =
      let (more, is) =
        arrive_early s.barrier (n - count is_waiting n s.pc) inv.counter
          (omega (arith, inv.some_runs)) early in
      let next : count is_waiting n (put s.pc i (waiting d)) ≡ count is_waiting n s.pc + 1 =
        ground (arith, count-put is_waiting n s.pc i (waiting d) lt) in
      record {
        initial = rw is inv.initial;
        counter = rw (is, next) (ap pos (omega (arith, more)));
        some_runs = rw next (omega (arith, more));
        round = λ j ltj. ground (arith, inv.round j ltj, inv.round i lt);
      }

  wake-round : (j : ℕ) → j < n → is_waiting (s.pc j) ≡ true → InRound (g + 1) (wake (s.pc j))
  wake-round j ltj w = go (s.pc j) (inv.round j ltj) w
    where
      go : (p : Pc) → InRound g p → is_waiting p ≡ true → InRound (g + 1) (wake p)
      go (waiting e) r w = omega arith
      go (outside e) r w = cc
      go (entering e) r w = cc
      go (inside e) r w = cc
      go (woken e) r w = cc
      go (leaving e) r w = cc

  -- When the last thread arrives all the others wait.
  others_wait :
      (d j : ℕ)
      → s.pc i ≡ inside d
      → (arrive s.barrier).1 ≡ true
      → j < n
      → i ≢ j
      → is_waiting (s.pc j) ≡ true
  others_wait d j at last ltj apart =
      let (one, is) = arrive_last s.barrier (n - count is_waiting n s.pc) inv.counter last in
      let all : count is_waiting n s.pc + 1 ≡ n = omega (arith, one) in
      elim (Bool-cases (is_waiting (s.pc j))) [
        | inl waits ↦ waits
        | inr runs ↦
            absurd (apart (count_others is_waiting n s.pc i j all lt ltj (ground arith) runs))
      ]

  broadcast-Inv :
      (d : ℕ)
      → s.pc i ≡ inside d
      → (arrive s.barrier).1 ≡ true
      → Inv n (g + 1) (record {
        barrier = (arrive s.barrier).0;
        held = true;
        pc = put (λ j. wake (s.pc j)) i (leaving d);
      })
  broadcast-Inv d at last =
      let (one, is) = arrive_last s.barrier (n - count is_waiting n s.pc) inv.counter last in
      let quiet : count is_waiting n (put (λ j. wake (s.pc j)) i (leaving d)) ≡ 0 =
        count_none is_waiting n _ (λ j ltj. ground (arith, is_waiting-wake (s.pc j))) in
      record {
        initial = rw is inv.initial;
        counter = rw (is, quiet) (inv.initial ∙ ap pos (omega arith));
        some_runs = rw quiet (omega (arith, lt));
        round = λ j ltj. elim (ℕ_discrete i j) [
          | yes here ↦ ground (arith, inv.round i lt)
          | no apart ↦ ground (arith, wake-round j ltj (others_wait d j at last ltj apart))
        ];
      }

-- A step of the threads keeps the invariant, in the same round or in the next.
pub Step-Inv : {n g : ℕ} {s t : System} → Inv n g s → Step n s t → (g' : ℕ) × Inv n g' t
Step-Inv {g} {s} inv (call i d lt at) =
    (g, move-Inv inv i lt (entering d) s.held (ground arith) refl (ground (arith, inv.round i lt)))
Step-Inv {g} inv (lock i d lt at is_free) =
    (g, move-Inv inv i lt (inside d) true (ground arith) refl (ground (arith, inv.round i lt)))
Step-Inv {g} inv (wait i d lt at early) = (g, wait-Inv inv i lt d at early)
Step-Inv {g} inv (broadcast i d lt at last) = (g + 1, broadcast-Inv inv i lt d at last)
Step-Inv {g} inv (relock i d lt at is_free) =
    (g, move-Inv inv i lt (leaving d) true (ground arith) refl (ground (arith, inv.round i lt)))
Step-Inv {g} inv (unlock i d lt at) = (
  g,
  move-Inv inv i lt (outside (d + 1)) false (ground arith) refl (ground (arith, inv.round i lt)),
)

init-Inv : (n : ℕ) → 0 < n → Inv n 0 (init n)
unfolding barrier_init
init-Inv n some =
    let quiet : count is_waiting n (λ _. outside 0) ≡ 0 =
      count_none is_waiting n _ (λ i lt. refl) in
    record {
      initial = refl;
      counter = rw quiet (ap pos (omega arith));
      some_runs = rw quiet some;
      round = λ i lt. refl;
    }

pub Reach-Inv : {n : ℕ} {s : System} → 0 < n → Reach n n s → (g : ℕ) × Inv n g s
Reach-Inv {n} some start = (0, init-Inv n some)
Reach-Inv some (later r st) = let (g, inv) = Reach-Inv some r in Step-Inv inv st

InRound-returned : (g : ℕ) (p : Pc) → InRound g p → (returned p ≤ g) × (g ≤ arrived p)
InRound-returned g (outside d) r = omega arith
InRound-returned g (entering d) r = omega arith
InRound-returned g (inside d) r = omega arith
InRound-returned g (waiting d) r = omega arith
InRound-returned g (woken d) r = omega arith
InRound-returned g (leaving d) r = omega arith

-- Of `n` threads that share a barrier initialised for `n`, with no spurious wakeup and in any
-- interleaving, no thread has returned from more calls of `barrier_wait` than any thread has arrived
-- at: nobody gets through the barrier before all have come to it, in every round.
pub returned-le-arrived :
    {n : ℕ} {s : System}
    → 0 < n
    → Reach n n s
    → (i j : ℕ) → i < n
    → j < n
    → returned (s.pc i) ≤ arrived (s.pc j)
returned-le-arrived {s} some r i j lti ltj =
    let (g, inv) = Reach-Inv some r in
    omega (
      arith,
      InRound-returned g (s.pc i) (inv.round i lti),
      InRound-returned g (s.pc j) (inv.round j ltj),
    )

-- In every reachable state some thread does not wait on the condition variable: no wakeup is lost so
-- that all the threads wait for ever.
pub some_thread_runs :
    {n : ℕ} {s : System} → 0 < n → Reach n n s → (i : ℕ) × (i < n) × (is_waiting (s.pc i) ≡ false)
some_thread_runs {n} {s} some r =
    let (g, inv) = Reach-Inv some r in count_fails is_waiting n s.pc inv.some_runs
