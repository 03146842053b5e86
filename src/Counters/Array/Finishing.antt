-- ===== src/Counters/Array/Finishing.antt =====
-- nlocks.c: a sequence of steps that comes to the end.
use mathlib.Core.Path.{subst}
use decs.Base.Family.{put}
use decs.Base.{ℕ, refl, ◌≡◌, ◌<◌, arith, false, ◌∙◌, ◌+◌, if◌then◌else◌, ◌≤◌, suc, ltb, ap, zero}
use decs.Counters.Array.{
  Pc, System, Main, absent, at_lock, gone, creating, joining, main_lock, printed, threads, rounds,
  init, next_round, next_entry, ThreadStep, MainStep, Reach, start, thread, by_main,
}

-- A reachable state with no lock held, with the threads at `p` and `main` at `m`
record At (p : ℕ → Pc) (m : Main) : Type 0 where
  state : System
  reach : Reach state
  threads_at : (i : ℕ) → state.pc i ≡ p i
  main_at : state.main ≡ m
  free : (i : ℕ) → state.held i ≡ false

At-map : {p q : ℕ → Pc} {m : Main} → ((i : ℕ) → p i ≡ q i) → At p m → At q m
At-map h a = record {
  state = a.state;
  reach = a.reach;
  threads_at = λ i. a.threads_at i ∙ h i;
  main_at = a.main_at;
  free = a.free;
}

one_round :
    {p : ℕ → Pc} {m : Main} (j k : ℕ)
    → j < threads
    → p j ≡ at_lock k
    → At p m
    → At (put p j (next_round k)) m
one_round j k lt e a =
    let r1 = thread j a.reach lt (ThreadStep.lock k (a.threads_at j ∙ e) (a.free j)) in
    let r2 = thread j r1 lt (ThreadStep.load k (ground arith)) in
    let r3 = thread j r2 lt (ThreadStep.store k (a.state.data_at j) (ground arith)) in
    let r4 = thread j r3 lt (ThreadStep.unlock k (ground arith)) in
    record {
      state = _;
      reach = r4;
      threads_at = λ i. ground (arith, a.threads_at i);
      main_at = a.main_at;
      free = λ i. ground (arith, a.free i);
    }

thread_ends :
    {m : Main} (n : ℕ) {p : ℕ → Pc} (j k : ℕ)
    → j < threads
    → k + suc n ≡ rounds
    → p j ≡ at_lock k
    → At p m
    → At (put p j gone) m
unfolding next_round
thread_ends zero {p} j k lt e f a =
    let over : next_round k ≡ gone = ground arith in
    At-map (λ i. ap (λ x. put p j x i) over) (one_round j k lt f a)
thread_ends (suc n) {p} j k lt e f a =
    let more : next_round k ≡ at_lock (k + 1) = ground arith in
    At-map (λ i. ground arith)
      (thread_ends n j (k + 1) lt (omega (arith, e)) (ground (arith, more)) (one_round j k lt f a))

abbrev first_gone : ℕ → ℕ → Pc
first_gone n i = if ltb i n then gone else if ltb i threads then at_lock 0 else absent

all_end : {m : Main} (n : ℕ) → n ≤ threads → At (first_gone 0) m → At (first_gone n) m
all_end zero le a = a
all_end (suc n) le a =
    At-map (λ i. ground arith)
      (thread_ends 999 n 0 le (omega arith) (ground arith) (all_end n (omega arith) a))

abbrev first_created : ℕ → ℕ → Pc
first_created n i = if ltb i n then at_lock 0 else absent

created : (n : ℕ) → n ≤ threads → At (first_created n) (creating n)
unfolding init
created zero le = record {
  state = init;
  reach = start;
  threads_at = λ i. ground arith;
  main_at = refl;
  free = λ i. refl;
}
created (suc n) le =
    let a = created n (omega arith) in
    record {
      state = _;
      reach = by_main a.reach (MainStep.create n a.main_at le);
      threads_at = λ i. ground (arith, a.threads_at i);
      main_at = refl;
      free = a.free;
    }

entry_ends : {p : ℕ → Pc} (i m : ℕ) → At p (main_lock i m) → At p (next_entry i m)
entry_ends i m a =
    let r1 = by_main a.reach (MainStep.lock_entry i m a.main_at (a.free m)) in
    let r2 = by_main r1 (MainStep.load_entry i m refl) in
    let r3 = by_main r2 (MainStep.store_entry i m (a.state.data_at m) refl) in
    let r4 = by_main r3 (MainStep.unlock_entry i m refl) in
    record {
      state = _;
      reach = r4;
      threads_at = a.threads_at;
      main_at = refl;
      free = λ j. ground (arith, a.free j);
    }

-- behind round `i` of `main`
abbrev next_main : ℕ → Main
next_main i = if ltb (i + 1) rounds then main_lock (i + 1) 0 else joining 0

entries_end :
    {p : ℕ → Pc} (n i m : ℕ) → m + suc n ≡ threads → At p (main_lock i m) → At p (next_main i)
unfolding next_entry
entries_end {p} zero i m e a =
    let last : next_entry i m ≡ next_main i = ground arith in subst (At p) last (entry_ends i m a)
entries_end {p} (suc n) i m e a =
    let more : next_entry i m ≡ main_lock i (m + 1) = ground arith in
    entries_end n i (m + 1) (omega (arith, e)) (subst (At p) more (entry_ends i m a))

main_ends : {p : ℕ → Pc} (n i : ℕ) → i + suc n ≡ rounds → At p (main_lock i 0) → At p (joining 0)
main_ends {p} zero i e a =
    let over : next_main i ≡ joining 0 = ground arith in
    subst (At p) over (entries_end 9 i 0 (omega arith) a)
main_ends {p} (suc n) i e a =
    let more : next_main i ≡ main_lock (i + 1) 0 = ground arith in
    main_ends n (i + 1) (omega (arith, e)) (subst (At p) more (entries_end 9 i 0 (omega arith) a))

joined :
    (n : ℕ)
    → n ≤ threads
    → At (first_gone threads) (joining 0)
    → At (first_gone threads) (joining n)
joined zero le a = a
joined (suc n) le a =
    let b = joined n (omega arith) a in
    record {
      state = _;
      reach = by_main b.reach (MainStep.join n b.main_at le (ground (arith, b.threads_at n)));
      threads_at = b.threads_at;
      main_at = refl;
      free = b.free;
    }

-- `main` can come to print.
pub can_print : (s : System) × Reach s × (s.main ≡ printed)
can_print =
    let a = created threads (omega arith) in
    let b : At (first_gone 0) (main_lock 0 0) = record {
      state = _;
      reach = by_main a.reach (MainStep.all_created threads a.main_at (omega arith));
      threads_at = λ i. ground (arith, a.threads_at i);
      main_at = refl;
      free = a.free;
    } in
    let c = main_ends 999 0 (omega arith) (all_end threads (omega arith) b) in
    let d = joined threads (omega arith) c in
    (_, by_main d.reach (MainStep.print threads d.main_at (omega arith)), refl)
