-- ===== src/Counters/Array/Total.antt =====
-- nlocks.c: what the threads and `main` have added, and the steps of the threads.
use mathlib.Core.Path.{subst}
use decs.Base.Family.{put}
use decs.Base.{
  ℕ, Bool, ◌≡◌, false, true, ◌≤◌, ◌<◌, ◌==◌, ◌+◌, if◌then◌else◌, ltb, leb, ◌≢◌, ◌||◌, arith,
  Bool-cases, ◌&&◌, inl, inr, refl,
}
use decs.Counters.Array.{
  System, init, Pc, Main, absent, at_lock, at_load, at_store, at_unlock, gone, creating, joining,
  main_lock, main_load, main_unlock, main_store, printed, failed, threads, rounds, next_round,
  ThreadStep,
}

unfoldable pub holds : Pc → Bool
holds absent = false
holds (at_lock k) = false
holds (at_load k) = true
holds (at_store k v) = true
holds (at_unlock k) = true
holds gone = false

unfoldable pub main_holds : ℕ → Main → Bool
main_holds j (creating k) = false
main_holds j (joining k) = false
main_holds j (main_lock i m) = false
main_holds j (main_load i m) = m == j
main_holds j (main_unlock i m) = m == j
main_holds j (main_store i m v) = m == j
main_holds j printed = false
main_holds j failed = false

-- What a thread has added to its entry
unfoldable pub added : Pc → ℕ
added absent = 0
added (at_lock k) = k
added (at_load k) = k
added (at_store k v) = k
added (at_unlock k) = k + 1
added gone = rounds

-- What `main` has added to entry `j`
unfoldable pub main_added : ℕ → Main → ℕ
main_added j (creating k) = 0
main_added j (joining k) = rounds
main_added j (main_lock i m) = if ltb j m then i + 1 else i
main_added j (main_load i m) = if ltb j m then i + 1 else i
main_added j (main_store i m v) = if ltb j m then i + 1 else i
main_added j (main_unlock i m) = if leb j m then i + 1 else i
main_added j printed = rounds
main_added j failed = 0

-- What `main` knows of the threads
abbrev pub Knows : (ℕ → Pc) → Main → Type 0
Knows pc (creating k) = (j : ℕ) → k ≤ j → pc j ≡ absent
Knows pc (joining k) = (j : ℕ) → j < k → pc j ≡ gone
Knows pc printed = (j : ℕ) → j < threads → pc j ≡ gone
Knows pc m = Unit

-- the rounds and the entries are in range
abbrev pub InRange : Main → Type 0
InRange (main_lock i m) = (i < rounds) × (m < threads)
InRange (main_load i m) = (i < rounds) × (m < threads)
InRange (main_store i m v) = (i < rounds) × (m < threads)
InRange (main_unlock i m) = (i < rounds) × (m < threads)
InRange m = Unit

-- a thread that is in its loop has a round to go
abbrev pub Going : Pc → Type 0
Going absent = Unit
Going (at_lock k) = k < rounds
Going (at_load k) = k < rounds
Going (at_store k v) = k < rounds
Going (at_unlock k) = k < rounds
Going gone = Unit

pub record IsAdded (s : System) : Type 0 where
  pub total : (j : ℕ) → j < threads → s.data_at j ≡ added (s.pc j) + main_added j s.main
  pub fresh : (j k v : ℕ) → s.pc j ≡ at_store k v → v ≡ s.data_at j
  pub main_fresh : (i j v : ℕ) → s.main ≡ main_store i j v → v ≡ s.data_at j
  pub known : (j : ℕ) → s.held j ≡ (holds (s.pc j) || main_holds j s.main)
  pub apart : (j : ℕ) → (holds (s.pc j) && main_holds j s.main) ≡ false
  pub going : (j : ℕ) → Going (s.pc j)
  pub knows : Knows s.pc s.main
  pub range : InRange s.main

-- A step of a thread takes nothing from what `main` knows.
Knows-put :
    (pc : ℕ → Pc) (j : ℕ) (p : Pc) (m : Main)
    → pc j ≢ absent
    → pc j ≢ gone
    → Knows pc m
    → Knows (put pc j p) m
Knows-put pc j p (creating k) a g h = λ i le. ground (arith, h i le, a)
Knows-put pc j p (joining k) a g h = λ i lt. ground (arith, h i lt, g)
Knows-put pc j p printed a g h = λ i lt. ground (arith, h i lt, g)
Knows-put pc j p (main_lock i m) a g h = tt
Knows-put pc j p (main_load i m) a g h = tt
Knows-put pc j p (main_unlock i m) a g h = tt
Knows-put pc j p (main_store i m v) a g h = tt
Knows-put pc j p failed a g h = tt

pub Going-put :
    (pc : ℕ → Pc) (j : ℕ) (p : Pc)
    → Going p
    → ((i : ℕ) → Going (pc i))
    → (i : ℕ) → Going (put pc j p i)
Going-put pc j p new h i = elim (Bool-cases (j == i)) [
  | inl here ↦ rw here new
  | inr other ↦ rw other (h i)
]

next_round-added : (k : ℕ) → k < rounds → added (next_round k) ≡ k + 1
unfolding next_round added
next_round-added k lt = ground arith

next_round-holds : (k : ℕ) → holds (next_round k) ≡ false
unfolding next_round holds
next_round-holds k = ground arith

next_round-Going : (k : ℕ) → Going (next_round k)
unfolding next_round
next_round-Going k = elim (Bool-cases (ltb (k + 1) rounds)) [
  | inl more ↦ rw more (ground (arith, more))
  | inr last ↦ rw last tt
]

pub init-IsAdded : IsAdded init
unfolding init added main_added holds main_holds
init-IsAdded = record {
  total = λ j lt. refl;
  fresh = λ j k v e. ground (arith, e);
  main_fresh = λ i j v e. ground (arith, e);
  known = λ j. refl;
  apart = λ j. refl;
  going = λ j. tt;
  knows = λ j le. refl;
  range = tt;
}

pub ThreadStep-IsAdded :
    {s : System} {j : ℕ} {t : System} → ThreadStep s j t → IsAdded s → IsAdded t
unfolding holds added main_holds
ThreadStep-IsAdded {s} {j} (ThreadStep.lock k e free) v =
    let on : k < rounds = subst Going e (v.going j) in
    record {
      total = λ i lt. ground (arith, v.total i lt, e);
      fresh = λ i m w f. ground (arith, v.fresh i m w, f);
      main_fresh = v.main_fresh;
      known = λ i. ground (arith, v.known i, v.known j, e);
      apart = λ i. ground (arith, v.apart i, v.known j, e, free);
      going = Going-put s.pc j (at_load k) on v.going;
      knows = Knows-put s.pc j (at_load k) s.main (λ a. cc) (λ a. cc) v.knows;
      range = v.range;
    }
ThreadStep-IsAdded {s} {j} (ThreadStep.load k e) v =
    let on : k < rounds = subst Going e (v.going j) in
    record {
      total = λ i lt. ground (arith, v.total i lt, e);
      fresh = λ i m w f. ground (arith, v.fresh i m w, f);
      main_fresh = v.main_fresh;
      known = λ i. ground (arith, v.known i, e);
      apart = λ i. ground (arith, v.apart i, e);
      going = Going-put s.pc j (at_store k (s.data_at j)) on v.going;
      knows = Knows-put s.pc j (at_store k (s.data_at j)) s.main (λ a. cc) (λ a. cc) v.knows;
      range = v.range;
    }
ThreadStep-IsAdded {s} {j} (ThreadStep.store k w e) v =
    let on : k < rounds = subst Going e (v.going j) in
    record {
      total = λ i lt. ground (arith, v.total i lt, v.fresh j k w e, e);
      fresh = λ i m x f. ground (arith, v.fresh i m x, f);
      main_fresh = λ i m x f. ground (arith, v.main_fresh i m x, v.apart j, e, f);
      known = λ i. ground (arith, v.known i, e);
      apart = λ i. ground (arith, v.apart i, e);
      going = Going-put s.pc j (at_unlock k) on v.going;
      knows = Knows-put s.pc j (at_unlock k) s.main (λ a. cc) (λ a. cc) v.knows;
      range = v.range;
    }
ThreadStep-IsAdded {s} {j} (ThreadStep.unlock k e) v =
    let on : k < rounds = subst Going e (v.going j) in
    record {
      total = λ i lt. ground (arith, v.total i lt, e, next_round-added k on);
      fresh = λ i m x f. ground (arith, v.fresh i m x, next_round-holds k, f);
      main_fresh = v.main_fresh;
      known = λ i. ground (arith, v.known i, v.apart i, e, next_round-holds k);
      apart = λ i. ground (arith, v.apart i, e, next_round-holds k);
      going = Going-put s.pc j (next_round k) (next_round-Going k) v.going;
      knows = Knows-put s.pc j (next_round k) s.main (λ a. cc) (λ a. cc) v.knows;
      range = v.range;
    }
