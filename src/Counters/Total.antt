-- ===== src/Counters/Total.antt =====
-- threads.c: no increment is lost.
use mathlib.Core.Path.{subst}
use decs.Base.Family.{count, put, count_none, count-put, count_every}
use decs.Counters.{
  Pc, System, Main, at_store, creating, absent, gone, joining, at_lock, at_load, printed, at_unlock,
  failed, init, Step, Reach, create, step, start, create_fails, all_created, join, print, lock,
  load, store, unlock,
}
use decs.Base.{ℕ, refl, Bool, ◌≡◌, false, ◌≢◌, true, ◌≤◌, ◌<◌, arith, sym, dec_lt, ◌∙◌, ap, ◌+◌}

unfoldable pub holds : Pc → Bool
holds absent = false
holds at_lock = false
holds at_load = true
holds (at_store v) = true
holds at_unlock = true
holds gone = false

-- The thread has written the counter.
unfoldable pub has_counted : Pc → Bool
has_counted absent = false
has_counted at_lock = false
has_counted at_load = false
has_counted (at_store v) = false
has_counted at_unlock = true
has_counted gone = true

-- What `main` knows of the threads
abbrev Knows : ℕ → (ℕ → Pc) → ℕ → Main → Type 0
Knows n pc counter (creating k) = (i : ℕ) → k ≤ i → pc i ≡ absent
Knows n pc counter (joining k) = (i : ℕ) → i < k → pc i ≡ gone
Knows n pc counter (printed v) = v ≡ n
Knows n pc counter failed = Unit

record IsCounted (n : ℕ) (s : System) : Type 0 where
  total : s.counter ≡ count has_counted n s.pc
  fresh : (i v : ℕ) → s.pc i ≡ at_store v → v ≡ s.counter
  locked : (i : ℕ) → holds (s.pc i) ≡ true → s.held ≡ true
  alone : (i j : ℕ) → holds (s.pc i) ≡ true → holds (s.pc j) ≡ true → i ≡ j
  knows : Knows n s.pc s.counter s.main

-- A step of a thread takes nothing from what `main` knows.
Knows-put :
    (n : ℕ) (pc : ℕ → Pc) (v w i : ℕ) (p : Pc) (m : Main)
    → pc i ≢ absent
    → pc i ≢ gone
    → Knows n pc v m
    → Knows n (put pc i p) w m
Knows-put n pc v w i p (creating k) a g h = λ j le. ground (arith, h j le, a)
Knows-put n pc v w i p (joining k) a g h = λ j lt. ground (arith, h j lt, g)
Knows-put n pc v w i p (printed x) a g h = h
Knows-put n pc v w i p failed a g h = tt

init-IsCounted : (n : ℕ) → IsCounted n init
unfolding init holds has_counted
init-IsCounted n = record {
  total = sym (count_none has_counted n (λ i. absent) (λ i lt. refl));
  fresh = λ i v e. ground (arith, e);
  locked = λ i e. ground (arith, e);
  alone = λ i j e f. ground (arith, e);
  knows = λ i le. refl;
}

Step-IsCounted : {n : ℕ} {s t : System} → Step n s t → IsCounted n s → IsCounted n t
unfolding holds has_counted
Step-IsCounted {n} {s} (create k e lt) v =
    let new : (j : ℕ) → k ≤ j → s.pc j ≡ absent = subst (Knows n s.pc s.counter) e v.knows in
    record {
      total =
          ground (arith, v.total, count-put has_counted n s.pc k at_lock lt, new k (omega arith));
      fresh = λ j w f. ground (arith, v.fresh j w, f);
      locked = λ j f. ground (arith, v.locked j, f);
      alone = λ i j f g. ground (arith, v.alone i j, f, g);
      knows = λ j le. ground (arith, new j (omega arith));
    }
Step-IsCounted (create_fails k e lt) v = record {
  total = v.total;
  fresh = v.fresh;
  locked = v.locked;
  alone = v.alone;
  knows = tt;
}
Step-IsCounted (all_created k e le) v = record {
  total = v.total;
  fresh = v.fresh;
  locked = v.locked;
  alone = v.alone;
  knows = λ i lt. absurd (omega arith);
}
Step-IsCounted {n} {s} (join k e lt f) v =
    let ended : (j : ℕ) → j < k → s.pc j ≡ gone = subst (Knows n s.pc s.counter) e v.knows in
    record {
      total = v.total;
      fresh = v.fresh;
      locked = v.locked;
      alone = v.alone;
      knows = λ j below. elim (dec_lt j k) [
        | yes earlier ↦ ended j earlier
        | no last ↦ let here : j ≡ k = omega arith in rw here f
      ];
    }
Step-IsCounted {n} {s} (print k e le) v =
    let ended : (j : ℕ) → j < k → s.pc j ≡ gone = subst (Knows n s.pc s.counter) e v.knows in
    record {
      total = v.total;
      fresh = v.fresh;
      locked = v.locked;
      alone = v.alone;
      knows =
          v.total ∙ count_every has_counted n s.pc (λ i lt. ap has_counted (ended i (omega arith)));
    }
Step-IsCounted {n} {s} (lock i lt e free) v = record {
  total = ground (arith, v.total, count-put has_counted n s.pc i at_load lt, e);
  fresh = λ j w f. ground (arith, v.fresh j w, f);
  locked = λ j f. refl;
  alone = λ j m f g. ground (arith, v.locked j, v.locked m, f, g, free);
  knows = Knows-put n s.pc s.counter s.counter i at_load s.main (λ a. cc) (λ a. cc) v.knows;
}
Step-IsCounted {n} {s} (load i lt e) v = record {
  total = ground (arith, v.total, count-put has_counted n s.pc i (at_store s.counter) lt, e);
  fresh = λ j w f. ground (arith, v.fresh j w, f);
  locked = λ j f. ground (arith, v.locked j, v.locked i, f, e);
  alone = λ j m f g. ground (arith, v.alone j m, v.alone j i, v.alone i m, f, g, e);
  knows =
      Knows-put n s.pc s.counter s.counter i (at_store s.counter) s.main (λ a. cc) (λ a. cc)
        v.knows;
}
Step-IsCounted {n} {s} (store i w lt e) v = record {
  total = ground (arith, v.total, v.fresh i w e, count-put has_counted n s.pc i at_unlock lt, e);
  fresh = λ j x f. ground (arith, v.alone i j, f, e);
  locked = λ j f. ground (arith, v.locked j, v.locked i, f, e);
  alone = λ j m f g. ground (arith, v.alone j m, v.alone j i, v.alone i m, f, g, e);
  knows = Knows-put n s.pc s.counter (w + 1) i at_unlock s.main (λ a. cc) (λ a. cc) v.knows;
}
Step-IsCounted {n} {s} (unlock i lt e) v = record {
  total = ground (arith, v.total, count-put has_counted n s.pc i gone lt, e);
  fresh = λ j w f. ground (arith, v.fresh j w, f);
  locked = λ j f. ground (arith, v.alone i j, f, e);
  alone = λ j m f g. ground (arith, v.alone j m, f, g);
  knows = Knows-put n s.pc s.counter s.counter i gone s.main (λ a. cc) (λ a. cc) v.knows;
}

Reach-IsCounted : {n : ℕ} {s : System} → Reach n s → IsCounted n s
Reach-IsCounted {n} start = init-IsCounted n
Reach-IsCounted (step r e) = Step-IsCounted e (Reach-IsCounted r)

-- In every reachable state in which `main` has printed, it has printed the number of the threads: no
-- increment is lost.
pub Reach-printed : (n v : ℕ) (s : System) → Reach n s → s.main ≡ printed v → v ≡ n
Reach-printed n v s r e = subst (Knows n s.pc s.counter) e (Reach-IsCounted r).knows
