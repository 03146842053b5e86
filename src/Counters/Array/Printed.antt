-- ===== src/Counters/Array/Printed.antt =====
-- nlocks.c: the steps of `main`; no addition is lost.
use mathlib.Core.Path.{subst}
use decs.Base.{ℕ, ◌≡◌, ◌<◌, arith, false, Bool-cases, ◌+◌, ltb, ◌≤◌, inl, inr, dec_lt}
use decs.Counters.Array.{
  Pc, System, absent, at_lock, gone, main_unlock, printed, threads, rounds, next_entry, MainStep,
  Reach, start, thread, by_main,
}
use decs.Counters.Array.Total.{
  holds, main_holds, added, main_added, Knows, InRange, Going-put, IsAdded, init-IsAdded,
  ThreadStep-IsAdded,
}

next_entry-added :
    (j i m : ℕ)
    → i < rounds
    → m < threads
    → j < threads
    → main_added j (next_entry i m) ≡ main_added j (main_unlock i m)
unfolding main_added next_entry
next_entry-added j i m hi hm hj = ground arith

next_entry-holds : (j i m : ℕ) → main_holds j (next_entry i m) ≡ false
unfolding main_holds next_entry
next_entry-holds j i m = ground arith

next_entry-InRange : (i m : ℕ) → i < rounds → m < threads → InRange (next_entry i m)
unfolding next_entry
next_entry-InRange i m hi hm = elim (Bool-cases (ltb (m + 1) threads)) [
  | inl more ↦ rw more (hi, ground (arith, more))
  | inr last ↦ rw last (elim (Bool-cases (ltb (i + 1) rounds)) [
    | inl again ↦ rw again (ground (arith, again), omega arith)
    | inr over ↦ rw over tt
  ])
]

next_entry-Knows : (pc : ℕ → Pc) (i m : ℕ) → Knows pc (next_entry i m)
unfolding next_entry
next_entry-Knows pc i m = elim (Bool-cases (ltb (m + 1) threads)) [
  | inl more ↦ rw more tt
  | inr last ↦ rw last (elim (Bool-cases (ltb (i + 1) rounds)) [
    | inl again ↦ rw again tt
    | inr over ↦ rw over (λ j lt. absurd (omega arith))
  ])
]

MainStep-IsAdded : {s t : System} → MainStep s t → IsAdded s → IsAdded t
unfolding holds added main_holds main_added
MainStep-IsAdded {s} (MainStep.create k e lt) v =
    let new : (j : ℕ) → k ≤ j → s.pc j ≡ absent = subst (Knows s.pc) e v.knows in
    record {
      total = λ j l. ground (arith, v.total j l, e, new j);
      fresh = λ j m w f. ground (arith, v.fresh j m w, f);
      main_fresh = λ i j w f. ground (arith, f);
      known = λ j. ground (arith, v.known j, e, new k (omega arith));
      apart = λ j. ground (arith, v.apart j, e);
      going = Going-put s.pc k (at_lock 0) (omega arith) v.going;
      knows = λ j le. ground (arith, new j (omega arith));
      range = tt;
    }
MainStep-IsAdded {s} (MainStep.create_fails k e lt) v = record {
  total = λ j l. ground (arith, v.total j l, e);
  fresh = v.fresh;
  main_fresh = λ i j w f. ground (arith, f);
  known = λ j. ground (arith, v.known j, e);
  apart = λ j. ground (arith, v.apart j, e);
  going = v.going;
  knows = tt;
  range = tt;
}
MainStep-IsAdded {s} (MainStep.all_created k e le) v = record {
  total = λ j l. ground (arith, v.total j l, e);
  fresh = v.fresh;
  main_fresh = λ i j w f. ground (arith, f);
  known = λ j. ground (arith, v.known j, e);
  apart = λ j. ground (arith, v.apart j, e);
  going = v.going;
  knows = tt;
  range = (omega arith, omega arith);
}
MainStep-IsAdded {s} (MainStep.lock_entry i m e free) v = record {
  total = λ j l. ground (arith, v.total j l, e);
  fresh = v.fresh;
  main_fresh = λ a j w f. ground (arith, f);
  known = λ j. ground (arith, v.known j, v.known m, e);
  apart = λ j. ground (arith, v.apart j, v.known j, v.known m, e, free);
  going = v.going;
  knows = tt;
  range = subst InRange e v.range;
}
MainStep-IsAdded {s} (MainStep.load_entry i m e) v = record {
  total = λ j l. ground (arith, v.total j l, e);
  fresh = v.fresh;
  main_fresh = λ a j w f. ground (arith, f);
  known = λ j. ground (arith, v.known j, e);
  apart = λ j. ground (arith, v.apart j, e);
  going = v.going;
  knows = tt;
  range = subst InRange e v.range;
}
MainStep-IsAdded {s} (MainStep.store_entry i m w e) v = record {
  total = λ j l. ground (arith, v.total j l, v.main_fresh i m w e, e);
  fresh = λ j k x f. ground (arith, v.fresh j k x, v.apart j, e, f);
  main_fresh = λ a j x f. ground (arith, f);
  known = λ j. ground (arith, v.known j, e);
  apart = λ j. ground (arith, v.apart j, e);
  going = v.going;
  knows = tt;
  range = subst InRange e v.range;
}
MainStep-IsAdded {s} (MainStep.unlock_entry i m e) v =
    let (hi, hm) = subst InRange e v.range in
    record {
      total = λ j l. ground (arith, v.total j l, e, next_entry-added j i m hi hm l);
      fresh = v.fresh;
      main_fresh = λ a j x f. ground (arith, f, next_entry-holds j i m);
      known = λ j. ground (arith, v.known j, v.apart j, e, next_entry-holds j i m);
      apart = λ j. ground (arith, next_entry-holds j i m);
      going = v.going;
      knows = next_entry-Knows s.pc i m;
      range = next_entry-InRange i m hi hm;
    }
MainStep-IsAdded {s} (MainStep.join k e lt f) v =
    let ended : (j : ℕ) → j < k → s.pc j ≡ gone = subst (Knows s.pc) e v.knows in
    record {
      total = λ j l. ground (arith, v.total j l, e);
      fresh = v.fresh;
      main_fresh = λ a j x g. ground (arith, g);
      known = λ j. ground (arith, v.known j, e);
      apart = λ j. ground (arith, v.apart j, e);
      going = v.going;
      knows = λ j below. elim (dec_lt j k) [
        | yes earlier ↦ ended j earlier
        | no last ↦ let here : j ≡ k = omega arith in rw here f
      ];
      range = tt;
    }
MainStep-IsAdded {s} (MainStep.print k e le) v =
    let ended : (j : ℕ) → j < k → s.pc j ≡ gone = subst (Knows s.pc) e v.knows in
    record {
      total = λ j l. ground (arith, v.total j l, e);
      fresh = v.fresh;
      main_fresh = λ a j x g. ground (arith, g);
      known = λ j. ground (arith, v.known j, e);
      apart = λ j. ground (arith, v.apart j, e);
      going = v.going;
      knows = λ j lt. ended j (omega arith);
      range = tt;
    }

Reach-IsAdded : {s : System} → Reach s → IsAdded s
Reach-IsAdded start = init-IsAdded
Reach-IsAdded (thread j r lt step) = ThreadStep-IsAdded step (Reach-IsAdded r)
Reach-IsAdded (by_main r step) = MainStep-IsAdded step (Reach-IsAdded r)

-- In every reachable state in which `main` prints, each of the ten entries is the sum of the thousand
-- additions of its thread and the thousand of `main`: none is lost.
pub Reach-entries :
    (s : System) (j : ℕ) → Reach s → s.main ≡ printed → j < 10 → s.data_at j ≡ 1000 + 1000
unfolding added main_added
Reach-entries s j r e lt =
    let v = Reach-IsAdded r in
    let ended : (i : ℕ) → i < threads → s.pc i ≡ gone = subst (Knows s.pc) e v.knows in
    ground (arith, v.total j lt, ended j lt, e)
