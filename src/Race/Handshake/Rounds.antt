-- ===== src/Race/Handshake/Rounds.antt =====
-- hare_tortoise.c, the handshakes: the steps of the reporter, and what it has at the end of the race.
use mathlib.Core.Path.{subst}
use decs.Base.Int.{eq_ℤ, pos}
use decs.Race.Track.{IsRace}
use decs.Base.Family.{put}
use decs.Race.Handshake.Refinement.{
  stage, acted, is_active, Mid, Over, IsRefined, Describes, begin, Allowed, Ran,
  ThreadStep-IsRefined, round, passed,
}
use decs.Race.Handshake.Locks.{thread_holds, reporter_holds, IsLocked, Reach-IsLocked}
use decs.Race.Handshake.{
  rouse_thread, after, after_last, Pc, init, System, action, Reporter, count_clock, ReporterStep,
  Reach, at_end, thread, report, start,
}
use decs.Race.{Config, race_loop, State, tick, ended, init_race}
use decs.Base.{
  ℕ, refl, ◌≡◌, true, arith, false, suc, ◌<◌, ◌⊎◌, zero, sym, Bool-cases, ◌+◌, inl, ◌==◌, ap, ◌∙◌,
  inr, ==_iff,
}

-- What the invariant says where the reporter stands
module _ {c : Config} {s : System} {r : Reporter} (v : IsRefined c s) (e : s.reporter ≡ r) where
  there : Describes c s.shared s.pc r
  there = subst (Describes c s.shared s.pc) e v.described

  allowed : (j : ℕ) → is_active (s.pc j) ≡ true → Allowed j s.shared r
  allowed j a = subst (Allowed j s.shared) e (v.active j a)

rouse_thread-acted : (p : Pc) → acted (rouse_thread p) ≡ acted p
unfolding rouse_thread acted
rouse_thread-acted p = ground arith

free_thread : (p : Pc) → thread_holds p ≡ false → acted p ≡ false
unfolding thread_holds acted
free_thread p h = ground (arith, h)

-- Behind the third thread the round is over.
Mid-tick : {c : Config} {d : State} → Mid c 3 d → Ran c d
unfolding stage action count_clock tick
Mid-tick {c} m = subst (Ran c) (sym m.same) (round m.ran m.racing)

described_after :
    (c : Config) (d : State) (pc : ℕ → Pc) (i : ℕ)
    → Mid c (suc i) d
    → i < 3
    → Describes c d pc (after i)
unfolding after
described_after c d pc zero m lt = (m, omega arith)
described_after c d pc (suc zero) m lt = (m, omega arith)
described_after c d pc (suc (suc zero)) m lt = Mid-tick m
described_after c d pc (suc (suc (suc i))) m lt = absurd (omega (arith, lt))

described_after_last :
    (c : Config) (d : State) (pc : ℕ → Pc) (i : ℕ) → Over c d → Describes c d pc (after_last i)
unfolding after_last
described_after_last c d pc zero o = o
described_after_last c d pc (suc zero) o = o
described_after_last c d pc (suc (suc i)) o = o.0

Allowed-after_last : (j : ℕ) (d : State) (i : ℕ) → d.no_winner ≡ false → Allowed j d (after_last i)
unfolding after_last
Allowed-after_last j d zero o = tt
Allowed-after_last j d (suc zero) o = tt
Allowed-after_last j d (suc (suc i)) o = o

-- A signal makes no other thread active.
active_but :
    (pc : ℕ → Pc) (i j : ℕ)
    → is_active (put pc i (rouse_thread (pc i)) j) ≡ true
    → (i ≡ j) ⊎ (is_active (pc j) ≡ true)
active_but pc i j a = elim (Bool-cases (i == j)) [
  | inl h ↦ inl ((==_iff i j).0 h)
  | inr h ↦ inr (ground (arith, a, h))
]

module _ {c : Config} where
  ReporterStep-IsRefined :
      {s t : System} → ReporterStep s t → IsLocked s → IsRefined c s → IsRefined c t
  unfolding reporter_holds count_clock stage
  ReporterStep-IsRefined {s} (ReporterStep.start_round e f) l v = record {
    described = (there v e, f);
    active = λ j a. absurd (ground (arith, f, allowed v e j a));
  }
  ReporterStep-IsRefined {s} (ReporterStep.end_race e f) l v = record {
    described = (there v e, f);
    active = λ j a. tt;
  }
  ReporterStep-IsRefined {s} (ReporterStep.count e) l v = record {
    described = (
      record { from = s.shared; ran = (there v e).0; racing = (there v e).1; same = refl },
      omega arith,
    );
    active = λ j a. absurd (allowed v e j a);
  }
  ReporterStep-IsRefined {s} (ReporterStep.acquire i e f) l v = record {
    described = there v e;
    active = λ j a. absurd (allowed v e j a);
  }
  ReporterStep-IsRefined {s} (ReporterStep.signal i e) l v = record {
    described = there v e;
    active = λ j a. elim (active_but s.pc i j a) [
      | inl same ↦ same
      | inr was ↦ absurd (allowed v e j was)
    ];
  }
  ReporterStep-IsRefined {s} (ReporterStep.wait i e) l v =
      let free : thread_holds (s.pc i) ≡ false = ground (arith, l.apart i, e) in
      let none_yet : passed s.pc i ≡ i = ground (arith, free_thread (s.pc i) free) in
      record {
        described = (subst (λ n. Mid c n s.shared) (sym none_yet) (there v e).0, (there v e).1);
        active = allowed v e;
      }
  ReporterStep-IsRefined {s} (ReporterStep.wake i e f) l v = record {
    described = there v e;
    active = λ j a. absurd (allowed v e j a);
  }
  ReporterStep-IsRefined {s} (ReporterStep.release i e) l v = record {
    described = described_after c s.shared s.pc i (there v e).0 (there v e).1;
    active = λ j a. absurd (allowed v e j a);
  }
  ReporterStep-IsRefined {s} (ReporterStep.next_round e f) l v = record {
    described = there v e;
    active = λ j a. absurd (allowed v e j a);
  }
  ReporterStep-IsRefined {s} (ReporterStep.stop_threads e f) l v = record {
    described = (there v e, f);
    active = λ j a. tt;
  }
  ReporterStep-IsRefined {s} (ReporterStep.acquire_last i e f) l v = record {
    described = there v e;
    active = λ j a. tt;
  }
  ReporterStep-IsRefined {s} (ReporterStep.signal_last i e) l v = record {
    described = there v e;
    active = λ j a. tt;
  }
  ReporterStep-IsRefined {s} (ReporterStep.release_last i e) l v = record {
    described = described_after_last c s.shared s.pc i (there v e);
    active = λ j a. Allowed-after_last j s.shared i (there v e).1;
  }

init-IsRefined : (c : Config) → IsRefined c (init c)
unfolding init is_active
init-IsRefined c = record { described = begin; active = λ j a. ground (arith, a) }

Reach-IsRefined : {c : Config} {s : System} → IsRace c → Reach c s → IsRefined c s
Reach-IsRefined {c} race start = init-IsRefined c
Reach-IsRefined race (thread i r lt step) =
    ThreadStep-IsRefined race step (Reach-IsLocked r) (Reach-IsRefined race r)
Reach-IsRefined race (report r step) =
    ReporterStep-IsRefined step (Reach-IsLocked r) (Reach-IsRefined race r)

one_round :
    (c : Config) (fuel : ℕ) (s : State)
    → s.no_winner ≡ true
    → eq_ℤ c.printing_delay (pos 0) ≡ false
    → race_loop c (suc fuel) s ≡ race_loop c fuel (tick c s)
unfolding race_loop
one_round c fuel s on prints = rw (on, prints) refl

last_round : (c : Config) (s : State) → s.no_winner ≡ false → race_loop c 1 s ≡ ended s
unfolding race_loop
last_round c s off = rw off refl

-- The loop of `race_loop` makes the rounds of `Ran`.
race_loop-Ran :
    (c : Config) {d : State}
    → eq_ℤ c.printing_delay (pos 0) ≡ false
    → Ran c d
    → (k : ℕ) × ((fuel : ℕ) → race_loop c (k + fuel) (init_race c) ≡ race_loop c fuel d)
race_loop-Ran c prints begin = (0, λ fuel. ap (λ n. race_loop c n (init_race c)) (omega arith))
race_loop-Ran c prints (round {s} r on) =
    let (k, same) = race_loop-Ran c prints r in
    (
      k + 1,
      λ fuel.
          ap (λ n. race_loop c n (init_race c)) (omega arith)
          ∙ same (suc fuel)
          ∙ one_round c fuel s on prints,
    )

-- Whatever the schedule of the four threads, when the reporter leaves its loop the shared variables,
-- the winner among them, are those that the sequential rounds of `race_loop` end in: each handshake
-- lets one thread act once, in the order randomizer, turtle, hare. This holds without spurious
-- wakeups, for a track of at least one unit, speeds that are not negative and a printing delay other
-- than 0.
pub at_end-race_loop :
    {c : Config} {s : System}
    → IsRace c
    → eq_ℤ c.printing_delay (pos 0) ≡ false
    → Reach c s
    → s.reporter ≡ at_end
    → (fuel : ℕ) × (race_loop c fuel (init_race c) ≡ ended s.shared)
at_end-race_loop {c} {s} race prints r e =
    let o : Over c s.shared = there (Reach-IsRefined race r) e in
    let (k, same) = race_loop-Ran c prints o.0 in (k + 1, same 1 ∙ last_round c s.shared o.1)
