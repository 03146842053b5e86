-- ===== src/Race/Handshake/Refinement.antt =====
-- hare_tortoise.c, the handshakes: whatever the schedule, the shared variables go through the rounds of
-- the reporter's loop one after the other.
use mathlib.Core.Path.{subst}
use decs.Race.Track.{IsRace, OnTrack, init_race-OnTrack, tick-OnTrack, turtle_action_decided}
use decs.Race.Handshake.Locks.{IsLocked, thread_holds, reporter_holds}
use decs.Base.Family.{put}
use decs.Race.Handshake.{
  count_clock, Pc, action, Reporter, System, at_acquire, at_signal, testing, at_wait, acquiring,
  asleep, holding, roused, waiting, at_release, woken, last_acquire, acting, last_signal,
  signalling, last_release, releasing, done, at_test, at_count, at_check, at_end, rouse_reporter,
  ThreadStep,
}
use decs.Race.{Config, State, init_race, tick, randomizer_action, hare_action}
use decs.Base.{
  ℕ, ◌≡◌, Bool, true, false, suc, ◌<◌, zero, arith, if◌then◌else◌, ap, ◌≢◌, refl, ◌==◌, sym, ◌∙◌,
  Bool-cases, inl, ==_iff, inr,
}

-- The states that whole rounds lead to, each begun while there is no winner
pub data Ran (c : Config) : State → Type 0 where
  begin : Ran c (init_race c)
  round : {s : State} → Ran c s → s.no_winner ≡ true → Ran c (tick c s)

-- The state within a round that starts at `s`: the clock, and the first `m` of the three threads
unfoldable pub stage : Config → State → ℕ → State
unfolding count_clock action
stage c s zero = count_clock s
stage c s (suc m) = action c m (stage c s m)

pub record Mid (c : Config) (m : ℕ) (d : State) : Type 0 where
  pub from : State
  pub ran : Ran c from
  pub racing : from.no_winner ≡ true
  pub same : d ≡ stage c from m

unfoldable pub acted : Pc → Bool
acted testing = false
acted acquiring = false
acted holding = false
acted waiting = false
acted woken = false
acted acting = false
acted signalling = true
acted releasing = false
acted done = false

unfoldable pub is_active : Pc → Bool
is_active testing = false
is_active acquiring = false
is_active holding = false
is_active waiting = false
is_active woken = true
is_active acting = true
is_active signalling = true
is_active releasing = false
is_active done = false

abbrev pub Over : Config → State → Type 0
Over c d = Ran c d × (d.no_winner ≡ false)

-- The shared variables at each place of the reporter
abbrev pub Describes : Config → State → (ℕ → Pc) → Reporter → Type 0
Describes c d pc at_test = Ran c d
Describes c d pc at_count = Ran c d × (d.no_winner ≡ true)
Describes c d pc (at_acquire i) = Mid c i d × (i < 3)
Describes c d pc (at_signal i) = Mid c i d × (i < 3)
Describes c d pc (at_wait i) = Mid c i d × (i < 3)
Describes c d pc (asleep i) = Mid c (if acted (pc i) then suc i else i) d × (i < 3)
Describes c d pc (roused i) = Mid c (suc i) d × (i < 3)
Describes c d pc (at_release i) = Mid c (suc i) d × (i < 3)
Describes c d pc at_check = Ran c d
Describes c d pc (last_acquire i) = Over c d
Describes c d pc (last_signal i) = Over c d
Describes c d pc (last_release i) = Over c d
Describes c d pc at_end = Over c d

-- When a thread may be between its wakeup and its signal: while the reporter deals with it, or behind
-- the end of the race.
abbrev pub Allowed : ℕ → State → Reporter → Type 0
Allowed j d at_test = d.no_winner ≡ false
Allowed j d at_count = ⊥
Allowed j d (at_acquire i) = ⊥
Allowed j d (at_signal i) = ⊥
Allowed j d (at_wait i) = i ≡ j
Allowed j d (asleep i) = i ≡ j
Allowed j d (roused i) = ⊥
Allowed j d (at_release i) = ⊥
Allowed j d at_check = ⊥
Allowed j d (last_acquire i) = Unit
Allowed j d (last_signal i) = Unit
Allowed j d (last_release i) = Unit
Allowed j d at_end = Unit

pub record IsRefined (c : Config) (s : System) : Type 0 where
  pub described : Describes c s.shared s.pc s.reporter
  pub active : (j : ℕ) → is_active (s.pc j) ≡ true → Allowed j s.shared s.reporter

pub Describes-quiet :
    (c : Config) (d : State) (pc pc' : ℕ → Pc) (r : Reporter)
    → ((i : ℕ) → acted (pc' i) ≡ acted (pc i))
    → Describes c d pc r
    → Describes c d pc' r
Describes-quiet c d pc pc' at_test h v = v
Describes-quiet c d pc pc' at_count h v = v
Describes-quiet c d pc pc' (at_acquire i) h v = v
Describes-quiet c d pc pc' (at_signal i) h v = v
Describes-quiet c d pc pc' (at_wait i) h v = v
Describes-quiet c d pc pc' (asleep i) h v = rw (h i) v
Describes-quiet c d pc pc' (roused i) h v = v
Describes-quiet c d pc pc' (at_release i) h v = v
Describes-quiet c d pc pc' at_check h v = v
Describes-quiet c d pc pc' (last_acquire i) h v = v
Describes-quiet c d pc pc' (last_signal i) h v = v
Describes-quiet c d pc pc' (last_release i) h v = v
Describes-quiet c d pc pc' at_end h v = v

-- A step that neither acts nor signals
quiet :
    {c : Config} {s : System} (i : ℕ) (p : Pc) (b : ℕ → Bool)
    → acted p ≡ acted (s.pc i)
    → (is_active p ≡ true → is_active (s.pc i) ≡ true)
    → IsRefined c s
    → IsRefined c (record s { held = b; pc = put s.pc i p })
quiet {c} {s} i p b same still v = record {
  described =
      Describes-quiet c s.shared s.pc (put s.pc i p) s.reporter (λ j. ground (arith, same))
        v.described;
  active = λ j a. v.active j (ground (arith, a, still));
}

-- A thread holds its lock from its wakeup to its signal, so the reporter does not.
not_both :
    {s : System} (i : ℕ)
    → IsLocked s
    → thread_holds (s.pc i) ≡ true
    → reporter_holds i s.reporter ≡ false
not_both i v h = ground (arith, v.apart i, h)

-- How many threads have acted, for a reporter that sleeps on thread `i`
abbrev pub passed : (ℕ → Pc) → ℕ → ℕ
passed pc i = if acted (pc i) then suc i else i

Mid-act : {c : Config} {d : State} (i : ℕ) → Mid c i d → Mid c (suc i) (action c i d)
unfolding stage
Mid-act {c} i m = record {
  from = m.from;
  ran = m.ran;
  racing = m.racing;
  same = ap (action c i) m.same;
}

passed_before : (pc : ℕ → Pc) (i : ℕ) (p : Pc) → pc i ≡ p → acted p ≡ false → passed pc i ≡ i
passed_before pc i p at e = ground (arith, at, e)

passed_now : (pc : ℕ → Pc) (i : ℕ) → acted (pc i) ≡ true → passed pc i ≡ suc i
passed_now pc i e = rw e refl

put_here : (pc : ℕ → Pc) (i : ℕ) (p : Pc) → put pc i p i ≡ p
put_here pc i p = ground arith

module _ {c : Config} (race : IsRace c) where
  pub Ran-OnTrack : {d : State} → Ran c d → OnTrack c d
  Ran-OnTrack begin = init_race-OnTrack race
  Ran-OnTrack (round r on) = tick-OnTrack race (Ran-OnTrack r)

  -- Behind the end of the race the threads change nothing.
  action-Over : (i : ℕ) {d : State} → Over c d → action c i d ≡ d
  unfolding action randomizer_action hare_action
  action-Over zero o = ground (arith, o.1)
  action-Over (suc zero) o = turtle_action_decided race (Ran-OnTrack o.0) o.1
  action-Over (suc (suc i)) o = ground (arith, o.1)

  act_described :
      (i : ℕ) (d : State) (pc : ℕ → Pc) (r : Reporter)
      → reporter_holds i r ≡ false
      → pc i ≡ acting
      → Allowed i d r
      → Describes c d pc r
      → Describes c (action c i d) (put pc i signalling) r
  unfolding reporter_holds acted stage
  act_described i d pc at_test free at a v = rw (action-Over i (v, a)) v
  act_described i d pc (at_wait k) free at a v = absurd (ground (arith, a, free))
  act_described i d pc (asleep k) free at a (m, lt) =
      let before : Mid c k d =
        subst (λ n. Mid c n d) (passed_before pc k acting (ap pc a ∙ at) refl) m in
      let now : passed (put pc k signalling) k ≡ suc k =
        passed_now (put pc k signalling) k (ap acted (put_here pc k signalling)) in
      let there : Mid c (passed (put pc k signalling) k) (action c k d) =
        subst (λ n. Mid c n (action c k d)) (sym now) (Mid-act k before) in
      (subst (λ n. Mid c (passed (put pc n signalling) k) (action c n d)) a there, lt)
  act_described i d pc (last_acquire k) free at a v = rw (action-Over i v) v
  act_described i d pc (last_signal k) free at a v = rw (action-Over i v) v
  act_described i d pc (last_release k) free at a v = rw (action-Over i v) v
  act_described i d pc at_end free at a v = rw (action-Over i v) v
  act_described i d pc at_count free at a v = absurd a
  act_described i d pc (at_acquire k) free at a v = absurd a
  act_described i d pc (at_signal k) free at a v = absurd a
  act_described i d pc (roused k) free at a v = absurd a
  act_described i d pc (at_release k) free at a v = absurd a
  act_described i d pc at_check free at a v = absurd a

  act-Allowed :
      (i j : ℕ) (d : State) (pc : ℕ → Pc) (r : Reporter)
      → Allowed i d r
      → Describes c d pc r
      → Allowed j d r
      → Allowed j (action c i d) r
  act-Allowed i j d pc at_test a v b = rw (action-Over i (v, a)) b
  act-Allowed i j d pc (at_wait k) a v b = b
  act-Allowed i j d pc (asleep k) a v b = b
  act-Allowed i j d pc (last_acquire k) a v b = tt
  act-Allowed i j d pc (last_signal k) a v b = tt
  act-Allowed i j d pc (last_release k) a v b = tt
  act-Allowed i j d pc at_end a v b = tt
  act-Allowed i j d pc at_count a v b = b
  act-Allowed i j d pc (at_acquire k) a v b = b
  act-Allowed i j d pc (at_signal k) a v b = b
  act-Allowed i j d pc (roused k) a v b = b
  act-Allowed i j d pc (at_release k) a v b = b
  act-Allowed i j d pc at_check a v b = b

  signal_described :
      (i : ℕ) (d : State) (pc : ℕ → Pc) (r : Reporter)
      → reporter_holds i r ≡ false
      → pc i ≡ signalling
      → Allowed i d r
      → Describes c d pc r
      → Describes c d (put pc i releasing) (rouse_reporter i r)
  unfolding reporter_holds acted rouse_reporter
  signal_described i d pc at_test free at a v = v
  signal_described i d pc (at_wait k) free at a v = absurd (ground (arith, a, free))
  signal_described i d pc (asleep k) free at a (m, lt) =
      let same : (i == k) ≡ true = ground (arith, a) in
      let now : passed pc k ≡ suc k = passed_now pc k (ap acted (ap pc a ∙ at)) in
      rw same (subst (λ n. Mid c n d) now m, lt)
  signal_described i d pc (last_acquire k) free at a v = v
  signal_described i d pc (last_signal k) free at a v = v
  signal_described i d pc (last_release k) free at a v = v
  signal_described i d pc at_end free at a v = v
  signal_described i d pc at_count free at a v = absurd a
  signal_described i d pc (at_acquire k) free at a v = absurd a
  signal_described i d pc (at_signal k) free at a v = absurd a
  signal_described i d pc (roused k) free at a v = absurd a
  signal_described i d pc (at_release k) free at a v = absurd a
  signal_described i d pc at_check free at a v = absurd a

  signal-Allowed :
      (i j : ℕ) (d : State) (r : Reporter)
      → i ≢ j
      → Allowed i d r
      → Allowed j d r
      → Allowed j d (rouse_reporter i r)
  unfolding rouse_reporter
  signal-Allowed i j d at_test n a b = b
  signal-Allowed i j d (at_wait k) n a b = b
  signal-Allowed i j d (asleep k) n a b = absurd (n (sym a ∙ b))
  signal-Allowed i j d (last_acquire k) n a b = tt
  signal-Allowed i j d (last_signal k) n a b = tt
  signal-Allowed i j d (last_release k) n a b = tt
  signal-Allowed i j d at_end n a b = tt
  signal-Allowed i j d at_count n a b = b
  signal-Allowed i j d (at_acquire k) n a b = b
  signal-Allowed i j d (at_signal k) n a b = b
  signal-Allowed i j d (roused k) n a b = b
  signal-Allowed i j d (at_release k) n a b = b
  signal-Allowed i j d at_check n a b = b

  -- What is active elsewhere stays so.
  active_elsewhere :
      (pc : ℕ → Pc) (i j : ℕ) (p : Pc)
      → is_active p ≡ false
      → is_active (put pc i p j) ≡ true
      → (i ≢ j) × (is_active (pc j) ≡ true)
  active_elsewhere pc i j p e a = (ground (arith, e, a), ground (arith, e, a))

  pub ThreadStep-IsRefined :
      {s : System} {i : ℕ} {t : System}
      → ThreadStep c s i t
      → IsLocked s
      → IsRefined c s
      → IsRefined c t
  unfolding acted is_active thread_holds
  ThreadStep-IsRefined {s} {i} (ThreadStep.go_round e f) l v =
      quiet i acquiring s.held (sym (ap acted e)) (λ a. ground (arith, a)) v
  ThreadStep-IsRefined {s} {i} (ThreadStep.leave e f) l v =
      quiet i done s.held (sym (ap acted e)) (λ a. ground (arith, a)) v
  ThreadStep-IsRefined {s} {i} (ThreadStep.acquire e f) l v =
      quiet i holding _ (sym (ap acted e)) (λ a. ground (arith, a)) v
  ThreadStep-IsRefined {s} {i} (ThreadStep.wait e) l v =
      quiet i waiting _ (sym (ap acted e)) (λ a. ground (arith, a)) v
  ThreadStep-IsRefined {s} {i} (ThreadStep.wake e f) l v =
      quiet i acting _ (sym (ap acted e)) (λ a. ap is_active e) v
  ThreadStep-IsRefined {s} {i} (ThreadStep.release e) l v =
      quiet i testing _ (sym (ap acted e)) (λ a. ground (arith, a)) v
  ThreadStep-IsRefined {s} {i} (ThreadStep.act e) l v =
      let free = not_both i l (ap thread_holds e) in
      let a = v.active i (ap is_active e) in
      record {
        described = act_described i s.shared s.pc s.reporter free e a v.described;
        active = λ j b.
            act-Allowed i j s.shared s.pc s.reporter a v.described (elim (Bool-cases (i == j)) [
              | inl h ↦ subst (λ n. Allowed n s.shared s.reporter) ((==_iff i j).0 h) a
              | inr h ↦ v.active j (ground (arith, b, h))
            ]);
      }
  ThreadStep-IsRefined {s} {i} (ThreadStep.signal e) l v =
      let free = not_both i l (ap thread_holds e) in
      let a = v.active i (ap is_active e) in
      record {
        described = signal_described i s.shared s.pc s.reporter free e a v.described;
        active = λ j b.
            let other = active_elsewhere s.pc i j releasing refl b in
            signal-Allowed i j s.shared s.reporter other.0 a (v.active j other.1);
      }
