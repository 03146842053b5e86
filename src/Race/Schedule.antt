-- ===== src/Race/Schedule.antt =====
-- hare_tortoise.c: which entries of the array of repositionings are never applied, and how long the
-- hare stays where it is.
use decs.Base.Int.{◌+ℤ◌, ℤ, ◌≤ℤ◌, pos, eq_ℤ}
use decs.Race.{
  Config, State, turtle_action, hare_action, randomizer_action, tick, hare_awake, Repositioning,
  hare_work,
}
use decs.Base.{
  ℕ, refl, ◌≡◌, suc, arith, List, [], zero, ◌∷◌, ◌<◌, ◌+◌, ◌≤◌, false, ◌∙◌, Bool-cases, inl, inr,
}

-- `k` rounds of the reporter
unfoldable pub ticks : Config → ℕ → State → State
ticks c zero s = s
ticks c (suc k) s = ticks c k (tick c s)

module _ (c : Config) where
  turtle_action_frame :
      (s : State)
      → ((turtle_action c s).clock_tick ≡ s.clock_tick)
        × ((turtle_action c s).pending ≡ s.pending)
        × ((turtle_action c s).hare_distance ≡ s.hare_distance)
        × ((turtle_action c s).hare_sleep_counter ≡ s.hare_sleep_counter)
  unfolding turtle_action
  turtle_action_frame s = ground arith

  hare_action_frame :
      (s : State)
      → ((hare_action c s).clock_tick ≡ s.clock_tick) × ((hare_action c s).pending ≡ s.pending)
  unfolding hare_action hare_awake hare_work
  hare_action_frame s = ground arith

  -- An entry whose time is not the time of the clock stays at the head of the array.
  randomizer_action_waits :
      (s : State) (r : Repositioning) (rest : List Repositioning)
      → s.pending ≡ r ∷ rest
      → eq_ℤ r.time s.clock_tick ≡ false
      → randomizer_action c s ≡ s
  unfolding randomizer_action
  randomizer_action_waits s r rest at early = ground arith

  randomizer_action_empty : (s : State) → s.pending ≡ [] → randomizer_action c s ≡ s
  unfolding randomizer_action
  randomizer_action_empty s none_left = ground arith

  next_clock : (t k : ℤ) → t ≤ℤ k → (eq_ℤ t (k +ℤ pos 1) ≡ false) × (t ≤ℤ k +ℤ pos 1)
  unfolding ◌+ℤ◌
  next_clock t k past = (ground arith, ground arith)

  tick_past :
      (s : State) (r : Repositioning) (rest : List Repositioning)
      → s.pending ≡ r ∷ rest
      → r.time ≤ℤ s.clock_tick
      → ((tick c s).pending ≡ r ∷ rest) × (r.time ≤ℤ (tick c s).clock_tick)
  unfolding tick
  tick_past s r rest at past =
      let (early, later) = next_clock r.time s.clock_tick past in
      let a : State = record s { clock_tick = s.clock_tick +ℤ pos 1 } in
      let same = randomizer_action_waits a r rest at early in
      let t = turtle_action_frame a in
      let h = hare_action_frame (turtle_action c a) in rw same (h.1 ∙ t.1 ∙ at, rw (h.0, t.0) later)

  -- When the clock has reached the time of the entry that is next without applying it, or has passed it,
  -- that entry and all behind it are never applied: the array stays as it is for ever. So an entry
  -- whose time is not above that of the entry before it blocks the rest of the array.
  pub past_entry_blocks :
      (k : ℕ) (s : State) (r : Repositioning) (rest : List Repositioning)
      → s.pending ≡ r ∷ rest
      → r.time ≤ℤ s.clock_tick
      → (ticks c k s).pending ≡ r ∷ rest
  unfolding ticks
  past_entry_blocks zero s r rest at past = at
  past_entry_blocks (suc k) s r rest at past =
      let (at', past') = tick_past s r rest at past in
      past_entry_blocks k (tick c s) r rest at' past'

  -- The hare that still has to sleep goes on with it.
  hare_action_asleep :
      (s : State) (j n : ℕ)
      → c.hare_sleep_time ≡ pos n
      → s.hare_sleep_counter ≡ pos j
      → j < n
      → ((hare_action c s).hare_distance ≡ s.hare_distance)
        × ((j' : ℕ) × ((hare_action c s).hare_sleep_counter ≡ pos j') × (j' ≤ j + 1))
  unfolding hare_action ◌+ℤ◌
  hare_action_asleep s j n sleep at short = elim (Bool-cases s.no_winner) [
    | inl on ↦ (ground arith, (j + 1, ground arith, omega arith))
    | inr off ↦ (ground arith, (j, ground arith, omega arith))
  ]

  tick_asleep :
      (s : State) (j n : ℕ)
      → c.hare_sleep_time ≡ pos n
      → s.pending ≡ []
      → s.hare_sleep_counter ≡ pos j
      → j < n
      → ((tick c s).pending ≡ [])
        × ((tick c s).hare_distance ≡ s.hare_distance)
        × ((j' : ℕ) × ((tick c s).hare_sleep_counter ≡ pos j') × (j' ≤ j + 1))
  unfolding tick
  tick_asleep s j n sleep empty at short =
      let a : State = record s { clock_tick = s.clock_tick +ℤ pos 1 } in
      let same = randomizer_action_empty a empty in
      let t = turtle_action_frame a in
      let h = hare_action_frame (turtle_action c a) in
      let z = hare_action_asleep (turtle_action c a) j n sleep (t.3 ∙ at) short in
      rw same (h.1 ∙ t.1 ∙ empty, z.0 ∙ t.2, z.1)

  asleep_for :
      (k j n : ℕ) (s : State)
      → c.hare_sleep_time ≡ pos n
      → s.pending ≡ []
      → s.hare_sleep_counter ≡ pos j
      → j + k ≤ n
      → (ticks c k s).hare_distance ≡ s.hare_distance
  unfolding ticks
  asleep_for zero j n s sleep empty at short = refl
  asleep_for (suc k) j n s sleep empty at short =
      let (empty', same, (j', at', le)) = tick_asleep s j n sleep empty at (omega arith) in
      asleep_for k j' n (tick c s) sleep empty' at' (omega arith) ∙ same

  -- In a race in which no entries of the randomizer are left, with a `hare_sleep_time` of `n`, which is
  -- not negative: once the hare has been awake, whether it ran or not, it does not move for `k` ticks
  -- where `k` is at most `n`. So it sleeps after each unit that it runs too, and not only when its lead
  -- is above `hare_turtle_distance_for_sleep`.
  pub hare_sleeps :
      (k n : ℕ) (s : State)
      → c.hare_sleep_time ≡ pos n
      → s.pending ≡ []
      → k ≤ n
      → (ticks c k (hare_awake c s)).hare_distance ≡ (hare_awake c s).hare_distance
  hare_sleeps k n s sleep empty short =
      let at : (hare_awake c s).hare_sleep_counter ≡ pos 0 = unfold hare_awake in refl in
      let empty' : (hare_awake c s).pending ≡ [] = unfold hare_awake hare_work in ground arith in
      asleep_for k 0 n (hare_awake c s) sleep empty' at (omega arith)
