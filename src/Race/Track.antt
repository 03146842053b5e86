-- ===== src/Race/Track.antt =====
-- hare_tortoise.c: both players stay on the track, and the winner is the one that is at its end.
use decs.Base.Int.{pos, ◌≤ℤ◌, ◌+ℤ◌, ltb_ℤ, ℤ, ◌-ℤ◌, eq_ℤ}
use decs.Race.{
  Config, State, turtle_action, hare_work, hare_awake, hare_action, reposition_hare,
  reposition_turtle, apply_entry, Repositioning, randomizer_action, tick, init_race, race_loop,
  run_race, ended, Finish, out_of_fuel, crashed,
}
use mathlib.Core.Path.{subst}
use decs.Base.{
  ◌≡◌, arith, true, false, ◌⊎◌, List, Bool-cases, ◌==◌, inl, inr, if_rule, [], ◌∷◌, ℕ,
  if◌then◌else◌, Bool, suc, zero, refl,
}

-- While there is no winner both players are before the end of the track; with a winner, the winner is at
-- the end and the other player before it.
pub record OnTrack (c : Config) (s : State) : Type 0 where
  pub turtle_from : pos 0 ≤ℤ s.turtle_distance
  pub hare_from : pos 0 ≤ℤ s.hare_distance
  pub racing :
      s.no_winner ≡ true
      → (ltb_ℤ s.turtle_distance c.finish_distance ≡ true)
        × (ltb_ℤ s.hare_distance c.finish_distance ≡ true)
  pub decided :
      s.no_winner ≡ false
      → ((s.overall_winner ≡ b'T')
          × (s.turtle_distance ≡ c.finish_distance)
          × (ltb_ℤ s.hare_distance c.finish_distance ≡ true))
        ⊎ ((s.overall_winner ≡ b'H')
            × (s.hare_distance ≡ c.finish_distance)
            × (ltb_ℤ s.turtle_distance c.finish_distance ≡ true))

-- A race that makes sense: the end of the track is not its start, and nobody runs backwards.
pub record IsRace (c : Config) : Type 0 where
  pub track : pos 1 ≤ℤ c.finish_distance
  pub turtle_forward : pos 0 ≤ℤ c.tortoise_speed
  pub hare_forward : pos 0 ≤ℤ c.hare_speed

module _ {c : Config} (race : IsRace c) where
  turtle_action-OnTrack : {s : State} → OnTrack c s → OnTrack c (turtle_action c s)
  unfolding turtle_action ◌+ℤ◌
  turtle_action-OnTrack {s} v = record {
    turtle_from = ground (arith, race.turtle_forward, race.track);
    hare_from = ground arith;
    racing = λ r. ground (arith, v.racing);
    decided = λ d. ground (arith, v.racing, v.decided);
  }

  hare_work-OnTrack : {s : State} → s.no_winner ≡ true → OnTrack c s → OnTrack c (hare_work c s)
  unfolding hare_work ◌+ℤ◌
  hare_work-OnTrack {s} on v = record {
    turtle_from = ground arith;
    hare_from = ground (arith, race.hare_forward, race.track);
    racing = λ r. ground (arith, v.racing on);
    decided = λ d. ground (arith, v.racing on);
  }

  -- The sleep counter plays no part.
  OnTrack-counter :
      {s : State} (k : ℤ) → OnTrack c s → OnTrack c (record s { hare_sleep_counter = k })
  OnTrack-counter k v = record {
    turtle_from = v.turtle_from;
    hare_from = v.hare_from;
    racing = v.racing;
    decided = v.decided;
  }

  pub OnTrack-clock : {s : State} (k : ℤ) → OnTrack c s → OnTrack c (record s { clock_tick = k })
  OnTrack-clock k v = record {
    turtle_from = v.turtle_from;
    hare_from = v.hare_from;
    racing = v.racing;
    decided = v.decided;
  }

  OnTrack-pending :
      {s : State} (rs : List Repositioning) → OnTrack c s → OnTrack c (record s { pending = rs })
  OnTrack-pending rs v = record {
    turtle_from = v.turtle_from;
    hare_from = v.hare_from;
    racing = v.racing;
    decided = v.decided;
  }

  hare_awake-OnTrack : {s : State} → s.no_winner ≡ true → OnTrack c s → OnTrack c (hare_awake c s)
  unfolding hare_awake
  hare_awake-OnTrack {s} on v =
      elim (Bool-cases
        (ltb_ℤ c.hare_turtle_distance_for_sleep (s.hare_distance -ℤ s.turtle_distance))) [
          | inl sleeps ↦ rw sleeps (OnTrack-counter (pos 0) v)
          | inr works ↦ rw works (OnTrack-counter (pos 0) (hare_work-OnTrack on v))
        ]

  hare_action-OnTrack : {s : State} → OnTrack c s → OnTrack c (hare_action c s)
  unfolding hare_action
  hare_action-OnTrack {s} v =
      if_rule (OnTrack c) s.no_winner _ _
        (λ on.
          if_rule (OnTrack c) (eq_ℤ s.hare_sleep_counter c.hare_sleep_time) _ _
            (λ awake. hare_awake-OnTrack on v) (λ asleep. OnTrack-counter _ v))
        (λ off. v)

  reposition_hare-OnTrack :
      {s : State} (by : ℤ) → s.no_winner ≡ true → OnTrack c s → OnTrack c (reposition_hare c by s)
  unfolding reposition_hare ◌+ℤ◌
  reposition_hare-OnTrack {s} by on v = record {
    turtle_from = ground arith;
    hare_from = ground (arith, race.track);
    racing = λ r. ground (arith, v.racing on, race.track);
    decided = λ d. ground (arith, v.racing on);
  }

  reposition_turtle-OnTrack :
      {s : State} (by : ℤ) → s.no_winner ≡ true → OnTrack c s → OnTrack c (reposition_turtle c by s)
  unfolding reposition_turtle ◌+ℤ◌
  reposition_turtle-OnTrack {s} by on v = record {
    turtle_from = ground (arith, race.track);
    hare_from = ground arith;
    racing = λ r. ground (arith, v.racing on, race.track);
    decided = λ d. ground (arith, v.racing on);
  }

  apply_entry-OnTrack :
      {s : State} (r : Repositioning)
      → s.no_winner ≡ true
      → OnTrack c s
      → OnTrack c (apply_entry c r s)
  unfolding apply_entry
  apply_entry-OnTrack {s} r on v =
      if_rule (OnTrack c) (r.player == b'H') _ _ (λ hare. reposition_hare-OnTrack r.distance on v)
        (λ other.
          if_rule (OnTrack c) (r.player == b'T') _ _
            (λ turtle. reposition_turtle-OnTrack r.distance on v) (λ neither. v))

  -- The entry that is next, if there is one.
  entries-OnTrack :
      {s : State} (rs : List Repositioning)
      → s.no_winner ≡ true
      → OnTrack c s
      → OnTrack c (elim rs [
        | [] ↦ s
        | r ∷ rest ↦
            if eq_ℤ r.time s.clock_tick then record (apply_entry c r s) { pending = rest } else s
      ])
  entries-OnTrack [] on v = v
  entries-OnTrack {s} (r ∷ rest) on v =
      if_rule (OnTrack c) (eq_ℤ r.time s.clock_tick) _ _
        (λ due. OnTrack-pending rest (apply_entry-OnTrack r on v)) (λ later. v)

  pub randomizer_action-OnTrack : {s : State} → OnTrack c s → OnTrack c (randomizer_action c s)
  unfolding randomizer_action
  randomizer_action-OnTrack {s} v =
      if_rule (OnTrack c) s.no_winner _ _ (λ on. entries-OnTrack s.pending on v) (λ off. v)

  -- A round of the reporter keeps both players on the track, and names as the winner a player that is at
  -- its end.
  pub tick-OnTrack : {s : State} → OnTrack c s → OnTrack c (tick c s)
  unfolding tick
  tick-OnTrack v =
      hare_action-OnTrack (turtle_action-OnTrack (randomizer_action-OnTrack (OnTrack-clock _ v)))

  pub init_race-OnTrack : OnTrack c (init_race c)
  unfolding init_race
  init_race-OnTrack = record {
    turtle_from = omega arith;
    hare_from = omega arith;
    racing = λ r. ground (arith, race.track);
    decided = λ d. cc;
  }

  -- In a race that has been decided, the last wakeup of the turtle changes nothing: the branch for a
  -- tie never runs.
  pub turtle_action_decided :
      {s : State} → OnTrack c s → s.no_winner ≡ false → turtle_action c s ≡ s
  unfolding turtle_action
  turtle_action_decided {s} v off = ground (arith, v.decided off)

  race_loop-OnTrack :
      (fuel : ℕ) {s t : State}
      → OnTrack c s
      → race_loop c fuel s ≡ ended t
      → OnTrack c t × (t.no_winner ≡ false)
  unfolding race_loop
  race_loop-OnTrack zero v e = cc
  race_loop-OnTrack (suc fuel) {s} {t} v e = elim (Bool-cases s.no_winner) [
    | inl on ↦ race_loop-OnTrack fuel (tick-OnTrack v) (ground arith)
    | inr off ↦
        let same : s ≡ t = ground arith in
        subst (λ x. OnTrack c x × (x.no_winner ≡ false)) same (v, off)
  ]

  -- On a track of at least one unit, with speeds of the turtle and of the hare that are not negative:
  -- when the race ends, its winner is the turtle, at the end of the track with the hare before it, or
  -- the hare, at the end of the track with the turtle before it; whether or not the turtle is woken
  -- once more, the result is the same, so the branch that gives a tie to the turtle never decides.
  pub run_race-winner :
      (fuel : ℕ) (woken : Bool) {t : State}
      → run_race c fuel woken ≡ ended t
      → OnTrack c t × (t.no_winner ≡ false) × (race_loop c fuel (init_race c) ≡ ended t)
  unfolding run_race
  run_race-winner fuel woken {t} e = go (race_loop c fuel (init_race c)) refl e
    where
      go :
          (r : Finish)
          → race_loop c fuel (init_race c) ≡ r
          → (elim r [
            | out_of_fuel ↦ out_of_fuel
            | crashed ↦ crashed
            | ended s ↦ ended (if woken then turtle_action c s else s)
          ])
            ≡ ended t
          → OnTrack c t × (t.no_winner ≡ false) × (race_loop c fuel (init_race c) ≡ ended t)
      go out_of_fuel q e = cc
      go crashed q e = cc
      go (ended s) q e =
          let (v, off) = race_loop-OnTrack fuel init_race-OnTrack q in
          let same : s ≡ t = ground (arith, turtle_action_decided v off) in
          subst
            (λ x. OnTrack c x × (x.no_winner ≡ false) × (race_loop c fuel (init_race c) ≡ ended x))
            same (v, off, q)
