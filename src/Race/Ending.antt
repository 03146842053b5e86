-- ===== src/Race/Ending.antt =====
-- hare_tortoise.c: a race with a turtle that moves comes to an end, and how soon.
use decs.Base.Int.{pos, ◌≤ℤ◌, pos_part, ◌+ℤ◌, eq_ℤ}
use decs.Race.Track.{
  IsRace, OnTrack, randomizer_action-OnTrack, OnTrack-clock, init_race-OnTrack, tick-OnTrack,
}
use decs.Race.{
  State, Config, hare_action, turtle_action, apply_entry, randomizer_action, tick, hare_awake,
  Repositioning, hare_work, race_loop, run_race, ended, init_race,
}
use decs.Base.{
  ℕ, refl, length, ◌*◌, ◌≡◌, ◌+◌, ◌-◌, List, ◌≤◌, true, arith, if_rule, [], ◌∷◌, ◌<◌, if◌then◌else◌,
  suc, ap, false, Bool, Bool-cases, inr, inl, zero,
}

-- The rounds that are left: each entry of the array can set the turtle back to the start once, and each
-- round without an entry moves it on.
unfoldable pub rounds_left : ℕ → State → ℕ
rounds_left f s = length s.pending * (f + 1) + (f - pos_part s.turtle_distance)

module _ {c : Config} {f : ℕ} (race : IsRace c) (track : c.finish_distance ≡ pos f)
    (moves : pos 1 ≤ℤ c.tortoise_speed) where
  hare_action_keeps :
      (s : State)
      → ((hare_action c s).turtle_distance ≡ s.turtle_distance)
        × ((hare_action c s).pending ≡ s.pending)
        × ((hare_action c s).no_winner ≡ true → s.no_winner ≡ true)
  unfolding hare_action hare_awake hare_work
  hare_action_keeps s = ground arith

  turtle_action_moves :
      {s : State}
      → OnTrack c s
      → s.no_winner ≡ true
      → (turtle_action c s).no_winner ≡ true
      → rounds_left f (turtle_action c s) + 1 ≤ rounds_left f s
  unfolding turtle_action rounds_left ◌+ℤ◌
  turtle_action_moves {s} v on still = ground (arith, v.racing on)

  apply_entry_keeps : (s : State) (r : Repositioning) → (apply_entry c r s).pending ≡ s.pending
  unfolding apply_entry
  apply_entry_keeps s r = ground arith

  entries_left :
      (s : State) (rs : List Repositioning)
      → s.pending ≡ rs
      → rounds_left f (elim rs [
        | [] ↦ s
        | r ∷ rest ↦
            if eq_ℤ r.time s.clock_tick then record (apply_entry c r s) { pending = rest } else s
      ])
        ≤ rounds_left f s
  unfolding rounds_left
  entries_left s [] e = omega arith
  entries_left s (r ∷ rest) e =
      if_rule (λ t. rounds_left f t ≤ rounds_left f s) (eq_ℤ r.time s.clock_tick) _ _
        (λ due.
          let count : length s.pending ≡ suc (length rest) = ap length e in rw count (omega arith))
        (λ later. omega arith)

  randomizer_action_left : (s : State) → rounds_left f (randomizer_action c s) ≤ rounds_left f s
  unfolding randomizer_action
  randomizer_action_left s =
      if_rule (λ t. rounds_left f t ≤ rounds_left f s) s.no_winner _ _
        (λ on. entries_left s s.pending refl) (λ off. omega arith)

  hare_action_left : (s : State) → rounds_left f (hare_action c s) ≡ rounds_left f s
  unfolding rounds_left
  hare_action_left s = let (turtle, pending, on) = hare_action_keeps s in rw (turtle, pending)

  turtle_action_on : (s : State) → (turtle_action c s).no_winner ≡ true → s.no_winner ≡ true
  unfolding turtle_action
  turtle_action_on s on = ground arith

  -- A round that begins and ends without a winner leaves fewer rounds.
  tick_left :
      {s : State}
      → OnTrack c s
      → (tick c s).no_winner ≡ true
      → rounds_left f (tick c s) < rounds_left f s
  unfolding tick
  tick_left {s} v still =
      let a : State = record s { clock_tick = s.clock_tick +ℤ pos 1 } in
      let b = randomizer_action c a in
      let e = turtle_action c b in
      let vb = randomizer_action-OnTrack race (OnTrack-clock race (s.clock_tick +ℤ pos 1) v) in
      let still_e : e.no_winner ≡ true = (hare_action_keeps e).2 still in
      let moved = turtle_action_moves vb (turtle_action_on b still_e) still_e in
      let same : rounds_left f a ≡ rounds_left f s = unfold rounds_left in refl in
      omega (arith, hare_action_left e, moved, randomizer_action_left a, same)

  some_left : {s : State} → OnTrack c s → s.no_winner ≡ true → 0 < rounds_left f s
  unfolding rounds_left
  some_left {s} v on = ground (arith, v.racing on)

  race_loop_decided :
      (fuel : ℕ) (s : State) → 0 < fuel → s.no_winner ≡ false → race_loop c fuel s ≡ ended s
  unfolding race_loop
  race_loop_decided zero s enough off = absurd (omega arith)
  race_loop_decided (suc fuel) s enough off = ground arith

  race_loop_total :
      (fuel : ℕ) {s : State}
      → eq_ℤ c.printing_delay (pos 0) ≡ false
      → OnTrack c s
      → rounds_left f s < fuel
      → (t : State) × (race_loop c fuel s ≡ ended t)
  unfolding race_loop
  race_loop_total zero prints v enough = absurd (omega arith)
  race_loop_total (suc fuel) {s} prints v enough = elim (Bool-cases s.no_winner) [
    | inr off ↦ (s, ground arith)
    | inl on ↦ elim (Bool-cases (tick c s).no_winner) [
      | inl still ↦
          let (t, e) =
            race_loop_total fuel prints (tick-OnTrack race v) (omega (arith, tick_left v still)) in
          (t, ground arith)
      | inr won ↦ (
        tick c s,
        ground (arith, race_loop_decided fuel (tick c s) (omega (arith, some_left v on)) won),
      )
    ]
  ]

  -- With a turtle that moves at least one unit a round, a hare whose speed is not negative, a printing
  -- delay other than 0 and a track of `f` units, at least one, the race ends: with fuel for
  -- `(entries + 1) * (f + 1)` rounds the reporter's loop comes to its end, whatever the entries are.
  pub run_race_total :
      (fuel : ℕ) (woken : Bool)
      → eq_ℤ c.printing_delay (pos 0) ≡ false
      → (length c.reposition + 1) * (f + 1) ≤ fuel
      → (t : State) × (run_race c fuel woken ≡ ended t)
  unfolding run_race
  run_race_total fuel woken prints enough =
      let bound : rounds_left f (init_race c) < fuel =
        unfold init_race rounds_left in omega arith in
      let (t, e) = race_loop_total fuel prints (init_race-OnTrack race) bound in
      (if woken then turtle_action c t else t, rw (e, run_race))
