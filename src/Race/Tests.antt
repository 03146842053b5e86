-- ===== src/Race/Tests.antt =====
-- The theorems on the race at 3_race/Testcases/test1.txt, and runs of the reporter.
use decs.Race.Ending.{run_race_total}
use decs.Race.Schedule.{ticks, hare_sleeps, past_entry_blocks}
use decs.Race.Track.{IsRace, OnTrack, run_race-winner}
use decs.Race.{
  Config, run_race, State, Repositioning, init_race, tick, hare_awake, race_loop, ended,
}
use decs.Base.Int.{ℤ, pos, ◌+ℤ◌, ◌-ℤ◌, negsuc}
use decs.Base.{ℕ, refl, arith, ◌≡◌, false, ◌∷◌, [], true}

abbrev entry : ℕ → ℕ → ℤ → Repositioning
entry player time distance = record { player = player; time = pos time; distance = distance }

-- Testcases/test1.txt, with a shorter track and smaller moves
abbrev short_race : Config
short_race = record {
  printing_delay = pos 10;
  tortoise_speed = pos 2;
  hare_speed = pos 9;
  hare_sleep_time = pos 3;
  hare_turtle_distance_for_sleep = pos 10;
  finish_distance = pos 40;
  reposition = entry b'T' 3 (pos 5) ∷ entry b'H' 6 (negsuc 9) ∷ [];
}

-- A second entry for tick 3, which is never applied.
abbrev blocked_race : Config
blocked_race = record short_race {
  reposition = entry b'T' 3 (pos 5) ∷ entry b'H' 3 (negsuc 9) ∷ [];
}

short_race-IsRace : IsRace short_race
short_race-IsRace = omega arith

short_race_end :
    (t : State) × (run_race short_race 100 true ≡ ended t)
    × (t.overall_winner ≡ b'T')
    × (t.clock_tick ≡ pos 17)
unfolding run_race ◌+ℤ◌ ◌-ℤ◌
short_race_end = (_, refl, refl, refl)

run_race-winner_example :
    OnTrack short_race short_race_end.0
    × (short_race_end.0.no_winner ≡ false)
    × (race_loop short_race 100 (init_race short_race) ≡ ended short_race_end.0)
run_race-winner_example = run_race-winner short_race-IsRace 100 true short_race_end.1

run_race_total_example : (t : State) × (run_race short_race 123 false ≡ ended t)
run_race_total_example =
    run_race_total short_race-IsRace refl (omega arith) 123 false refl (omega arith)

-- the race after four rounds, at tick 3
abbrev after_first : State
after_first = ticks blocked_race 4 (init_race blocked_race)

after_first_pending :
    (after_first.pending ≡ entry b'H' 3 (negsuc 9) ∷ []) × (after_first.clock_tick ≡ pos 3)
unfolding ticks tick init_race ◌+ℤ◌ ◌-ℤ◌
after_first_pending = (refl, refl)

past_entry_blocks_example :
    (ticks blocked_race 50 after_first).pending ≡ entry b'H' 3 (negsuc 9) ∷ []
past_entry_blocks_example =
    past_entry_blocks blocked_race 50 after_first (entry b'H' 3 (negsuc 9)) [] after_first_pending.0
      (rw after_first_pending.1 (omega arith))

abbrev no_entries : State
no_entries = record (init_race short_race) { pending = [] }

hare_sleeps_example :
    (ticks short_race 3 (hare_awake short_race no_entries)).hare_distance
    ≡ (hare_awake short_race no_entries).hare_distance
hare_sleeps_example = hare_sleeps short_race 3 3 no_entries refl refl (omega arith)
