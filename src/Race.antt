-- ===== src/Race.antt =====
-- assignment-2/PA2_2020/3_race/hare_tortoise.c (the copy under assignment-2-Final has the same
-- statements, less the messages): the race of the tortoise and the hare. The reporter thread wakes the
-- randomizer, the turtle and the hare in turn, once for each tick of the clock, so a tick is the
-- composition of what the three threads do. `int` and `long` values are taken as integers.
pub mod Ending
pub mod Handshake
pub mod Runner
pub mod Schedule
mod Tests
pub mod Track
use decs.Base.Int.{ℤ, negsuc, ◌+ℤ◌, eq_ℤ, ltb_ℤ, pos, ◌-ℤ◌}
use decs.Base.{ℕ, if◌then◌else◌, Bool, List, true, not, false, ◌==◌, [], ◌&&◌, ◌∷◌, suc, zero}

-- `struct Repositioning`; a player is a character.
pub record Repositioning : Type 0 where
  pub player : ℕ
  pub time : ℤ
  pub distance : ℤ

-- `struct race`, with the array of `repositioning_count` elements as a list
pub record Config : Type 0 where
  pub printing_delay : ℤ
  pub tortoise_speed : ℤ
  pub hare_speed : ℤ
  pub hare_sleep_time : ℤ
  pub hare_turtle_distance_for_sleep : ℤ
  pub finish_distance : ℤ
  pub reposition : List Repositioning

-- The shared variables of the threads; `pending` is the array from `array_index` on.
pub record State : Type 0 where
  pub clock_tick : ℤ
  pub no_winner : Bool
  pub turtle_distance : ℤ
  pub hare_distance : ℤ
  pub hare_sleep_counter : ℤ
  pub overall_winner : ℕ
  pub pending : List Repositioning

-- What `init` and the start of the threads leave.
unfoldable pub init_race : Config → State
init_race c = record {
  clock_tick = negsuc 0;
  no_winner = true;
  turtle_distance = pos 0;
  hare_distance = pos 0;
  hare_sleep_counter = c.hare_sleep_time;
  overall_winner = b'-';
  pending = c.reposition;
}

abbrev pub geb_ℤ : ℤ → ℤ → Bool
geb_ℤ a b = not (ltb_ℤ a b)

-- `Turtle`, between its wakeup and its signal
unfoldable pub turtle_action : Config → State → State
turtle_action c s =
    let d = s.turtle_distance +ℤ c.tortoise_speed in
    if s.no_winner
    then if geb_ℤ d c.finish_distance
      then record s {
        turtle_distance = c.finish_distance;
        overall_winner = b'T';
        no_winner = false;
      }
      else record s { turtle_distance = d }
    else if s.overall_winner == b'H' && eq_ℤ s.hare_distance s.turtle_distance
    then record s { overall_winner = b'T' }
    else s

-- the hare works: it runs for one unit of time
unfoldable pub hare_work : Config → State → State
hare_work c s =
    let d = s.hare_distance +ℤ c.hare_speed in
    if geb_ℤ d c.finish_distance
    then record s { hare_distance = c.finish_distance; overall_winner = b'H'; no_winner = false }
    else record s { hare_distance = d }

-- The hare is awake: it works if its lead is at most the configured one, and in both cases begins to
-- count its sleep.
unfoldable pub hare_awake : Config → State → State
unfolding hare_work
hare_awake c s =
    let lead = s.hare_distance -ℤ s.turtle_distance in
    let s' = if not (ltb_ℤ c.hare_turtle_distance_for_sleep lead) then hare_work c s else s in
    record s' { hare_sleep_counter = pos 0 }

-- `Hare`, between its wakeup and its signal
unfoldable pub hare_action : Config → State → State
unfolding hare_awake
hare_action c s =
    if s.no_winner
    then if eq_ℤ s.hare_sleep_counter c.hare_sleep_time
      then hare_awake c s
      else record s { hare_sleep_counter = s.hare_sleep_counter +ℤ pos 1 }
    else s

unfoldable pub reposition_hare : Config → ℤ → State → State
reposition_hare c by s =
    let d = s.hare_distance +ℤ by in
    if ltb_ℤ d (pos 0)
    then record s { hare_distance = pos 0 }
    else if geb_ℤ d c.finish_distance
    then record s { hare_distance = c.finish_distance; overall_winner = b'H'; no_winner = false }
    else record s { hare_distance = d }

unfoldable pub reposition_turtle : Config → ℤ → State → State
reposition_turtle c by s =
    let d = s.turtle_distance +ℤ by in
    if ltb_ℤ d (pos 0)
    then record s { turtle_distance = pos 0 }
    else if geb_ℤ d c.finish_distance
    then record s { turtle_distance = c.finish_distance; overall_winner = b'T'; no_winner = false }
    else record s { turtle_distance = d }

-- the entry of the array whose time has come
unfoldable pub apply_entry : Config → Repositioning → State → State
unfolding reposition_hare reposition_turtle
apply_entry c r s =
    if r.player == b'H'
    then reposition_hare c r.distance s
    else if r.player == b'T'
    then reposition_turtle c r.distance s
    else s

-- `Randomizer`, between its wakeup and its signal
unfoldable pub randomizer_action : Config → State → State
unfolding apply_entry
randomizer_action c s =
    if s.no_winner
    then elim s.pending [
      | [] ↦ s
      | r ∷ rest ↦
          if eq_ℤ r.time s.clock_tick then record (apply_entry c r s) { pending = rest } else s
    ]
    else s

-- One round of the loop of `Report`: a tick, then the three threads in turn.
unfoldable pub tick : Config → State → State
unfolding turtle_action hare_action randomizer_action
tick c s =
    hare_action c
      (turtle_action c (randomizer_action c (record s { clock_tick = s.clock_tick +ℤ pos 1 })))

-- The end of the loop of `Report`. A printing delay of 0 divides by zero in `clock_tick %
-- printing_delay`.
pub data Finish : Type 0 where
  out_of_fuel crashed : Finish
  ended : State → Finish

-- `while (no_winner)` of `Report`
unfoldable pub race_loop : Config → ℕ → State → Finish
unfolding tick
race_loop c zero s = out_of_fuel
race_loop c (suc fuel) s =
    let rest = race_loop c fuel (tick c s) in
    if s.no_winner then if eq_ℤ c.printing_delay (pos 0) then crashed else rest else ended s

-- The state that `init` returns the winner of. After the loop the reporter wakes the turtle once more,
-- if the thread still waits: `woken` says whether it does.
unfoldable pub run_race : Config → ℕ → Bool → Finish
unfolding init_race race_loop
run_race c fuel woken =
    let last = race_loop c fuel (init_race c) in
    elim last [
      | out_of_fuel ↦ out_of_fuel
      | crashed ↦ crashed
      | ended s ↦ ended (if woken then turtle_action c s else s)
    ]
