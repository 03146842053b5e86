-- ===== src/Race/Runner.antt =====
-- assignment-2/PA2_2020/3_race/hare_tortoise_runner.c: the file of a race, and `main`.
use decs.Race.{Config, Repositioning, Finish, run_race, ended, out_of_fuel, crashed}
use decs.Base.Int.{ℤ, pos, negsuc}
use decs.Text.{scan_d, scan_c, Bytes, skip_spaces}
use decs.Base.{ℕ, refl, Option, List, some, none, [], suc, ◌∷◌, if◌then◌else◌, Bool, zero, ◌==◌}
pub mod RoundTrip
mod Tests

-- What `parseInput` comes to: its results, the return of -1 behind the message on the format, or a
-- write through the pointer of a `malloc` that failed.
pub data Result (A : Type 0) : Type 0 where
  ok : A → Result A
  wrong_format : Result A
  segfault : Result A

infixl 5 ◌>>=◌
abbrev pub ◌>>=◌ : {A B : Type 0} → Result A → (A → Result B) → Result B
ok a >>= f = f a
wrong_format >>= f = wrong_format
segfault >>= f = segfault

unfoldable pub stored : {A : Type 0} → Option A × Bytes → Result (A × Bytes)
stored (none, s) = wrong_format
stored (some a, s) = ok (a, s)

-- `fscanf(f, "%d\n", …) != 1`: the newline of the format passes over all spaces.
unfoldable pub field : Bytes → Result (ℤ × Bytes)
unfolding stored scan_d skip_spaces
field s = do r ← stored (scan_d s); ok (r.0, skip_spaces r.1)

-- `fscanf(f, "%c %d %d\n", …) != 3`
unfoldable pub read_entry : Bytes → Result (Repositioning × Bytes)
unfolding stored scan_c scan_d skip_spaces
read_entry s = do
  a ← stored (scan_c s)
  b ← stored (scan_d a.1)
  c ← stored (scan_d b.1)
  ok (record { player = a.0; time = b.0; distance = c.0 }, skip_spaces c.1)

unfoldable pub read_entries : ℕ → Bytes → Result (List Repositioning × Bytes)
unfolding read_entry
read_entries zero s = ok ([], s)
read_entries (suc n) s = read_entry s >>= λ a. read_entries n a.1 >>= λ b. ok (a.0 ∷ b.0, b.1)

-- A negative count is a size that `malloc` does not give and a bound that the loop does not reach: the
-- first character is written through NULL.
unfoldable pub read_array : ℤ → Bytes → Result (List Repositioning × Bytes)
unfolding read_entries
read_array (pos n) s = read_entries n s
read_array (negsuc n) [] = wrong_format
read_array (negsuc n) (c ∷ s) = segfault

-- `parseInput` on the text of the file, `none` if it cannot be opened: the race and `w`
unfoldable pub parse_input : Option Bytes → Result (Config × ℕ)
unfolding field read_array stored scan_c
parse_input none = wrong_format
parse_input (some text) = do
  a ← field text
  b ← field a.1
  c ← field b.1
  d ← field c.1
  e ← field d.1
  f ← field e.1
  g ← field f.1
  r ← read_array g.0 g.1
  w ← stored (scan_c r.1)
  ok (
    record {
      printing_delay = a.0;
      tortoise_speed = b.0;
      hare_speed = c.0;
      hare_sleep_time = d.0;
      hare_turtle_distance_for_sleep = e.0;
      finish_distance = f.0;
      reposition = r.0;
    },
    w.0,
  )

-- `"test-file="`
abbrev pub test_file : Bytes
test_file = b't' ∷ b'e' ∷ b's' ∷ b't' ∷ b'-' ∷ b'f' ∷ b'i' ∷ b'l' ∷ b'e' ∷ b'=' ∷ []

-- What follows the prefix, if the argument starts with it and is longer
unfoldable pub name_behind : Bytes → Bytes → Option Bytes
name_behind [] [] = none
name_behind [] (c ∷ s) = some (c ∷ s)
name_behind (p ∷ ps) [] = none
name_behind (p ∷ ps) (c ∷ s) = if c == p then name_behind ps s else none

-- The loop over the arguments: the last one counts.
unfoldable pub input_file_name : Option Bytes → List Bytes → Option Bytes
unfolding name_behind
input_file_name found [] = found
input_file_name found (a ∷ args) =
    input_file_name (elim (name_behind test_file a) [ none ↦ found | some n ↦ some n ]) args

-- What `main` prints last, or that it does not come so far
pub data Verdict : Type 0 where
  invalid_arguments : Verdict
  stopped : Verdict
  failed : Verdict
  correct : Verdict
  wrong : ℕ → ℕ → Verdict
  unfinished : Verdict

-- the comparison with the expected winner `w`
unfoldable pub judge : ℕ → Finish → Verdict
judge w out_of_fuel = unfinished
judge w crashed = failed
judge w (ended s) = if s.overall_winner == w then correct else wrong w s.overall_winner

unfoldable pub run_parsed : ℕ → Bool → Result (Config × ℕ) → Verdict
unfolding judge run_race
run_parsed fuel woken (ok (c, w)) = judge w (run_race c fuel woken)
run_parsed fuel woken wrong_format = stopped
run_parsed fuel woken segfault = failed

unfoldable pub run_file : (Bytes → Option Bytes) → ℕ → Bool → Option Bytes → Verdict
unfolding run_parsed parse_input
run_file files fuel woken none = invalid_arguments
run_file files fuel woken (some name) = run_parsed fuel woken (parse_input (files name))

-- `main`, with the files by name; the race takes fuel, and `woken` is as in `run_race`.
unfoldable pub main : (Bytes → Option Bytes) → List Bytes → ℕ → Bool → Verdict
unfolding run_file input_file_name
main files args fuel woken = run_file files fuel woken (input_file_name none args)
