-- ===== src/Race/Runner/Tests.antt =====
-- hare_tortoise_runner.c: the text of a race with one entry.
use decs.Base.Int.{◌+ℤ◌, ◌-ℤ◌}
use decs.Text.{is_digit, Bytes, is_space}
use decs.Base.{ℕ, refl, ◌≡◌, false, ◌++◌, ◌∷◌, Option, [], some, true, arith}
use decs.Race.{run_race}
use decs.Race.Runner.{main, judge, test_file, correct}
use decs.Race.Runner.RoundTrip.{main-race_text, Text, IsText, race_text, config_of, Says}
use decs.Text.Numerals.{Literal, literal_value, value, spell}

abbrev number : ℕ → Literal
number d = record { negative = false; digits = d ∷ [] }

abbrev short_text : Text
short_text = record {
  printing_delay = number b'9';
  tortoise_speed = number b'2';
  hare_speed = number b'5';
  hare_sleep_time = number b'3';
  hare_turtle_distance_for_sleep = number b'6';
  finish_distance = record { negative = false; digits = b'4' ∷ b'0' ∷ [] };
  repositioning_count = b'1' ∷ [];
  entries =
      record {
        player = b'T';
        time = number b'3';
        distance = record { negative = true; digits = b'5' ∷ [] };
      }
      ∷ [];
  winner = b'T';
}

short_text-IsText : IsText short_text
unfolding is_digit is_space value spell
short_text-IsText = record {
  delay = ((omega arith, (refl, tt)), omega arith);
  tortoise = ((omega arith, (refl, tt)), omega arith);
  hare = ((omega arith, (refl, tt)), omega arith);
  sleep = ((omega arith, (refl, tt)), omega arith);
  lead = ((omega arith, (refl, tt)), omega arith);
  finish = ((omega arith, (refl, (refl, tt))), omega arith);
  count = ((omega arith, (refl, tt)), omega arith);
  all_entries = (
    (refl, ((omega arith, (refl, tt)), omega arith), ((omega arith, (refl, tt)), omega arith)),
    tt,
  );
  no_space = refl;
  counted = refl;
}

-- one file, whose name is "r"
abbrev one_file : Bytes → Option Bytes
one_file name = some (race_text short_text)

main-race_text_example :
    Says b'T' b'H'
      (run_race (config_of short_text) 100 true)
      (main one_file ((test_file ++ b'r' ∷ []) ∷ []) 100 true)
main-race_text_example =
    main-race_text one_file [] b'r' [] short_text 100 true b'H' short_text-IsText refl

-- The tortoise wins as the file says.
short_text_verdict : judge b'T' (run_race (config_of short_text) 100 true) ≡ correct
unfolding judge run_race config_of literal_value value spell ◌+ℤ◌ ◌-ℤ◌
short_text_verdict = refl
