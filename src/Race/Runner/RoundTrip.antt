-- ===== src/Race/Runner/RoundTrip.antt =====
-- hare_tortoise_runner.c: the text of a race is read as the race that it spells out.
use decs.Base.Int.{pos}
use decs.Race.Runner.{
  failed, field, stored, ok, read_entry, read_entries, parse_input, read_array, input_file_name,
  main, name_behind, run_file, run_parsed, test_file, judge, Verdict, correct, wrong, unfinished,
}
use decs.Race.{Repositioning, Config, run_race, Finish, ended, out_of_fuel, crashed, State}
use decs.Text.{Bytes, is_space, skip_spaces, is_digit, scan_d, scan_c}
use decs.Text.Numerals.{
  Literal, IsLiteral, literal_text, IsNumeral, literal_value, IsDigit, value, scan_d-literal_text,
  scan_d-append, scan_d_space, IsInt,
}
use decs.Base.{
  ℕ, refl, List, ◌∷◌, ◌++◌, ◌≡◌, Bool-cases, [], false, All, map, arith, inl, inr, length, some,
  ◌∙◌, Option, Bool, none, ◌↔◌, ◌≢◌,
}

-- A line of the array, with its numbers as they are written
pub record Entry : Type 0 where
  pub player : ℕ
  pub time : Literal
  pub distance : Literal

-- The text of a race: seven numbers, one on each line, the array and the expected winner
pub record Text : Type 0 where
  pub printing_delay : Literal
  pub tortoise_speed : Literal
  pub hare_speed : Literal
  pub hare_sleep_time : Literal
  pub hare_turtle_distance_for_sleep : Literal
  pub finish_distance : Literal
  pub repositioning_count : Bytes
  pub entries : List Entry
  pub winner : ℕ

unfoldable pub entry_text : Entry → Bytes → Bytes
entry_text e rest =
    e.player ∷ b' ' ∷ literal_text e.time (b' ' ∷ literal_text e.distance (10 ∷ rest))

unfoldable pub entries_text : List Entry → Bytes → Bytes
unfolding entry_text
entries_text [] rest = rest
entries_text (e ∷ es) rest = entry_text e (entries_text es rest)

unfoldable pub line : Literal → Bytes → Bytes
line l rest = literal_text l (10 ∷ rest)

unfoldable pub race_text : Text → Bytes
unfolding line entries_text
race_text t = line t.printing_delay (
    line t.tortoise_speed (
      line t.hare_speed (
        line t.hare_sleep_time (
          line t.hare_turtle_distance_for_sleep (
            line t.finish_distance
              (t.repositioning_count ++ 10 ∷ entries_text t.entries (t.winner ∷ 10 ∷ [])))))))

-- A player is a character that is no space; a number fits an `int`.
abbrev pub IsEntry : Entry → Type 0
IsEntry e = (is_space e.player ≡ false) × IsInt e.time.digits × IsInt e.distance.digits

pub record IsText (t : Text) : Type 0 where
  pub delay : IsInt t.printing_delay.digits
  pub tortoise : IsInt t.tortoise_speed.digits
  pub hare : IsInt t.hare_speed.digits
  pub sleep : IsInt t.hare_sleep_time.digits
  pub lead : IsInt t.hare_turtle_distance_for_sleep.digits
  pub finish : IsInt t.finish_distance.digits
  pub count : IsInt t.repositioning_count
  pub all_entries : All IsEntry t.entries
  pub no_space : is_space t.winner ≡ false
  pub counted : value t.repositioning_count ≡ length t.entries

unfoldable pub entry_of : Entry → Repositioning
entry_of e = record {
  player = e.player;
  time = literal_value e.time;
  distance = literal_value e.distance;
}

unfoldable pub config_of : Text → Config
unfolding entry_of
config_of t = record {
  printing_delay = literal_value t.printing_delay;
  tortoise_speed = literal_value t.tortoise_speed;
  hare_speed = literal_value t.hare_speed;
  hare_sleep_time = literal_value t.hare_sleep_time;
  hare_turtle_distance_for_sleep = literal_value t.hare_turtle_distance_for_sleep;
  finish_distance = literal_value t.finish_distance;
  reposition = map entry_of t.entries;
}

-- The text does not start with a space.
abbrev Tight : Bytes → Type 0
Tight s = skip_spaces s ≡ s

Tight-char : (c : ℕ) (s : Bytes) → is_space c ≡ false → Tight (c ∷ s)
unfolding skip_spaces
Tight-char c s h = rw h refl

skip_newline : (s : Bytes) → skip_spaces (10 ∷ s) ≡ skip_spaces s
unfolding skip_spaces is_space
skip_newline s = refl

no_space : (d : ℕ) → IsDigit d → is_space d ≡ false
unfolding is_digit is_space
no_space d h = ground (arith, h)

numeral-Tight : (ds rest : Bytes) → IsNumeral ds → Tight (ds ++ rest)
numeral-Tight [] rest h = ground (arith, h.0)
numeral-Tight (d ∷ ds) rest h = Tight-char d (ds ++ rest) (no_space d h.1.0)

literal_text-Tight : (l : Literal) (rest : Bytes) → IsLiteral l → Tight (literal_text l rest)
unfolding literal_text is_space
literal_text-Tight l rest h = elim (Bool-cases l.negative) [
  | inl e ↦ rw e (Tight-char b'-' (l.digits ++ rest) refl)
  | inr e ↦ rw e (numeral-Tight l.digits rest h)
]

line-Tight : (l : Literal) (rest : Bytes) → IsLiteral l → Tight (line l rest)
unfolding line
line-Tight l rest h = literal_text-Tight l (10 ∷ rest) h

field-line :
    (l : Literal) (rest : Bytes)
    → IsLiteral l
    → Tight rest
    → field (line l rest) ≡ ok (literal_value l, rest)
unfolding field line stored is_digit
field-line l rest h t = rw (scan_d-literal_text l 10 rest h refl, skip_newline rest, t) refl

field-numeral :
    (ds rest : Bytes)
    → IsNumeral ds
    → Tight rest
    → field (ds ++ 10 ∷ rest) ≡ ok (pos (value ds), rest)
unfolding field stored is_digit
field-numeral ds rest h t = rw (scan_d-append ds 10 rest h refl, skip_newline rest, t) refl

scan_d_blank :
    (l : Literal) (c : ℕ) (rest : Bytes)
    → IsLiteral l
    → is_digit c ≡ false
    → scan_d (b' ' ∷ literal_text l (c ∷ rest)) ≡ (some (literal_value l), c ∷ rest)
unfolding is_space
scan_d_blank l c rest h e = scan_d_space b' ' _ refl ∙ scan_d-literal_text l c rest h e

read_entry-entry_text :
    (e : Entry) (rest : Bytes)
    → IsEntry e
    → Tight rest
    → read_entry (entry_text e rest) ≡ ok (entry_of e, rest)
unfolding read_entry entry_text entry_of stored scan_c is_digit
read_entry-entry_text e rest h t =
    rw
      (
        scan_d_blank e.time b' ' (literal_text e.distance (10 ∷ rest)) h.1.0 refl,
        scan_d_blank e.distance 10 rest h.2.0 refl,
        skip_newline rest,
        t,
      )
      refl

entries_text-Tight :
    (es : List Entry) (rest : Bytes) → All IsEntry es → Tight rest → Tight (entries_text es rest)
unfolding entries_text entry_text
entries_text-Tight [] rest h t = t
entries_text-Tight (e ∷ es) rest h t = Tight-char e.player _ h.0.0

read_entries-entries_text :
    (es : List Entry) (rest : Bytes)
    → All IsEntry es
    → Tight rest
    → read_entries (length es) (entries_text es rest) ≡ ok (map entry_of es, rest)
unfolding read_entries entries_text
read_entries-entries_text [] rest h t = refl
read_entries-entries_text (e ∷ es) rest h t =
    rw
      (
        read_entry-entry_text e (entries_text es rest) h.0 (entries_text-Tight es rest h.1 t),
        read_entries-entries_text es rest h.1 t,
      )
      refl

-- `parseInput` reads the text of a race as the race that it spells out, and the expected winner: where
-- the count is the number of entries, and the players and the winner are no spaces.
pub parse_input-race_text :
    (t : Text) → IsText t → parse_input (some (race_text t)) ≡ ok (config_of t, t.winner)
unfolding parse_input race_text config_of read_array stored scan_c
parse_input-race_text t p =
    let last = t.winner ∷ 10 ∷ [] in
    let tight : Tight last = Tight-char t.winner (10 ∷ []) p.no_space in
    let body = entries_text t.entries last in
    let t7 : Tight body = entries_text-Tight t.entries last p.all_entries tight in
    let r6 = t.repositioning_count ++ 10 ∷ body in
    let t6 : Tight r6 = numeral-Tight t.repositioning_count (10 ∷ body) p.count.0 in
    let r5 = line t.finish_distance r6 in
    let r4 = line t.hare_turtle_distance_for_sleep r5 in
    let r3 = line t.hare_sleep_time r4 in
    let r2 = line t.hare_speed r3 in
    let r1 = line t.tortoise_speed r2 in
    rw
      (
        field-line t.printing_delay r1 p.delay.0 (line-Tight t.tortoise_speed r2 p.tortoise.0),
        field-line t.tortoise_speed r2 p.tortoise.0 (line-Tight t.hare_speed r3 p.hare.0),
        field-line t.hare_speed r3 p.hare.0 (line-Tight t.hare_sleep_time r4 p.sleep.0),
        field-line t.hare_sleep_time r4 p.sleep.0
            (line-Tight t.hare_turtle_distance_for_sleep r5 p.lead.0),
        field-line t.hare_turtle_distance_for_sleep r5 p.lead.0
            (line-Tight t.finish_distance r6 p.finish.0),
        field-line t.finish_distance r6 p.finish.0 t6,
        field-numeral t.repositioning_count body p.count.0 t7,
        p.counted,
        read_entries-entries_text t.entries last p.all_entries tight,
      )
      refl

-- The last `test-file=` argument names the file.
input_file_name-last :
    (args : List Bytes) (found : Option Bytes) (c : ℕ) (name : Bytes)
    → input_file_name found (args ++ (test_file ++ c ∷ name) ∷ []) ≡ some (c ∷ name)
unfolding input_file_name name_behind
input_file_name-last [] found c name = refl
input_file_name-last (a ∷ args) found c name = input_file_name-last args _ c name

-- What the comparison of the expected winner `w` with the end of a race says, with no reference to how
-- it is computed; `b` is any player.
abbrev pub Says : ℕ → ℕ → Finish → Verdict → Type 0
Says w b r v =
    ((v ≡ correct) ↔ ((s : State) × (r ≡ ended s) × (s.overall_winner ≡ w)))
    × ((v ≡ wrong w b) ↔ ((s : State) × (r ≡ ended s) × (s.overall_winner ≡ b) × (b ≢ w)))
    × ((v ≡ unfinished) ↔ (r ≡ out_of_fuel))
    × ((v ≡ failed) ↔ (r ≡ crashed))

judge-Says : (w b : ℕ) (r : Finish) → Says w b r (judge w r)
unfolding judge
judge-Says w b out_of_fuel = (
  (λ e. absurd (ground arith), λ (s, e, h). absurd (ground arith)),
  (λ e. absurd (ground arith), λ (s, e, h, k). absurd (ground arith)),
  (λ e. refl, λ e. refl),
  (λ e. absurd (ground arith), λ e. absurd (ground arith)),
)
judge-Says w b crashed = (
  (λ e. absurd (ground arith), λ (s, e, h). absurd (ground arith)),
  (λ e. absurd (ground arith), λ (s, e, h, k). absurd (ground arith)),
  (λ e. absurd (ground arith), λ e. absurd (ground arith)),
  (λ e. refl, λ e. refl),
)
judge-Says w b (ended s) = (
  (λ e. (s, refl, ground arith), λ (t, e, h). ground arith),
  (λ e. (s, refl, ground arith, ground arith), λ (t, e, h, k). ground arith),
  (λ e. absurd (ground arith), λ e. absurd (ground arith)),
  (λ e. absurd (ground arith), λ e. absurd (ground arith)),
)

-- `main`, called with a last argument that names a file with the text of a race, whose numbers fit an
-- `int`, whose players and winner are no spaces and whose count is the number of its entries: it says
-- "correct" exactly if the race that the text spells out ends with the winner of the text; it says that
-- the winner should have been that of the text and was `b` exactly if the race ends with `b` and they
-- differ; it is not done exactly if the race is out of fuel, and fails exactly if the race fails.
pub main-race_text :
    (files : Bytes → Option Bytes) (args : List Bytes) (c : ℕ) (name : Bytes) (t : Text) (fuel : ℕ)
    (woken : Bool) (b : ℕ)
    → IsText t
    → files (c ∷ name) ≡ some (race_text t)
    → Says t.winner b
        (run_race (config_of t) fuel woken)
        (main files (args ++ (test_file ++ c ∷ name) ∷ []) fuel woken)
unfolding main run_file run_parsed
main-race_text files args c name t fuel woken b p there =
    rw (input_file_name-last args none c name, there, parse_input-race_text t p)
      (judge-Says t.winner b (run_race (config_of t) fuel woken))
