-- ===== src/Shell/Tokens.antt =====
-- assignment 1/myshell.c, the parsing of a command: its words, and the files it is redirected to.
use decs.Base.Words.{to_int}
use decs.Base.Int.{ltb_ℤ, pos}
use decs.Shell.Strings.{Str, before, same, strtok, strrchr, behind}
use decs.Base.{
  ℕ, refl, List, Option, Bool, ◌∷◌, none, some, [], length, suc, false, ◌+◌, if◌then◌else◌, true,
  zero, ◌^◌, ◌-◌, ◌%◌,
}
pub mod Forms
pub mod Splitting
pub mod Redirection

-- `' '`, `'<'` and `'>'`
abbrev pub space : ℕ
space = 32

abbrev pub less : ℕ
less = 60

abbrev pub greater : ℕ
greater = 62

-- `char *str1Tokens[200]` after `removeSpacesAndCreateTokens`: the words, and whether a NULL stands
-- behind them.
pub record Tokens : Type 0 where
  pub list : List Str
  pub ended : Bool

unfoldable pub cons_token : Str → Tokens → Tokens
cons_token w r = record { list = w ∷ r.list; ended = r.ended }

-- The loop of `removeSpacesAndCreateTokens` with `room` entries of the array left: an empty field is
-- overwritten by the next. Each call of `strsep` takes one unit of `fuel`.
unfoldable pub fill_tokens : ℕ → ℕ → Option Str → Tokens
unfolding before behind cons_token
fill_tokens zero room s = record { list = []; ended = false }
fill_tokens (suc fuel) zero s = record { list = []; ended = false }
fill_tokens (suc fuel) (suc room) none = record { list = []; ended = true }
fill_tokens (suc fuel) (suc room) (some s) = elim (before space s) [
  | [] ↦ fill_tokens fuel (suc room) (behind space s)
  | c ∷ w ↦ cons_token (c ∷ w) (fill_tokens fuel room (behind space s))
]

-- as many calls of `strsep` as the string can need
unfoldable pub calls : Option Str → ℕ
calls none = 1
calls (some s) = length s + 2

unfoldable pub remove_spaces_and_create_tokens : Option Str → Tokens
unfolding fill_tokens calls
remove_spaces_and_create_tokens s = fill_tokens (calls s) 200 s

-- The loop of `fileRemoveSpacesAndCreateTokens` on a token and what `strtok` left; `none` stands for
-- the `strcmp` on NULL.
unfoldable pub pass_spaces : ℕ → Option Str × Str → Option Str
unfolding same strtok
pass_spaces zero r = none
pass_spaces (suc fuel) (none, saved) = none
pass_spaces (suc fuel) (some f, saved) =
    let next = pass_spaces fuel (strtok space none saved) in
    if same f (space ∷ []) then next else some f

-- What `fileRemoveSpacesAndCreateTokens` makes of one of the two strings: NULL stays NULL, and
-- `undefined_read` stands for the `strcmp` on NULL, or later for a search that leaves the string.
pub data FileName : Type 0 where
  no_file : FileName
  named : Str → FileName
  undefined_read : FileName

unfoldable pub name_or_fault : Option Str → FileName
name_or_fault none = undefined_read
name_or_fault (some f) = named f

unfoldable pub file_name : Option Str → FileName
unfolding name_or_fault pass_spaces strtok
file_name none = no_file
file_name (some t) = name_or_fault (pass_spaces (suc (length t)) (strtok space (some t) []))

-- `str1Tokens` and `file` after `checkIOParser`; with a NULL for the command the array keeps its
-- indeterminate contents.
pub data Parsed : Type 0 where
  never_set : Parsed
  parsed : Tokens → FileName → FileName → Parsed

unfoldable pub tokenize_commands_and_arguments : Option Str → Option Str → Option Str → Parsed
unfolding remove_spaces_and_create_tokens file_name
tokenize_commands_and_arguments command input output =
    parsed (remove_spaces_and_create_tokens command) (file_name input) (file_name output)

-- `strlen(out_checker) - strlen(in_checker)`, as an `int`, is positive
unfoldable pub output_comes_first : Str → Str → Bool
output_comes_first i o = ltb_ℤ (pos 0) (to_int ((length o + (2 ^ 64 - length i)) % 2 ^ 64))

-- The branches of `checkIOParser` for the results of the two calls of `strrchr`
unfoldable pub redirect : Str → Option Str → Option Str → Parsed
unfolding strtok tokenize_commands_and_arguments output_comes_first
redirect s none none = tokenize_commands_and_arguments (some s) none none
redirect s (some i) none =
    let a = strtok less (some s) [] in
    tokenize_commands_and_arguments a.0 (strtok less none a.1).0 none
redirect s none (some o) =
    let a = strtok greater (some s) [] in
    tokenize_commands_and_arguments a.0 none (strtok greater none a.1).0
redirect s (some i) (some o) =
    if output_comes_first i o
    then (let a = strtok greater (some s) [] in
        let temp = strtok greater none a.1 in
        let b = strtok less temp.0 temp.1 in
        tokenize_commands_and_arguments a.0 (strtok less none b.1).0 b.0)
    else (let a = strtok less (some s) [] in
        let temp = strtok less none a.1 in
        let b = strtok greater temp.0 temp.1 in
        tokenize_commands_and_arguments a.0 b.0 (strtok greater none b.1).0)

unfoldable pub check_io_parser : Option Str → Parsed
unfolding redirect strrchr
check_io_parser none = never_set
check_io_parser (some s) = redirect s (strrchr less s) (strrchr greater s)
