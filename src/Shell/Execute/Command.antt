-- ===== src/Shell/Execute/Command.antt =====
-- assignment 1/myshell.c: `executeCommand`, from the string to the system calls.
use decs.Shell.Execute.Pipe.{PipedRun, Command, run_piped}
use decs.Shell.Strings.{strtok, Str}
use decs.Shell.Tokens.{
  FileName, check_io_parser, Parsed, parsed, named, undefined_read, no_file, never_set, Tokens,
}
use decs.Shell.Commands.{file_double_quotes_removal, double_quotes_removal_from_tokens}
use decs.Shell.Execute.{Run, run_tokens, Host, File}
use decs.Base.{
  ℕ, Bool, List, Option, false, some, true, [], none, if◌then◌else◌, not, ◌&&◌, ◌∷◌, ◌||◌,
}

-- `'|'`
abbrev pub bar : ℕ
bar = 124

-- What a call of `executeCommand` comes to. `undefined` stands for a read of an indeterminate pointer or
-- outside of a string.
pub data Outcome : Type 0 where
  undefined : Outcome
  illegal : Outcome
  ran : Run → Outcome
  ran_piped : PipedRun → Outcome

unfoldable pub file_of : FileName → Option File
file_of no_file = some none
file_of (named f) = some (some f)
file_of undefined_read = none

unfoldable pub command_of : Option (List Str) → Option File → Option File → Option Command
command_of none i o = none
command_of (some args) none o = none
command_of (some args) (some i) none = none
command_of (some args) (some i) (some o) = some (record { arguments = args; input = i; output = o })

-- The removal of the quotes; an array without a NULL is read beyond its end.
unfoldable pub unquote : Tokens → FileName → FileName → Option Command
unfolding command_of file_of double_quotes_removal_from_tokens file_double_quotes_removal
unquote tokens input output =
    if not tokens.ended
    then none
    else command_of (double_quotes_removal_from_tokens tokens.list)
        (file_of (file_double_quotes_removal input)) (file_of (file_double_quotes_removal output))

unfoldable pub defined_file : FileName → Bool
defined_file undefined_read = false
defined_file no_file = true
defined_file (named f) = true

unfoldable pub is_empty : Tokens → Bool
is_empty tokens = elim tokens.list [ [] ↦ true | w ∷ ws ↦ false ]

unfoldable pub run_command : Host → Option Command → Outcome
unfolding run_tokens
run_command h none = undefined
run_command h (some c) = ran (run_tokens h c.arguments c.input c.output)

unfoldable pub run_commands : Host → Option Command → Option Command → Outcome
unfolding run_piped
run_commands h none c2 = undefined
run_commands h (some c1) none = undefined
run_commands h (some c1) (some c2) = ran_piped (run_piped h c1 c2)

-- `executeCommand` behind `checkIOParser`, without a pipe
unfoldable pub run_parsed : Host → Parsed → Outcome
unfolding defined_file is_empty run_command unquote
run_parsed h never_set = undefined
run_parsed h (parsed tokens input output) =
    if not (defined_file input && defined_file output)
    then undefined
    else if is_empty tokens
    then illegal
    else run_command h (unquote tokens input output)

-- and with one
unfoldable pub run_both : Host → Parsed → Parsed → Outcome
unfolding defined_file is_empty run_commands unquote
run_both h never_set q = undefined
run_both h (parsed tokens1 input1 output1) never_set = undefined
run_both h (parsed tokens1 input1 output1) (parsed tokens2 input2 output2) =
    if not
      (defined_file input1 && defined_file output1 && defined_file input2 && defined_file output2)
    then undefined
    else if is_empty tokens1 || is_empty tokens2
    then illegal
    else run_commands h (unquote tokens1 input1 output1) (unquote tokens2 input2 output2)

-- the parts that the two calls of `strtok` give
unfoldable pub run_parts : Host → Option Str → Option Str → Outcome
unfolding run_parsed run_both check_io_parser
run_parts h none str2 = run_parsed h (check_io_parser none)
run_parts h (some str1) none = run_parsed h (check_io_parser (some str1))
run_parts h (some str1) (some str2) =
    run_both h (check_io_parser (some str1)) (check_io_parser (some str2))

unfoldable pub execute_command : Host → Str → Outcome
unfolding run_parts strtok
execute_command h str = let a = strtok bar (some str) [] in run_parts h a.0 (strtok bar none a.1).0
