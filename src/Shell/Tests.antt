-- ===== src/Shell/Tests.antt =====
-- The theorems on the shell at concrete lines, and runs of `executeCommand`.
use decs.Shell.Commands.Quotes.{double_quotes_removal_from_tokens_lem}
use decs.Shell.Main.Reading.{file_text}
use decs.Shell.Main.{
  script, ends_shell, act, execute_commands_name, leaves, runs_file, run_separated,
}
use decs.Shell.Execute.Pipe.Streams.{run_piped_ordinary}
use decs.Shell.Execute.Pipe.{PipedRun, run_piped}
use decs.Shell.Tokens.Forms.{result, check_io_parser_forms, Plain}
use decs.Shell.Commands.Separation.{separated, comma_checker-words}
use decs.Shell.Tokens.Splitting.{first_tokens, remove_spaces-words}
use decs.Base.Int.{pos}
use decs.Shell.Strings.Words.{words, words_of, first_word}
use decs.Shell.Execute.Command.{execute_command, illegal, undefined, ran, bar, ran_piped}
use decs.Shell.Commands.{
  comma_checker, one, two, quote, commands_checker, exit_name, double_quotes_removal_from_tokens,
}
use decs.Shell.Tokens.{
  remove_spaces_and_create_tokens, space, less, name_or_fault, greater, named, check_io_parser,
  no_file,
}
use decs.Shell.Execute.Calls.{with_file, Table, IsPlainHost, stream, program, child_ordinary}
use decs.Shell.Execute.{
  Host, child, fork, wait_child, open_file, read_only, dup2, close, truncate, exec, make_pipe,
}
use decs.Shell.Strings.{Str, strtok_leaves}
use decs.Base.{refl, ◌∷◌, none, inr, some, ◌≡◌, ◌++◌, [], true, arith, if◌then◌else◌, ◌==◌, inl}

-- `"cat -n "`, `" in "` and `"out"`
abbrev cat_text : Str
cat_text = b'c' ∷ b'a' ∷ b't' ∷ 32 ∷ b'-' ∷ b'n' ∷ 32 ∷ []

abbrev in_text : Str
in_text = 32 ∷ b'i' ∷ b'n' ∷ 32 ∷ []

abbrev out_text : Str
out_text = b'o' ∷ b'u' ∷ b't' ∷ []

-- `"ls"`, `"ls;cat;ls"`, `"ls;"` and `";ls"`
abbrev ls_text : Str
ls_text = b'l' ∷ b's' ∷ []

abbrev three_commands : Str
three_commands = b'l' ∷ b's' ∷ b';' ∷ b'c' ∷ b'a' ∷ b't' ∷ b';' ∷ b'l' ∷ b's' ∷ []

abbrev ends_in_semicolon : Str
ends_in_semicolon = b'l' ∷ b's' ∷ b';' ∷ []

abbrev starts_with_semicolon : Str
starts_with_semicolon = b';' ∷ b'l' ∷ b's' ∷ []

abbrev cat_name : Str
cat_name = b'c' ∷ b'a' ∷ b't' ∷ []

abbrev n_option : Str
n_option = b'-' ∷ b'n' ∷ []

abbrev in_name : Str
in_name = b'i' ∷ b'n' ∷ []

-- A name for what goes through the pipe, which stands for both ends here
abbrev pipe_name : Str
pipe_name = b'p' ∷ []

-- A system on which each file opens at descriptor 3 and each program runs.
abbrev host : Host
host = record {
  opens = λ name access. pos 3;
  duplicates = λ fd. true;
  scanned = [];
  input_text = [];
  runs = λ args. true;
  pid = pos 100;
  pid_pipe = pos 101;
  read_end = pos 4;
  write_end = pos 5;
  enters = λ directory. true;
}

abbrev terminal : Table
terminal n = if n == 4 then some pipe_name else if n == 5 then some pipe_name else none

host-IsPlainHost : IsPlainHost host
host-IsPlainHost = record { fresh = λ name access. inr (0, refl); duplicable = λ fd. refl }

cat_tokens :
    remove_spaces_and_create_tokens (some cat_text)
    ≡ record { list = cat_name ∷ n_option ∷ []; ended = true }
unfolding remove_spaces_and_create_tokens
cat_tokens = refl

-- A semicolon at the end is cut off, one at the start is not.
semicolon_at_end : comma_checker ends_in_semicolon ≡ one ls_text
unfolding comma_checker
semicolon_at_end = refl

semicolon_at_start : comma_checker starts_with_semicolon ≡ one starts_with_semicolon
unfolding comma_checker
semicolon_at_start = refl

-- The third command of a line is dropped.
third_command : comma_checker three_commands ≡ two ls_text cat_name
unfolding comma_checker
third_command = refl

-- `cat -n < in > out` on this system
cat_redirected :
    execute_command host (cat_text ++ less ∷ (in_text ++ greater ∷ out_text))
    ≡ ran (record {
      shell = fork ∷ wait_child ∷ [];
      forked =
          open_file (some in_name) read_only
          ∷ dup2 (pos 3) 0
          ∷ close (pos 3)
          ∷ open_file (some out_text) truncate
          ∷ dup2 (pos 3) 1
          ∷ close (pos 3)
          ∷ exec (cat_name ∷ n_option ∷ in_name ∷ [])
          ∷ [];
    })
unfolding execute_command
cat_redirected = refl

-- `ls | cat` on this system
ls_piped :
    execute_command host (ls_text ++ bar ∷ cat_name)
    ≡ ran_piped (record {
      shell =
          make_pipe ∷ fork ∷ wait_child ∷ close (pos 5) ∷ fork ∷ wait_child ∷ close (pos 4) ∷ [];
      first = dup2 (pos 5) 1 ∷ exec (ls_text ∷ []) ∷ [];
      second = dup2 (pos 4) 0 ∷ close (pos 4) ∷ exec (cat_name ∷ []) ∷ [];
    })
unfolding execute_command
ls_piped = refl

-- A line of spaces is refused.
blank_line : execute_command host (space ∷ space ∷ []) ≡ illegal
unfolding execute_command
blank_line = refl

-- A quote alone: the search for its partner leaves the token.
lone_quote : execute_command host (cat_name ++ space ∷ quote ∷ []) ≡ undefined
unfolding execute_command
lone_quote = refl

-- A sign without a file name: `strcmp` is called on NULL.
no_name : execute_command host (cat_name ++ less ∷ space ∷ []) ≡ undefined
unfolding execute_command
no_name = refl

cat_text-Plain : Plain cat_text
cat_text-Plain = (
  (refl, (refl, (refl, (refl, (refl, (refl, (refl, tt))))))),
  (refl, (refl, (refl, (refl, (refl, (refl, (refl, tt))))))),
)

in_text-Plain : Plain in_text
in_text-Plain = ((refl, (refl, (refl, (refl, tt)))), (refl, (refl, (refl, (refl, tt)))))

out_text-Plain : Plain out_text
out_text-Plain = ((refl, (refl, (refl, tt))), (refl, (refl, (refl, tt))))

check_io_parser_forms_example :
    let file = named in_name in
    let output = named out_text in
    (check_io_parser (some cat_text) ≡ result cat_text no_file no_file)
    × (check_io_parser (some (cat_text ++ less ∷ in_text)) ≡ result cat_text file no_file)
    × (check_io_parser (some (cat_text ++ greater ∷ out_text)) ≡ result cat_text no_file output)
    × (check_io_parser (some (cat_text ++ less ∷ (in_text ++ greater ∷ out_text)))
        ≡ result cat_text file output)
    × (check_io_parser (some (cat_text ++ greater ∷ (out_text ++ less ∷ in_text)))
        ≡ result cat_text file output)
unfolding words first_word name_or_fault
check_io_parser_forms_example =
    check_io_parser_forms b'c' (b'a' ∷ b't' ∷ 32 ∷ b'-' ∷ b'n' ∷ 32 ∷ []) 32 (b'i' ∷ b'n' ∷ 32 ∷ [])
      b'o' (b'u' ∷ b't' ∷ []) cat_text-Plain in_text-Plain out_text-Plain (omega arith)

remove_spaces-words_example :
    remove_spaces_and_create_tokens (some cat_text) ≡ first_tokens 200 (cat_name ∷ n_option ∷ [])
unfolding words_of
remove_spaces-words_example = remove_spaces-words (some cat_text)

comma_checker-words_example :
    comma_checker three_commands ≡ separated ls_text (ls_text ∷ cat_name ∷ ls_text ∷ [])
unfolding words strtok_leaves
comma_checker-words_example = comma_checker-words three_commands

child_ordinary_example :
    program host terminal (child host 0 (cat_name ∷ []) (some in_name) (some out_text))
    ≡ some (record {
      arguments = cat_name ∷ in_name ∷ [];
      stdin = some in_name;
      stdout = some out_text;
    })
unfolding with_file stream
child_ordinary_example =
    child_ordinary host host-IsPlainHost terminal 0 cat_name [] (some in_name) (some out_text) refl
      (λ l. refl)

run_piped_ordinary_example :
    let run : PipedRun =
      run_piped host
        (record { arguments = ls_text ∷ []; input = none; output = none })
        (record { arguments = cat_name ∷ []; input = none; output = some out_text }) in
    (program host terminal run.first
      ≡ some (record { arguments = ls_text ∷ []; stdin = none; stdout = some pipe_name }))
    × (program host terminal run.second
        ≡ some
            (record { arguments = cat_name ∷ []; stdin = some pipe_name; stdout = some out_text }))
unfolding with_file stream commands_checker
run_piped_ordinary_example =
    run_piped_ordinary host host-IsPlainHost 4 5 terminal ls_text [] none cat_name [] none
      (some out_text) refl refl refl refl (λ args. refl) refl refl

-- `ls;cat;ls` runs its first two commands in children.
two_children : run_separated host (comma_checker three_commands) ≡ record {
  shell = fork ∷ fork ∷ wait_child ∷ wait_child ∷ [];
  outcomes = execute_command host ls_text ∷ execute_command host cat_name ∷ [];
}
unfolding run_separated comma_checker
two_children = refl

-- `exit` ends the shell, with spaces before it too; `executeCommands` without a name opens NULL.
exit_line : act (space ∷ exit_name) ≡ leaves
unfolding act
exit_line = refl

script_without_name : act execute_commands_name ≡ runs_file none
unfolding act
script_without_name = refl

-- The line `exit` ends the shell, and the line behind it is not run.
exit_in_script :
    script host 5000 (some (file_text (three_commands ∷ exit_name ∷ ls_text ∷ [])))
    ≡ run_separated host (two ls_text cat_name) ∷ run_separated host (one exit_name) ∷ []
unfolding script file_text ends_shell
exit_in_script = refl

double_quotes_removal_from_tokens_lem_example :
    double_quotes_removal_from_tokens (cat_name ∷ (quote ∷ (in_name ++ quote ∷ ls_text)) ∷ [])
    ≡ some (cat_name ∷ in_name ∷ [])
double_quotes_removal_from_tokens_lem_example =
    double_quotes_removal_from_tokens_lem
      ((cat_name, cat_name) ∷ (quote ∷ (in_name ++ quote ∷ ls_text), in_name) ∷ [])
      (
        inr (_, (_, (refl, (refl, refl)))),
        (inl (omega arith, (refl, (refl, tt)), (ls_text, refl)), tt),
      )
