-- ===== src/Shell/Execute/Pipe.antt =====
-- assignment 1/myshell.c: the branch of `executeCommand` for two commands with a pipe, as the system
-- calls of the shell and of its two children.
pub mod Streams
use decs.Base.Int.{eq_ℤ, negsuc}
use decs.Shell.Commands.{
  commands_checker, check_custom_commands, checkcpupercentage_name, here_name, ls_name, sort_name,
  ps_name,
}
use decs.Shell.Strings.{same, Str}
use decs.Shell.Execute.{
  run_program, Host, input_calls, replace, run_builtin, run_checkcpupercentage, File,
  input_arguments, run_ls, Call, first_token, run_sort, dup2, output_calls, close_indeterminate,
  read_only, scan, read_input, close, make_pipe, open_file, fork, wait_child, perror, exit,
}
use decs.Base.{ℕ, List, if◌then◌else◌, ◌∷◌, [], ◌++◌, ◌==◌, some, not, false, none, take}

-- The branch of the first child for checkresidentmemory closes the file after `scanf`.
unfoldable pub run_ps_first : Host → List Str → File → List Call
unfolding run_program
run_ps_first h args none = run_program h args
run_ps_first h args (some f) =
    let fd = h.opens (some f) read_only in
    open_file (some f) read_only
    ∷ dup2 fd 0
    ∷ scan
    ∷ close fd
    ∷ run_program h (take 3 args ++ h.scanned ∷ [])

-- The first child behind the redirections
unfoldable pub run_first : Host → ℕ → List Str → File → File → List Call
unfolding same run_checkcpupercentage run_ls run_sort run_ps_first run_program
run_first h flag [] input output = []
run_first h flag (n ∷ args) input output =
    if not (flag == 2)
    then run_program h (n ∷ args)
    else if same n checkcpupercentage_name
    then run_checkcpupercentage h (n ∷ args) input
    else if same n ls_name
    then run_ls h (n ∷ args) output
    else if same n sort_name
    then run_sort h (n ∷ args) input
    else if same n ps_name
    then run_ps_first h (n ∷ args) input
    else run_program h (n ∷ args)

-- Standard output becomes the pipe unless there is an output file.
unfoldable pub to_pipe : Host → File → List Call
to_pipe h none = dup2 h.write_end 1 ∷ []
to_pipe h (some g) = []

unfoldable pub first_child : Host → ℕ → List Str → File → File → List Call
unfolding to_pipe input_calls input_arguments output_calls run_first
first_child h flag args input output =
    to_pipe h output
    ++ (input_calls h input
        ++ (output_calls h false output
            ++ run_first h flag (input_arguments h flag args input) input output))

-- The custom commands of the second child: the word that `scanf` reads for checkcpupercentage goes to
-- the tokens of the first command, which the child does not use.
unfoldable pub run_checkcpupercentage_second : Host → List Str → List Call
unfolding run_program
run_checkcpupercentage_second h [] = []
run_checkcpupercentage_second h (n ∷ args) = scan ∷ run_program h ((here_name ++ n) ∷ args)

unfoldable pub replace_input : Host → File → List Call
unfolding replace
replace_input h none = []
replace_input h (some f) = replace h (some f) read_only 0

unfoldable pub run_sort_second : Host → List Str → File → List Call
unfolding replace_input run_program
run_sort_second h args input =
    replace_input h input ++ read_input ∷ run_program h (take 1 args ++ h.input_text ∷ [])

-- behind `scanf`, `close` is called on the variable of the file, which is not set without one
unfoldable pub close_again : Host → File → Call
close_again h none = close_indeterminate
close_again h (some f) = close (h.opens (some f) read_only)

unfoldable pub run_ps_second : Host → List Str → File → List Call
unfolding replace_input close_again run_program
run_ps_second h args input =
    replace_input h input
    ++ scan ∷ close_again h input ∷ run_program h (take 3 args ++ h.scanned ∷ [])

unfoldable pub run_second : Host → ℕ → List Str → File → File → List Call
unfolding same run_checkcpupercentage_second run_ls run_sort_second run_ps_second run_program
run_second h flag [] input output = []
run_second h flag (n ∷ args) input output =
    if not (flag == 2)
    then run_program h (n ∷ args)
    else if same n checkcpupercentage_name
    then run_checkcpupercentage_second h (n ∷ args)
    else if same n ls_name
    then run_ls h (n ∷ args) output
    else if same n sort_name
    then run_sort_second h (n ∷ args) input
    else if same n ps_name
    then run_ps_second h (n ∷ args) input
    else run_program h (n ∷ args)

-- Standard input becomes the pipe unless there is an input file.
unfoldable pub from_pipe : Host → File → List Call
from_pipe h none = dup2 h.read_end 0 ∷ close h.read_end ∷ []
from_pipe h (some f) = []

unfoldable pub second_child : Host → ℕ → List Str → File → File → List Call
unfolding from_pipe input_calls input_arguments output_calls run_second
second_child h flag args input output =
    from_pipe h input
    ++ (input_calls h input
        ++ (output_calls h false output
            ++ run_second h flag (input_arguments h flag args input) input output))

-- A command with its files, parsed and without quotes
pub record Command : Type 0 where
  pub arguments : List Str
  pub input : File
  pub output : File

-- What the shell and the two children do
pub record PipedRun : Type 0 where
  pub shell : List Call
  pub first : List Call
  pub second : List Call

unfoldable pub flag_of : Command → ℕ
unfolding commands_checker first_token
flag_of c = commands_checker (first_token c.arguments)

-- The shell behind the end of the first child: the second is forked unless the first command has an
-- output file.
unfoldable pub run_other : Host → List Call → Command → Command → PipedRun
unfolding second_child flag_of check_custom_commands
run_other h first1 c1 c2 = elim c1.output [
  | some g ↦ record {
    shell = make_pipe ∷ fork ∷ wait_child ∷ close h.write_end ∷ [];
    first = first1;
    second = [];
  }
  | none ↦
      if eq_ℤ h.pid_pipe (negsuc 0)
      then record {
        shell = make_pipe ∷ fork ∷ wait_child ∷ close h.write_end ∷ fork ∷ perror ∷ exit 1 ∷ [];
        first = first1;
        second = [];
      }
      else record {
        shell =
            make_pipe
            ∷ fork
            ∷ wait_child
            ∷ close h.write_end
            ∷ fork
            ∷ wait_child
            ∷ close h.read_end
            ∷ [];
        first = first1;
        second =
            second_child h (flag_of c2) (check_custom_commands c2.arguments) c2.input c2.output;
      }
]

-- The branch with a pipe behind the parsing; a built-in as first command is all that is run.
unfoldable pub run_piped : Host → Command → Command → PipedRun
unfolding run_builtin flag_of check_custom_commands first_child run_other
run_piped h c1 c2 =
    if flag_of c1 == 1
    then record {
      shell = run_builtin h (check_custom_commands c1.arguments);
      first = [];
      second = [];
    }
    else if eq_ℤ h.pid (negsuc 0)
    then record { shell = make_pipe ∷ fork ∷ perror ∷ exit 1 ∷ []; first = []; second = [] }
    else run_other h
        (first_child h (flag_of c1) (check_custom_commands c1.arguments) c1.input c1.output) c1 c2
