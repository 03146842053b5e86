-- ===== src/Shell/Execute.antt =====
-- assignment 1/myshell.c: what `executeCommand` does with the tokens and files of a command without a
-- pipe, as the list of the system calls that the shell and its child make.
use decs.Base.Int.{ℤ, ltb_ℤ, eq_ℤ, pos, negsuc}
use decs.Shell.Tokens.{FileName, check_io_parser, Parsed, parsed, named, undefined_read, no_file}
use decs.Shell.Commands.{
  commands_checker, file_double_quotes_removal, double_quotes_removal_from_tokens,
  check_custom_commands, here_name, files_txt_name, cd_name, checkcpupercentage_name, exit_name,
  ls_name, sort_name, ps_name,
}
use decs.Shell.Strings.{same, Str, strtok}
use decs.Base.{
  ℕ, refl, Option, List, ◌++◌, [], if◌then◌else◌, ◌∷◌, none, some, Bool, take, not, ◌==◌, false,
  true, ◌&&◌,
}
pub mod Calls
pub mod Command
pub mod Pipe

-- how a file is opened
pub data Access : Type 0 where
  read_only truncate : Access

pub data Call : Type 0 where
  open_file : Option Str → Access → Call
  dup2 : ℤ → ℕ → Call
  close : ℤ → Call
  scan : Call
  read_input : Call
  make_pipe : Call
  close_indeterminate : Call
  exec : List Str → Call
  fork wait_child : Call
  chdir : Option Str → Call
  exit : ℕ → Call
  print_illegal print_duplication perror : Call

-- What the system returns: the descriptor of a file, whether it can be duplicated, the word that
-- `scanf` reads, the text that `read` reads, whether a program runs, the result of the first and the
-- second `fork` in the parent, that of `chdir`, and the two ends of a pipe.
pub record Host : Type 0 where
  pub opens : Option Str → Access → ℤ
  pub duplicates : ℤ → Bool
  pub scanned : Str
  pub input_text : Str
  pub runs : List Str → Bool
  pub pid : ℤ
  pub pid_pipe : ℤ
  pub enters : Option Str → Bool
  pub read_end : ℤ
  pub write_end : ℤ

-- `file[0]` or `file[1]`
abbrev pub File : Type 0
File = Option Str

unfoldable pub append_argument : List Str → Str → List Str
append_argument args f = args ++ f ∷ []

-- The first part of the child: the input file becomes standard input, and for an ordinary command
-- the last argument too.
unfoldable pub input_calls : Host → File → List Call
input_calls h none = []
input_calls h (some f) =
    let fd = h.opens (some f) read_only in
    if ltb_ℤ (pos 0) fd
    then (open_file (some f) read_only
        ∷ dup2 fd 0
        ∷ (if h.duplicates fd then close fd ∷ [] else print_duplication ∷ close fd ∷ []))
    else open_file (some f) read_only ∷ []

unfoldable pub input_arguments : Host → ℕ → List Str → File → List Str
unfolding append_argument
input_arguments h flag args none = args
input_arguments h flag args (some f) =
    if ltb_ℤ (pos 0) (h.opens (some f) read_only) && not (flag == 2)
    then append_argument args f
    else args

-- The second part: the output file becomes standard output. Where it does not open, the result of
-- `open` is closed without a pipe (`always`), and is not closed in the two copies for a pipe.
unfoldable pub output_calls : Host → Bool → File → List Call
output_calls h always none = []
output_calls h always (some g) =
    let fd = h.opens (some g) truncate in
    if ltb_ℤ (pos 0) fd
    then open_file (some g) truncate ∷ dup2 fd 1 ∷ close fd ∷ []
    else if always
    then open_file (some g) truncate ∷ close fd ∷ []
    else open_file (some g) truncate ∷ []

-- `execvp` and what follows where it fails
unfoldable pub run_program : Host → List Str → List Call
run_program h args = if h.runs args then exec args ∷ [] else exec args ∷ print_illegal ∷ exit 1 ∷ []

-- `open`, `dup2` and `close` without a test of the descriptor
unfoldable pub replace : Host → Option Str → Access → ℕ → List Call
replace h name access to =
    let fd = h.opens name access in open_file name access ∷ dup2 fd to ∷ close fd ∷ []

unfoldable pub first_argument : List Str → Option Str
first_argument [] = none
first_argument (n ∷ []) = none
first_argument (n ∷ a ∷ rest) = some a

-- The branch of each custom command, after `checkCustomCommands` has rewritten it
unfoldable pub run_checkcpupercentage : Host → List Str → File → List Call
unfolding append_argument run_program
run_checkcpupercentage h [] input = []
run_checkcpupercentage h (n ∷ args) none = run_program h ((here_name ++ n) ∷ args)
run_checkcpupercentage h (n ∷ args) (some f) =
    scan ∷ run_program h (append_argument ((here_name ++ n) ∷ args) h.scanned)

unfoldable pub run_ls : Host → List Str → File → List Call
unfolding replace run_program
run_ls h args none = replace h (some files_txt_name) truncate 1 ++ run_program h args
run_ls h args (some g) = run_program h args

unfoldable pub run_sort : Host → List Str → File → List Call
unfolding replace run_program first_argument
run_sort h args none = replace h (first_argument args) read_only 0 ++ run_program h (take 1 args)
run_sort h args (some f) = replace h (some f) read_only 0 ++ run_program h (take 1 args)

unfoldable pub run_ps : Host → List Str → File → List Call
unfolding replace run_program
run_ps h args none = run_program h args
run_ps h args (some f) =
    replace h (some f) read_only 0 ++ scan ∷ run_program h (take 3 args ++ h.scanned ∷ [])

-- The child behind the redirections
unfoldable pub run_child : Host → ℕ → List Str → File → File → List Call
unfolding same run_checkcpupercentage run_ls run_sort run_ps run_program
run_child h flag [] input output = []
run_child h flag (n ∷ args) input output =
    if not (flag == 2)
    then run_program h (n ∷ args)
    else if same n checkcpupercentage_name
    then run_checkcpupercentage h (n ∷ args) input
    else if same n ls_name
    then run_ls h (n ∷ args) output
    else if same n sort_name
    then run_sort h (n ∷ args) input
    else if same n ps_name
    then run_ps h (n ∷ args) input
    else run_program h (n ∷ args)

unfoldable pub child : Host → ℕ → List Str → File → File → List Call
unfolding input_calls input_arguments output_calls run_child
child h flag args input output =
    input_calls h input
    ++ (output_calls h true output
        ++ run_child h flag (input_arguments h flag args input) input output)

-- `cd` and `exit`, which the shell runs itself
unfoldable pub run_builtin : Host → List Str → List Call
unfolding same first_argument
run_builtin h [] = []
run_builtin h (n ∷ args) =
    if same n cd_name
    then (if h.enters (first_argument (n ∷ args))
        then chdir (first_argument (n ∷ args)) ∷ []
        else chdir (first_argument (n ∷ args)) ∷ print_illegal ∷ [])
    else if same n exit_name
    then exit 0 ∷ []
    else print_illegal ∷ []

-- What the shell does, and what its child does
pub record Run : Type 0 where
  pub shell : List Call
  pub forked : List Call

unfoldable pub run_external : Host → ℕ → List Str → File → File → Run
unfolding child
run_external h flag args input output =
    if eq_ℤ h.pid (negsuc 0)
    then record { shell = fork ∷ perror ∷ exit 1 ∷ []; forked = [] }
    else record { shell = fork ∷ wait_child ∷ []; forked = child h flag args input output }

unfoldable pub first_token : List Str → Option Str
first_token [] = none
first_token (n ∷ args) = some n

-- `executeCommand` behind the parsing: the flag is that of the command as it was written.
unfoldable pub run_tokens : Host → List Str → File → File → Run
unfolding commands_checker check_custom_commands run_builtin run_external first_token
run_tokens h args input output =
    let flag = commands_checker (first_token args) in
    if flag == 1
    then record { shell = run_builtin h (check_custom_commands args); forked = [] }
    else run_external h flag (check_custom_commands args) input output
