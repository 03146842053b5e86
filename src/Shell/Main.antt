-- ===== src/Shell/Main.antt =====
-- assignment 1/myshell.c: the reading of a line in `main`, what `main` does with it, the file of
-- `executeCommands`, and the signal handlers.
use decs.Base.Int.{eq_ℤ, negsuc}
use decs.Shell.Execute.Command.{execute_command, Outcome, undefined, illegal, ran, ran_piped}
use decs.Shell.Execute.{Call, Host, fork, perror, exit, wait_child}
use decs.Shell.Tokens.{remove_spaces_and_create_tokens, space}
use decs.Shell.Commands.{Separated, comma_checker, newline, exit_name, one, two}
use decs.Shell.Strings.{before, behind, Str, same, strtok}
use decs.Base.{
  true, false, Bool, zero, suc, ℕ, refl, if◌then◌else◌, Option, List, ◌==◌, ◌∷◌, [], none, take,
  ◌+◌, ◌++◌, some, length, ◌||◌,
}
pub mod Ending
pub mod Reading

-- `input`, `max_input_length` and what is left of standard input; `text` is what was written to
-- `input`, and `input_index` its length.
pub record Line : Type 0 where
  pub text : Str
  pub max_input_length : ℕ
  pub rest : Str

-- the test behind each character: the buffer grows by `extend_length` once it is full
unfoldable pub extend : ℕ → ℕ → ℕ
extend input_index max_input_length =
    if input_index == max_input_length then max_input_length + 64 else max_input_length

-- The loop that reads a line. The end of the input and the byte 255, which a `char` does not tell from
-- EOF, end it like a newline.
unfoldable pub read_chars : Str → Str → ℕ → Line
unfolding extend
read_chars [] text capacity = record { text = text; max_input_length = capacity; rest = [] }
read_chars (c ∷ s) text capacity =
    let next = text ++ c ∷ [] in
    let more = read_chars s next (extend (length next) capacity) in
    if c == newline || c == 255
    then record { text = text; max_input_length = capacity; rest = s }
    else more

unfoldable pub read_line : Str → Line
unfolding read_chars
read_line s = read_chars s [] 256

-- `"executeCommands"` and `"\"exit\""`
abbrev pub execute_commands_name : Str
execute_commands_name =
    b'e' ∷ b'x' ∷ b'e' ∷ b'c' ∷ b'u' ∷ b't' ∷ b'e' ∷ b'C' ∷ b'o' ∷ b'm' ∷ b'm' ∷ b'a' ∷ b'n' ∷ b'd'
    ∷ b's' ∷ []

abbrev pub quoted_exit_name : Str
quoted_exit_name = 34 ∷ b'e' ∷ b'x' ∷ b'i' ∷ b't' ∷ 34 ∷ []

-- What `main` does with a line: it returns, prints that the line is illegal, runs the file of that name
-- (NULL if there is none), or runs the commands of the line.
pub data Action : Type 0 where
  leaves : Action
  refuses : Action
  runs_file : Option Str → Action
  runs_line : Separated → Action

unfoldable pub second_token : List Str → Option Str
second_token [] = none
second_token (v ∷ []) = none
second_token (v ∷ w ∷ ws) = some w

-- for the first word, with the string that stands in `input`
unfoldable pub act_on : Str → Option Str → Action
unfolding same second_token remove_spaces_and_create_tokens comma_checker
act_on input none = refuses
act_on input (some first_command) =
    if same first_command exit_name || same first_command quoted_exit_name
    then leaves
    else if same first_command execute_commands_name
    then runs_file (second_token (remove_spaces_and_create_tokens (some input)).list)
    else runs_line (comma_checker input)

-- The body of the loop of `main` behind the reading. The loop that passes over a first word of one
-- space is left out, since no word has a space.
unfoldable pub act : Str → Action
unfolding act_on strtok
act [] = refuses
act (c ∷ s) = if c == newline then refuses else act_on (c ∷ s) (strtok space (some (c ∷ s)) []).0

-- What the shell itself calls for a line, and what each `executeCommand` comes to: the two commands of
-- a line with semicolons run in children at the same time, a single one in the shell.
pub record LineRun : Type 0 where
  pub shell : List Call
  pub outcomes : List Outcome

unfoldable pub run_separated : Host → Separated → LineRun
unfolding execute_command
run_separated h (one command) = record { shell = []; outcomes = execute_command h command ∷ [] }
run_separated h (two command1 command2) =
    if eq_ℤ h.pid (negsuc 0)
    then record { shell = fork ∷ perror ∷ exit 1 ∷ []; outcomes = [] }
    else if eq_ℤ h.pid_pipe (negsuc 0)
    then record {
      shell = fork ∷ fork ∷ perror ∷ exit 1 ∷ [];
      outcomes = execute_command h command1 ∷ [];
    }
    else record {
      shell = fork ∷ fork ∷ wait_child ∷ wait_child ∷ [];
      outcomes = execute_command h command1 ∷ execute_command h command2 ∷ [];
    }

unfoldable pub is_exit : Call → Bool
is_exit (exit n) = true
is_exit c = false

-- whether one of the calls ends the process
unfoldable pub calls_exit : List Call → Bool
unfolding is_exit
calls_exit [] = false
calls_exit (c ∷ cs) = is_exit c || calls_exit cs

-- Whether the shell goes on behind a call of `executeCommand`; behind one that is undefined it is taken
-- not to.
unfoldable pub outcome_exits : Outcome → Bool
unfolding calls_exit
outcome_exits undefined = true
outcome_exits illegal = false
outcome_exits (ran r) = calls_exit r.shell
outcome_exits (ran_piped r) = calls_exit r.shell

-- Whether a line ends the shell: a single command, as `exit` does, or two where `fork` fails. The two
-- commands of a line run in children, and end those alone.
unfoldable pub ends_shell : Host → Separated → Bool
unfolding execute_command run_separated calls_exit outcome_exits
ends_shell h (one command) = outcome_exits (execute_command h command)
ends_shell h (two command1 command2) = calls_exit (run_separated h (two command1 command2)).shell

-- A line of a script, in front of what the lines behind it run, unless it ends the process: an empty
-- line ends the loop.
unfoldable pub run_line : Host → Str → List LineRun → List LineRun
unfolding comma_checker run_separated ends_shell
run_line h [] others = []
run_line h (c ∷ s) others =
    let l = comma_checker (c ∷ s) in run_separated h l ∷ (if ends_shell h l then [] else others)

-- The loop over the file of `executeCommands`: the lines in the buffer, up to an empty line or the end of
-- the process, at most `n` of them
unfoldable pub script : Host → ℕ → Option Str → List LineRun
unfolding before behind run_line
script h zero buffer = []
script h (suc n) none = []
script h (suc n) (some buffer) =
    run_line h (before newline buffer) (script h n (behind newline buffer))

-- `executeCommands`: the file's text, as far as the buffer holds it
unfoldable pub run_file : Host → Option Str → List LineRun
unfolding script
run_file h none = []
run_file h (some buffer) = script h 5000 (some (take 5000 buffer))

-- What the handler of SIGINT does with the answer, and that of SIGTERM
pub data Reaction : Type 0 where
  exits : Reaction
  prompts : Reaction

unfoldable pub sigint_handler : Str → Reaction
unfolding same
sigint_handler answer = if same (take 100 answer) (b'Y' ∷ newline ∷ []) then exits else prompts

unfoldable pub sigterm_handler : Reaction
sigterm_handler = exits
