-- ===== src/Shell/Main/Reading.antt =====
-- myshell.c, `main`: the line that is read, its buffer, and the commands of a file.
use decs.Shell.Main.Ending.{Ends}
use decs.Shell.Tokens.Redirection.{Lacks}
use decs.Shell.Commands.{newline, Separated}
use decs.Shell.Execute.{Host}
use decs.Shell.Main.{run_separated, LineRun, Line}
use decs.Shell.Strings.{Str}
use decs.Base.{List, ◌++◌, length, ◌∷◌, [], ◌<◌, ◌≡◌, ◌≤◌, ◌+◌, ◌⊎◌}

-- No character of the string ends a line.
abbrev pub IsLine : Str → Type 0
IsLine s = Lacks newline s × Lacks 255 s

-- The text has room in the buffer, with an entry to spare.
abbrev pub HasRoom : Line → Type 0
HasRoom l = (length l.text < l.max_input_length) × (l.max_input_length ≤ length l.text + 256)

-- The lines of a file, each with its newline
unfoldable pub file_text : List Str → Str
file_text [] = []
file_text (l ∷ ls) = l ++ newline ∷ file_text ls

-- A line that a script can have
abbrev pub IsCommand : Str → Type 0
IsCommand l = Lacks newline l × (0 < length l)

-- What the runs of a script's lines are: each line is run in turn, up to and with the first that ends
-- the shell.
pub RunsOf : Host → List Separated → List LineRun → Type 0
RunsOf h [] runs = runs ≡ []
RunsOf h (s ∷ ss) runs =
    (others : List LineRun) × (runs ≡ run_separated h s ∷ others)
    × ((Ends h s × (others ≡ [])) ⊎ ((¬ Ends h s) × RunsOf h ss others))
